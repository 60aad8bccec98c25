-- ===== src/Dns/Receive.antt =====
-- `dns_receive` of packages/lifeline/dns.c.
pub mod Safety
pub mod Records
pub mod Replies
use safewrt.Common.{
  ℕ, zero, suc, ◌+◌, not, ◌&&◌, Option, none, some, List, [], ◌∷◌, Bytes, length, drop, ltb, leb,
  ◌==◌, if◌then◌else◌, bit_and,
}
use mathlib.Core.Option.{get_or}
use safewrt.Common.Outcome.{Outcome, ok, stop, faults, ◌>>=◌}
use safewrt.Dns.{
  DnsRecord, Dns, dns_error_recvfrom_failed, dns_error_udp_injected, dns_error_answer_too_large,
  dns_error_nxdomain,
}
use safewrt.Dns.Fields.{no_packet, packet_from, read16, read32}

-- `for (; *datap != 0; datap++) {} datap += 5;`
unfoldable pub skip_query : Bytes → Outcome Bytes
skip_query [] = stop faults
skip_query (b ∷ rest) = if b == 0 then ok (drop 4 rest) else skip_query rest

unfoldable pub skip_queries : ℕ → Bytes → Outcome Bytes
skip_queries zero datap = ok datap
skip_queries (suc n) datap = skip_query datap >>= skip_queries n

-- "skip name. find a pointer or a zero.."
unfoldable pub skip_name : Bytes → Outcome Bytes
skip_name [] = stop faults
skip_name (b ∷ rest) =
    if b == 0
    then ok rest
    else if not (bit_and b 0xc0 == 0)
    then ok (drop 1 rest)
    else skip_name rest

-- The fields of an answer behind its name.
pub record Answer : Type 0 where
  pub record_type : ℕ
  pub record_class : ℕ
  pub ttl : ℕ
  pub rdlength : ℕ
  pub rdata : Bytes

unfoldable pub read_answer : Bytes → Outcome Answer
read_answer datap = do
  named ← skip_name datap
  (record_type, b1) ← read16 named
  (record_class, b2) ← read16 b1
  (ttl, b3) ← read32 b2
  (rdlength, b4) ← read16 b3
  ok (record {
    record_type = record_type;
    record_class = record_class;
    ttl = ttl;
    rdlength = rdlength;
    rdata = b4;
  })

-- `dns->records[record_count] = …`: the array has eight places.
unfoldable pub store_record : List DnsRecord → ℕ → DnsRecord → Outcome (List DnsRecord)
store_record [] i r = stop faults
store_record (x ∷ xs) zero r = ok (r ∷ xs)
store_record (x ∷ xs) (suc i) r = store_record xs i r >>= λ ys. ok (x ∷ ys)

-- The state of the loop over the answers. `returned` is an error code that ends it.
pub record Parsing : Type 0 where
  pub datap : Bytes
  pub record_count : ℕ
  pub records : List DnsRecord
  pub returned : Option ℕ

unfoldable pub keep_record : Answer → Parsing → Outcome Parsing
keep_record a s = do
  (address, _) ← read32 a.rdata
  records ← store_record s.records s.record_count (record { ttl = a.ttl; address = address })
  ok (record {
    datap = drop a.rdlength a.rdata;
    record_count = s.record_count + 1;
    records = records;
    returned = if leb 16 (s.record_count + 1) then some dns_error_answer_too_large else none;
  })

-- One round of the loop.
unfoldable pub answer_step : Parsing → Outcome Parsing
answer_step s = do
  a ← read_answer s.datap
  if a.record_class == 1 && a.record_type == 1 && a.rdlength == 4
      then keep_record a s
      else ok (record s { datap = drop a.rdlength a.rdata })

unfoldable pub read_answers : ℕ → Parsing → Outcome Parsing
read_answers zero s = ok s
read_answers (suc n) s =
    answer_step s >>= λ t. elim t.returned [ some _ ↦ ok t | none ↦ read_answers n t ]

-- What `recvfrom` gave: a datagram and the address of its sender.
pub record Datagram : Type 0 where
  pub sender : ℕ
  pub bytes : Bytes

-- The reply to the query that `dns` holds, from its packet on.
unfoldable pub read_reply : Dns → Outcome (ℕ × Dns)
read_reply dns = do
  datap ← skip_queries dns.packet.queries dns.packet.payload
  s ←
      read_answers dns.packet.answers
        (record { datap = datap; record_count = 0; records = dns.records; returned = none })
  ok (get_or s.returned 0, record dns { records = s.records })

unfoldable pub check_reply : ℕ → Dns → Outcome (ℕ × Dns)
check_reply sender dns =
    if not (sender == dns.dns_address)
    then ok (dns_error_udp_injected, dns)
    else if not (dns.packet.id == dns.id)
    then ok (dns_error_udp_injected, dns)
    else if ltb 1 dns.packet.queries
    then ok (dns_error_udp_injected, dns)
    else if ltb dns.packet.answers 1
    then ok (dns_error_nxdomain, dns)
    else read_reply dns

unfoldable pub dns_receive : Dns → Option Datagram → Outcome (ℕ × Dns)
dns_receive dns none = ok (dns_error_recvfrom_failed, record dns { packet = no_packet })
dns_receive dns (some d) = do
  packet ← packet_from d.bytes
  if length d.bytes == 0
      then ok (dns_error_recvfrom_failed, record dns { packet = packet })
      else check_reply d.sender (record dns { packet = packet })
