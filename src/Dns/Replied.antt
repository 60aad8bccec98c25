-- ===== src/Dns/Replied.antt =====
-- A query of packages/lifeline/dns.c and a good reply to it, as a caller sees them.
use safewrt.Common.{
  ℕ, suc, ◌-◌, ◌^◌, ◌≤◌, ◌<◌, ◌≡◌, refl, ◌∙◌, some, Option, List, ◌∷◌, ◌++◌, All, Bytes, length,
  replicate, drop-replicate, arith, le→ltb_false, le→leb,
}
use safewrt.Common.Outcome.{ok}
use safewrt.Dns.{Dns, DnsRecord}
use safewrt.Dns.Fields.{no_packet, no_records}
use safewrt.Dns.Request.{dns_request, falls_short}
use safewrt.Dns.Request.Message.{dns_request_lem, query_message, query_packet}
use safewrt.Dns.Receive.{dns_receive}
use safewrt.Dns.Receive.Replies.{dns_receive_reply, reply_bytes, reply_body, reply_packet}
use safewrt.Dns.Receive.Records.{IsRecord}

-- A place of the array that holds no record.
abbrev pub zero_record : DnsRecord
zero_record = record { ttl = 0; address = 0 }

-- What `dns_init` makes, and what `dns_request` makes of it.
abbrev pub asking : ℕ → Dns
asking address = record { id = 0; packet = no_packet; dns_address = address; records = no_records }

abbrev pub asked : ℕ → Bytes → Dns
asked address name = record (asking address) { id = 0x1337; packet = query_packet name }

-- The socket takes the whole of the query.
pub dns_request-asked :
    (sendto : Bytes → Option ℕ) (address : ℕ) (name : Bytes)
    → length name ≤ 492
    → sendto (query_message name) ≡ some (length (query_message name))
    → dns_request sendto (asking address) name ≡ ok (0, asked address name)
unfolding falls_short
dns_request-asked sendto address name hl ht =
    dns_request_lem sendto (asking address) name
    ∙ rw
        (
          le→ltb_false 492 (length name) hl,
          ht,
          le→ltb_false (length (query_message name)) (length (query_message name)) (omega arith),
        )
        refl

-- Fewer records than places: there is an empty place behind them.
pub dns_receive-asked :
    (address flags : ℕ) (name q : Bytes) (rs : List DnsRecord)
    → flags < 2 ^ 16
    → All (λ b. 0 < b) q
    → All IsRecord rs
    → 0 < length rs
    → length rs < 8
    → length (reply_body q rs) ≤ 512
    → dns_receive
        (asked address name)
        (some (record { sender = address; bytes = reply_bytes 0x1337 flags q rs }))
      ≡ ok (
        0,
        record (asked address name) {
          packet = reply_packet 0x1337 flags q rs;
          records = rs ++ (zero_record ∷ replicate (7 - length rs) zero_record);
        },
      )
dns_receive-asked address flags name q rs hf hq hrs hn h8 hb =
    dns_receive_reply (asked address name) flags q rs (omega arith) hf refl hq hrs hn hb
    ∙ rw
        (
          le→leb (length rs) 8 (omega arith),
          drop-replicate {A = DnsRecord} (length rs) 8 (suc (7 - length rs)) zero_record
              (omega arith),
        )
        refl
