-- ===== src/Dns/Fields.antt =====
-- The fields of packages/lifeline/dns.c as bytes: packets on the wire, and reads at a pointer.
use safewrt.Common.{ℕ, ◌+◌, ◌*◌, ◌/◌, ◌%◌, ◌^◌, List, [], ◌∷◌, ◌++◌, Bytes, take, replicate, ◌-◌}
use safewrt.Common.Outcome.{Outcome, ok, stop, faults, ◌>>=◌}
use safewrt.Dns.{DnsPacket, DnsRecord, payload_buffer_size}

-- `memset(…, 0, …)` of a packet and of the records.
abbrev pub no_packet : DnsPacket
no_packet = record {
  id = 0;
  flags = 0;
  queries = 0;
  answers = 0;
  authorities = 0;
  additionals = 0;
  payload = replicate payload_buffer_size 0;
}

abbrev pub no_records : List DnsRecord
no_records = replicate 8 (record { ttl = 0; address = 0 })

-- A `uint16_t` at a pointer, and the pointer behind it.
unfoldable pub read16 : Bytes → Outcome (ℕ × Bytes)
read16 (a ∷ b ∷ rest) = ok (a * 2 ^ 8 + b, rest)
read16 _ = stop faults

-- A `uint32_t` at a pointer, and the pointer behind it.
unfoldable pub read32 : Bytes → Outcome (ℕ × Bytes)
read32 (a ∷ b ∷ c ∷ d ∷ rest) = ok (a * 2 ^ 24 + b * 2 ^ 16 + c * 2 ^ 8 + d, rest)
read32 _ = stop faults

unfoldable pub be16 : ℕ → Bytes
be16 v = (v / 2 ^ 8 % 256) ∷ (v % 256) ∷ []

-- The first `len` bytes of a packet in memory, for a `len` of twelve at least.
unfoldable pub packet_bytes : DnsPacket → ℕ → Bytes
packet_bytes p len =
    be16 p.id
    ++ (be16 p.flags
        ++ (be16 p.queries
            ++ (be16 p.answers
                ++ (be16 p.authorities ++ (be16 p.additionals ++ take (len - 12) p.payload)))))

-- What is in the packet behind `recvfrom`: the twelve bytes of the fields and the payload, where
-- the datagram is cut at the packet's end, and what it does not fill is zero.
unfoldable pub packet_from : Bytes → Outcome DnsPacket
packet_from datagram = do
  let whole = take (12 + payload_buffer_size) (datagram ++ replicate (12 + payload_buffer_size) 0)
  (id, b1) ← read16 whole
  (flags, b2) ← read16 b1
  (queries, b3) ← read16 b2
  (answers, b4) ← read16 b3
  (authorities, b5) ← read16 b4
  (additionals, b6) ← read16 b5
  ok (record {
    id = id;
    flags = flags;
    queries = queries;
    answers = answers;
    authorities = authorities;
    additionals = additionals;
    payload = b6;
  })
