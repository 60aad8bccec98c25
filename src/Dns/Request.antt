-- ===== src/Dns/Request.antt =====
-- `dns_init` and `dns_request` of packages/lifeline/dns.c.
pub mod Encoding
pub mod Message
use safewrt.Common.{
  ℕ, suc, ◌+◌, ◌-◌, ◌%◌, ◌^◌, Bool, true, false, Option, none, some, List, [], ◌∷◌, ◌++◌, Bytes,
  length, get_elem?, ltb, ◌==◌, if◌then◌else◌,
}
use safewrt.Common.Outcome.{Outcome, ok, stop, faults, ◌>>=◌, need}
use safewrt.Common.Memory.{write}
use safewrt.Dns.{
  DnsPacket, Dns, payload_buffer_size, dns_error_socket_failed, dns_error_name_too_long,
  dns_error_sendto_failed,
}
use safewrt.Dns.Fields.{no_packet, no_records, packet_bytes}

-- `dns_init`: a socket or none, and the address that `inet_addr` read. The answer is the error
-- code and the structure.
unfoldable pub dns_init : Option ℕ → ℕ → ℕ × Dns
dns_init none address = (
  dns_error_socket_failed,
  record { id = 0; packet = no_packet; dns_address = 0; records = no_records },
)
dns_init (some socket) address =
    (0, record { id = 0; packet = no_packet; dns_address = address; records = no_records })

-- The two pointers of the encoding, as indices into the payload.
pub record Cursor : Type 0 where
  pub payload : Bytes
  pub label_length : ℕ
  pub datap : ℕ

-- `*label_length += 1`, on a byte
unfoldable pub count_up : Bytes → ℕ → Outcome Bytes
count_up payload at = do
  b ← need (get_elem? payload at) faults
  write payload at (((b + 1) % 2 ^ 8) ∷ [])

-- One byte of the name.
unfoldable pub encode_step : Cursor → ℕ → Outcome Cursor
encode_step s c =
    if c == b'.' then ok (record s { label_length = s.datap; datap = s.datap + 1 }) else (do
      counted ← count_up s.payload s.label_length
      stored ← write counted s.datap (c ∷ [])
      ok (record s { payload = stored; datap = s.datap + 1 }))

unfoldable pub encode_labels : Bytes → Cursor → Outcome Cursor
encode_labels [] s = ok s
encode_labels (c ∷ cs) s = encode_step s c >>= encode_labels cs

-- Encode labels, the zero behind them, and the four bytes that ask for A records of class inet:
-- the payload and the place behind.
unfoldable pub encode_question : Bytes → Outcome (Bytes × ℕ)
encode_question name = do
  s ← encode_labels name (record { payload = no_packet.payload; label_length = 0; datap = 1 })
  ended ← write s.payload s.datap (0 ∷ [])
  type ← write ended (s.datap + 1) (0 ∷ 0x01 ∷ [])
  class ← write type (s.datap + 3) (0 ∷ 1 ∷ [])
  ok (class, s.datap + 5)

-- `sendto(…) < len`
unfoldable pub falls_short : Option ℕ → ℕ → Bool
falls_short none len = true
falls_short (some sent) len = ltb sent len

-- The answer is the error code and the structure. `sendto` answers how many bytes were sent, or
-- none.
unfoldable pub dns_request : (Bytes → Option ℕ) → Dns → Bytes → Outcome (ℕ × Dns)
dns_request sendto dns name =
    let header = record no_packet { id = 0x1337; flags = 0x100; queries = 1 } in
    if ltb (payload_buffer_size - 20) (length name)
    then ok (dns_error_name_too_long, record dns { id = 0x1337; packet = header })
    else (do
      (payload, datap) ← encode_question name
      let packet = record header { payload = payload }
      let len = 12 + datap
      let short = falls_short (sendto (packet_bytes packet len)) len
      ok (
        if short then dns_error_sendto_failed else 0,
        record dns { id = 0x1337; packet = packet },
      ))
