-- ===== src/Tests/Dns.antt =====
-- Runs of packages/lifeline/dns.c: the query for a short name, and replies to it.
use safewrt.Common.{
  ℕ, suc, ◌≡◌, ◌≢◌, ◌⊎◌, refl, some, [], ◌∷◌, Bytes, length, take, arith, All, replicate, ltb→lt,
}
use safewrt.Common.Outcome.{ok}
use safewrt.Common.Text.{codes}
use safewrt.Common.Words.{be32}
use safewrt.Dns.{Dns, DnsRecord, dns_error_udp_injected}
use safewrt.Dns.Fields.{no_packet, no_records, read16, packet_from}
use safewrt.Dns.Request.{encode_question}
use safewrt.Dns.Request.Encoding.{labels, wire}
use safewrt.Dns.Request.Message.{
  dns_request_lem, query_name_reads_back, query_packet, IsLabel, read_labels, dotted,
}
use safewrt.Dns.Receive.{dns_receive, Datagram, check_reply}
use safewrt.Dns.Receive.Safety.{dns_receive_accepts, Accepted}
use safewrt.Dns.Receive.Replies.{dns_receive_reply, reply_bytes, reply_packet}
use safewrt.Common.{joined, leb→le}
use safewrt.Dns.Client.Printed.{main_replied}
use safewrt.Dns.Client.{main, record_line, decimal, decimal_onto, dotted_quad}
use safewrt.Dns.Request.{dns_request, falls_short}

-- A name of two labels.
abbrev name_a : Bytes
name_a = codes "x.io"

abbrev dns_a : Dns
dns_a = record { id = 0x1337; packet = no_packet; dns_address = 0x0808_0808; records = no_records }

abbrev record_a : DnsRecord
record_a = record { ttl = 60; address = 0x0102_0304 }

dns_request_example :
    dns_request (λ sent. some (length sent)) dns_a name_a
    ≡ ok (0, record dns_a { id = 0x1337; packet = query_packet name_a })
unfolding falls_short wire labels
dns_request_example = dns_request_lem (λ sent. some (length sent)) dns_a name_a

labels_a : All IsLabel (labels name_a)
unfolding labels
labels_a = ((ltb→lt 0 1 refl, ltb→lt 1 64 refl), ((ltb→lt 0 2 refl, ltb→lt 2 64 refl), tt))

query_name_reads_back_example :
    (payload : Bytes) × (at : ℕ) × (encode_question name_a ≡ ok (payload, at))
    × (read_labels (suc (length (labels name_a))) (take at payload)
        ≡ some (labels name_a, 0 ∷ 1 ∷ 0 ∷ 1 ∷ []))
    × (dotted (labels name_a) ≡ name_a)
query_name_reads_back_example = query_name_reads_back name_a (omega arith) labels_a

-- The question's name as it is sent.
abbrev question_a : Bytes
question_a = 1 ∷ b'x' ∷ 2 ∷ b'i' ∷ b'o' ∷ []

dns_receive_reply_example :
    dns_receive dns_a (
      some (record {
        sender = 0x0808_0808;
        bytes = reply_bytes 0x1337 0x8180 question_a (record_a ∷ []);
      }))
    ≡ ok (
      0,
      record dns_a {
        packet = reply_packet 0x1337 0x8180 question_a (record_a ∷ []);
        records = record_a ∷ replicate 7 (record { ttl = 0; address = 0 });
      },
    )
unfolding be32
dns_receive_reply_example =
    dns_receive_reply dns_a 0x8180 question_a (record_a ∷ []) (omega arith) (omega arith) refl
      (omega arith, (omega arith, (omega arith, (omega arith, (omega arith, tt)))))
      ((omega arith, omega arith), tt) (omega arith) (omega arith)

-- A datagram of one byte from another address is refused.
abbrev datagram_a : Datagram
datagram_a = record { sender = 1; bytes = 0x13 ∷ [] }

injected :
    dns_receive dns_a (some datagram_a)
    ≡ ok (5, record dns_a { packet = record no_packet { id = 0x1300 } })
unfolding dns_receive check_reply packet_from read16
injected = refl

dns_receive_accepts_example :
    Accepted dns_a (some datagram_a) ⊎ ((dns_error_udp_injected ≢ 0) × (no_records ≡ no_records))
dns_receive_accepts_example = dns_receive_accepts dns_a (some datagram_a) injected

line_a : record_line name_a record_a ≡ codes "x.io\t60\tIN\tA\t1.2.3.4\n"
unfolding record_line decimal decimal_onto dotted_quad
line_a = refl

negative_line :
    record_line name_a (record { ttl = 0xffff_ffff; address = 0xffff_ff0a })
    ≡ codes "x.io\t-1\tIN\tA\t255.255.255.10\n"
unfolding record_line decimal decimal_onto dotted_quad
negative_line = refl

main_replied_example :
    main
      (some 3)
      (λ text. 0x0808_0808)
      (λ sent. some (length sent))
      (some (record {
        sender = 0x0808_0808;
        bytes = reply_bytes 0x1337 0x8180 question_a (record_a ∷ []);
      }))
      name_a
    ≡ ok (0, joined (record_line name_a record_a ∷ []))
unfolding be32
main_replied_example =
    main_replied 3 0x8180 (λ text. 0x0808_0808) (λ sent. some (length sent)) name_a question_a
      (record_a ∷ []) (leb→le _ _ refl) refl (ltb→lt _ _ refl)
      (
        ltb→lt _ _ refl,
        (ltb→lt _ _ refl, (ltb→lt _ _ refl, (ltb→lt _ _ refl, (ltb→lt _ _ refl, tt)))),
      )
      ((ltb→lt _ _ refl, ltb→lt _ _ refl), tt) (ltb→lt _ _ refl) (ltb→lt _ _ refl) (leb→le _ _ refl)
      (refl, tt)
