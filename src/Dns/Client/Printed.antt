-- ===== src/Dns/Client/Printed.antt =====
-- What `main` of packages/lifeline/dns.c prints when a good reply comes.
use safewrt.Common.{
  ℕ, ◌-◌, ◌^◌, ◌≤◌, ◌<◌, ◌≡◌, refl, false, some, Option, List, [], ◌∷◌, ◌++◌, All, Bytes, map,
  length, joined, replicate, ◌==◌,
}
use safewrt.Common.Outcome.{ok}
use safewrt.Common.Text.{codes}
use safewrt.Dns.{DnsRecord}
use safewrt.Dns.Request.{dns_init}
use safewrt.Dns.Request.Message.{query_message}
use safewrt.Dns.Receive.Replies.{reply_bytes, reply_body}
use safewrt.Dns.Receive.Records.{IsRecord}
use safewrt.Dns.Replied.{zero_record, dns_request-asked, dns_receive-asked}
use safewrt.Dns.Client.{record_line, record_lines, main}

record_lines-map :
    (name : Bytes) (rs more : List DnsRecord)
    → All (λ r. (r.ttl == 0) ≡ false) rs
    → record_lines name (rs ++ (zero_record ∷ more)) ≡ ok (joined (map (record_line name) rs))
unfolding record_lines
record_lines-map name [] more h = refl
record_lines-map name (r ∷ rs) more h = rw (h.0, record_lines-map name rs more h.1) refl

-- With a socket that takes the whole query for a name of at most 492 bytes, and a reply from
-- 8.8.8.8 with the query's id and one question, whose answers are all A records of class IN, each
-- named by the pointer 0xc0 0x0c back to the question, and which has no authority or additional
-- section, with one to seven answers, none with a time to live of 0, in at most 512 bytes behind
-- its header: the client returns 0 and prints one line for each answer, in their order.
pub main_replied :
    (socket flags : ℕ) (inet_addr : Bytes → ℕ) (sendto : Bytes → Option ℕ) (name q : Bytes)
    (rs : List DnsRecord)
    → length name ≤ 492
    → sendto (query_message name) ≡ some (length (query_message name))
    → flags < 2 ^ 16
    → All (λ b. 0 < b) q
    → All IsRecord rs
    → 0 < length rs
    → length rs < 8
    → length (reply_body q rs) ≤ 512
    → All (λ r. (r.ttl == 0) ≡ false) rs
    → main
        (some socket)
        inet_addr
        sendto
        (some
          (record { sender = inet_addr (codes "8.8.8.8"); bytes = reply_bytes 0x1337 flags q rs }))
        name
      ≡ ok (0, joined (map (record_line name) rs))
unfolding main dns_init
main_replied socket flags inet_addr sendto name q rs hl ht hf hq hrs hn h8 hb h0 =
    rw
      (
        dns_request-asked sendto (inet_addr (codes "8.8.8.8")) name hl ht,
        dns_receive-asked (inet_addr (codes "8.8.8.8")) flags name q rs hf hq hrs hn h8 hb,
        record_lines-map name rs (replicate (7 - length rs) zero_record) h0,
      )
      refl
