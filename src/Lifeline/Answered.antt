-- ===== src/Lifeline/Answered.antt =====
-- A server of packages/lifeline/lifeline.c whose address has to be asked for with packages/lifeline/dns.c,
-- when a good reply comes.
use safewrt.Common.{
  ℕ, ◌-◌, ◌^◌, ◌≤◌, ◌<◌, ◌≡◌, refl, false, some, List, [], ◌∷◌, ◌++◌, All, Bytes, map, length,
  replicate, ◌==◌,
}
use safewrt.Common.Outcome.{ok}
use safewrt.Dns.{DnsRecord}
use safewrt.Dns.Request.{dns_init}
use safewrt.Dns.Request.Message.{query_message}
use safewrt.Dns.Receive.Replies.{reply_bytes, reply_body}
use safewrt.Dns.Receive.Records.{IsRecord}
use safewrt.Dns.Replied.{zero_record, dns_request-asked, dns_receive-asked}
use safewrt.Lifeline.Resolve.{Network, inaddr_none, look_up, addresses_of, attempt_server}

-- The records up to one whose `ttl` is zero.
addresses_of-map :
    (server : Bytes) (rs : List DnsRecord) (more : List DnsRecord)
    → All (λ r. (r.ttl == 0) ≡ false) rs
    → addresses_of server (rs ++ (zero_record ∷ more)) ≡ ok (map (λ r. (server, r.address)) rs)
unfolding addresses_of
addresses_of-map server [] more h = refl
addresses_of-map server (r ∷ rs) more h = rw (h.0, addresses_of-map server rs more h.1) refl

-- A server whose address has to be asked for, with a name of at most 492 bytes, a socket that
-- takes the whole query, and a reply from the resolver with the query's id and one question,
-- whose answers are all A records of class IN, each named by the pointer 0xc0 0x0c back to the
-- question, and which has no authority or additional section, with one to seven answers, none
-- with a time to live of 0, in at most 512 bytes behind its header: `attempt_dns` attempts
-- exactly the addresses of the answers, in their order.
pub attempt_server_replied :
    (network : Network) (call socket : ℕ) (dns_ip server : Bytes) (flags : ℕ) (q : Bytes)
    (rs : List DnsRecord)
    → network.inet_addr server ≡ inaddr_none
    → length server ≤ 492
    → (network.query call server).socket ≡ some socket
    → (network.query call server).sendto (query_message server)
      ≡ some (length (query_message server))
    → (network.query call server).reply
      ≡ some (record { sender = network.inet_addr dns_ip; bytes = reply_bytes 0x1337 flags q rs })
    → flags < 2 ^ 16
    → All (λ b. 0 < b) q
    → All IsRecord rs
    → 0 < length rs
    → length rs < 8
    → length (reply_body q rs) ≤ 512
    → All (λ r. (r.ttl == 0) ≡ false) rs
    → attempt_server network call dns_ip server ≡ ok (map (λ r. (server, r.address)) rs)
unfolding attempt_server look_up dns_init
attempt_server_replied network call socket dns_ip server flags q rs ha hl hs ht hr hf hq hrs hn h8
      hb h0 =
    rw
      (
        ha,
        hs,
        dns_request-asked (network.query call server).sendto (network.inet_addr dns_ip) server hl
            ht,
        hr,
        dns_receive-asked (network.inet_addr dns_ip) flags server q rs hf hq hrs hn h8 hb,
      )
      (addresses_of-map server rs (replicate (7 - length rs) zero_record) h0)
