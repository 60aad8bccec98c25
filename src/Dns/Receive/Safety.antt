-- ===== src/Dns/Receive/Safety.antt =====
-- What `dns_receive` of packages/lifeline/dns.c answers, for any datagram.
use safewrt.Common.{
  ℕ, ◌≤◌, ◌<◌, ◌≡◌, ◌≢◌, ◌⊎◌, inl, inr, refl, Bool, ◌&&◌, Option, none, some, arith, leb, ◌==◌,
  Bool-cases,
}
use safewrt.Common.Outcome.{ok, >>=-eq-ok}
use safewrt.Dns.{Dns, DnsPacket}
use safewrt.Dns.Fields.{packet_from}
use safewrt.Dns.Receive.{Datagram, check_reply, dns_receive}

-- What the tests ask of a reply.
pub record Accepted (dns : Dns) (reply : Option Datagram) : Type 0 where
  pub datagram : Datagram
  pub packet : DnsPacket
  pub came : reply ≡ some datagram
  pub read : packet_from datagram.bytes ≡ ok packet
  pub asked : datagram.sender ≡ dns.dns_address
  pub same_id : packet.id ≡ dns.id
  pub one_query : packet.queries ≤ 1
  pub answered : 0 < packet.answers

-- A reply is accepted only from the address that was asked, with the id of the query, with one
-- question at most and one answer at least; in all other cases the answer is an error and the
-- records stay as they were.
pub dns_receive_accepts :
    (dns : Dns) (reply : Option Datagram) {code : ℕ} {dns' : Dns}
    → dns_receive dns reply ≡ ok (code, dns')
    → Accepted dns reply ⊎ ((code ≢ 0) × (dns'.records ≡ dns.records))
unfolding dns_receive check_reply
dns_receive_accepts dns none h = ground arith
dns_receive_accepts dns (some d) {code} {dns'} h =
    let (packet, read, rest) = >>=-eq-ok (packet_from d.bytes) _ h in
    elim (Bool-cases (accepts d packet)) [
      | inl good ↦ inl (record {
        datagram = d;
        packet = packet;
        came = refl;
        read = read;
        asked = ground arith;
        same_id = ground arith;
        one_query = ground arith;
        answered = ground arith;
      })
      | inr bad ↦ inr (ground arith)
    ]
  where
    accepts : Datagram → DnsPacket → Bool
    accepts d packet =
        d.sender == dns.dns_address
        && packet.id == dns.id
        && leb packet.queries 1
        && leb 1 packet.answers
