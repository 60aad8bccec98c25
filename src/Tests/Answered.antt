-- ===== src/Tests/Answered.antt =====
-- A run of `attempt_dns` of packages/lifeline/lifeline.c for one server, with a reply of two records.
use safewrt.Common.{
  ◌≡◌, refl, if◌then◌else◌, none, some, List, [], ◌∷◌, Bytes, length, arith, ltb→lt, leb→le,
}
use safewrt.Common.Outcome.{ok}
use safewrt.Common.Text.{codes, same_text}
use safewrt.Common.Words.{be32}
use safewrt.Dns.{DnsRecord}
use safewrt.Dns.Receive.Replies.{reply_bytes}
use safewrt.Lifeline.Resolve.{Network, inaddr_none, attempt_server}
use safewrt.Lifeline.Answered.{attempt_server_replied}

abbrev question : Bytes
question = 1 ∷ b'x' ∷ 2 ∷ b'i' ∷ b'o' ∷ []

abbrev records : List DnsRecord
records =
    record { ttl = 60; address = 0x0102_0304 } ∷ record { ttl = 5; address = 0x0102_0305 } ∷ []

abbrev network : Network
network = record {
  inet_addr = λ name. if same_text name (codes "8.8.8.8") then 0x0808_0808 else inaddr_none;
  query = λ call server. record {
    socket = some 3;
    sendto = λ sent. some (length sent);
    reply =
        some (record { sender = 0x0808_0808; bytes = reply_bytes 0x1337 0x8180 question records });
  };
  file = λ path. none;
  sscanf = λ line. none;
}

attempt_server_replied_example :
    attempt_server network 0 (codes "8.8.8.8") (codes "x.io")
    ≡ ok ((codes "x.io", 0x0102_0304) ∷ (codes "x.io", 0x0102_0305) ∷ [])
unfolding same_text be32
attempt_server_replied_example =
    attempt_server_replied network 0 3 (codes "8.8.8.8") (codes "x.io") 0x8180 question records refl
      (leb→le _ _ refl) refl refl refl (ltb→lt _ _ refl)
      (
        ltb→lt _ _ refl,
        (ltb→lt _ _ refl, (ltb→lt _ _ refl, (ltb→lt _ _ refl, (ltb→lt _ _ refl, tt)))),
      )
      ((ltb→lt _ _ refl, ltb→lt _ _ refl), ((ltb→lt _ _ refl, ltb→lt _ _ refl), tt)) (omega arith)
      (omega arith) (leb→le _ _ refl) (refl, (refl, tt))
