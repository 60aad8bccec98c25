-- ===== src/Lifeline/Resolve.antt =====
-- The choice of addresses in packages/lifeline/lifeline.c: `attempt_dns`, `parse_resolvconf` and
-- `main`. A call of `attempt_remote` stands as the name and the address that it is given; what it does
-- with them is in Lifeline.
use safewrt.Common.{
  ℕ, zero, suc, ◌+◌, ◌-◌, ◌^◌, Bool, false, not, Option, none, some, List, [], ◌∷◌, ◌++◌, Bytes,
  length, ◌==◌, if◌then◌else◌,
}
use safewrt.Common.Outcome.{Outcome, ok, stop, faults, ◌>>=◌}
use safewrt.Common.Text.{codes, c_string}
use safewrt.Dns.{DnsRecord}
use safewrt.Dns.Request.{dns_init, dns_request}
use safewrt.Dns.Receive.{Datagram, dns_receive}

-- packages/lifeline/config.h
abbrev pub lifeline_servers : List Bytes
lifeline_servers =
    codes "lifeline.hy5.berlin"
    ∷ codes "lifeline.captif.io"
    ∷ codes "lifeline.exys.org"
    ∷ codes "lifeline.superscale.io"
    ∷ []

abbrev pub dns_resolvers : List Bytes
dns_resolvers =
    codes "8.8.8.8"
    ∷ codes "8.8.4.4"
    ∷ codes "208.67.222.222"
    ∷ codes "208.67.220.220"
    ∷ codes "/etc/resolv.conf"
    ∷ []

-- The answers of `socket`, `sendto` and `recvfrom` to one query.
pub record Query : Type 0 where
  pub socket : Option ℕ
  pub sendto : Bytes → Option ℕ
  pub reply : Option Datagram

-- The machine and what it reaches: `inet_addr`, the queries of each call of `attempt_dns`, by the number
-- of the call and the server that is asked for, the files, and what
-- `sscanf(line, "nameserver %s", &buf)` has in `buf` where it answers 1. As `line` is `buf`, the objects
-- overlap, which C leaves undefined: nothing is known of this answer.
pub record Network : Type 0 where
  pub inet_addr : Bytes → ℕ
  pub query : ℕ → Bytes → Query
  pub file : Bytes → Option Bytes
  pub sscanf : Bytes → Option Bytes

abbrev pub inaddr_none : ℕ
inaddr_none = 2 ^ 32 - 1

-- The records of a server, or none where the query failed.
unfoldable pub look_up : Network → ℕ → Bytes → Bytes → Outcome (Option (List DnsRecord))
look_up network call dns_ip server =
    let q = network.query call server in
    let (failed, dns) = dns_init q.socket (network.inet_addr dns_ip) in
    if not (failed == 0) then ok none else (do
      (refused, asked) ← dns_request q.sendto dns server
      if not (refused == 0) then ok none else (do
        (unanswered, received) ← dns_receive asked q.reply
        ok (if not (unanswered == 0) then none else some received.records)))

-- `for (r = dns.records; r->ttl != 0; r++)`
unfoldable pub addresses_of : Bytes → List DnsRecord → Outcome (List (Bytes × ℕ))
addresses_of server [] = stop faults
addresses_of server (r ∷ rs) =
    let rest = addresses_of server rs in
    if r.ttl == 0 then ok [] else rest >>= λ more. ok ((server, r.address) ∷ more)

unfoldable pub attempt_server : Network → ℕ → Bytes → Bytes → Outcome (List (Bytes × ℕ))
attempt_server network call dns_ip server =
    if network.inet_addr server == inaddr_none
    then (look_up network call dns_ip server >>= λ found. elim found [
      | none ↦ ok []
      | some records ↦ addresses_of server records
    ])
    else ok ((server, network.inet_addr server) ∷ [])

unfoldable pub attempt_servers : Network → ℕ → Bytes → List Bytes → Outcome (List (Bytes × ℕ))
attempt_servers network call dns_ip [] = ok []
attempt_servers network call dns_ip (server ∷ servers) = do
  here ← attempt_server network call dns_ip server
  more ← attempt_servers network call dns_ip servers
  ok (here ++ more)

unfoldable pub attempt_dns : Network → ℕ → Bytes → Outcome (List (Bytes × ℕ))
attempt_dns network call dns_ip = attempt_servers network call dns_ip lifeline_servers

-- `fgets` of up to `room` characters: the line with its newline, and what is behind.
unfoldable pub fgets : ℕ → Bytes → Bytes × Bytes
fgets zero text = ([], text)
fgets (suc room) [] = ([], [])
fgets (suc room) (c ∷ cs) =
    let (line, behind) = fgets room cs in if c == 0x0a then (c ∷ [], cs) else (c ∷ line, behind)

-- The loop over the lines: the attempts and the number of the next call. Each line takes a character at
-- least.
unfoldable pub parse_lines : Network → ℕ → ℕ → Bytes → Outcome (List (Bytes × ℕ) × ℕ)
parse_lines network zero call text = stop faults
parse_lines network (suc fuel) call [] = ok ([], call)
parse_lines network (suc fuel) call (c ∷ cs) =
    let (line, behind) = fgets 1023 (c ∷ cs) in
    let on_other = parse_lines network fuel call behind in
    let on_next = parse_lines network fuel (call + 1) behind in
    elim (network.sscanf (c_string line)) [
      | none ↦ on_other
      | some ip ↦ attempt_dns network call ip >>= λ here.
          on_next >>= λ (more, next). ok (here ++ more, next)
    ]

unfoldable pub parse_resolvconf : Network → ℕ → Bytes → Outcome (List (Bytes × ℕ) × ℕ)
parse_resolvconf network call filename = elim (network.file filename) [
  | none ↦ ok ([], call)
  | some text ↦ parse_lines network (suc (length text)) call text
]

unfoldable pub is_path : Bytes → Bool
is_path [] = false
is_path (c ∷ _) = c == b'/'

-- The loop of `main`: all attempts in their order.
unfoldable pub attempt_resolvers : Network → ℕ → List Bytes → Outcome (List (Bytes × ℕ))
attempt_resolvers network call [] = ok []
attempt_resolvers network call (re ∷ rest) =
    (if is_path re
      then parse_resolvconf network call re
      else attempt_dns network call re >>= λ here. ok (here, call + 1))
    >>= λ (here, next). attempt_resolvers network next rest >>= λ more. ok (here ++ more)

unfoldable pub main : Network → Outcome (List (Bytes × ℕ))
main network = attempt_resolvers network 0 dns_resolvers
