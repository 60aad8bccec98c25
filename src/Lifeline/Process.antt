-- ===== src/Lifeline/Process.antt =====
-- The whole process of packages/lifeline/lifeline.c with its sockets: `attempt_dns`,
-- `parse_resolvconf` and `main`. A step answers whether it returns; where it does not, the process is
-- in the forwarding of Lifeline/Forward and nothing behind it runs.
pub mod Leaks
pub mod Places
pub mod Order
use safewrt.Common.{
  ℕ, zero, suc, ◌+◌, Bool, true, false, Option, none, some, List, [], ◌∷◌, Bytes, length, ◌==◌,
  if◌then◌else◌,
}
use safewrt.Common.Outcome.{Outcome, ok, stop, faults, ◌>>=◌}
use safewrt.Common.Text.{c_string}
use safewrt.Dns.{DnsRecord}
use safewrt.Lifeline.Resolve.{
  Network, lifeline_servers, dns_resolvers, inaddr_none, look_up, fgets, is_path,
}
use safewrt.Lifeline.Sockets.{Machine, State, open_socket, close_socket, visit_remote}

abbrev pub Step : Type 0
Step = State → Outcome (Bool × State)

-- One step and then the other, where the first one returns.
unfoldable pub and_then : Step → Step → Step
and_then first second s =
    first s >>= λ (on, t). let rest = second t in if on then rest else ok (false, t)

unfoldable pub skip : Step
skip s = ok (true, s)

unfoldable pub break_off : Step
break_off s = stop faults

-- The network whose query is sent on the descriptor that `socket` gave.
unfoldable pub with_socket : Option ℕ → Network → Network
with_socket answer network = record network {
  query = λ call server. record (network.query call server) { socket = answer };
}

-- `dns_close`
unfoldable pub dns_close : ℕ → Step
dns_close socket s = ok (true, close_socket socket s)

-- `for (r = dns.records; r->ttl != 0; r++)`
unfoldable pub visit_records : Machine → Bytes → List DnsRecord → Step
visit_records m server [] = break_off
visit_records m server (r ∷ rs) =
    if r.ttl == 0
    then skip
    else and_then (visit_remote m server r.address) (visit_records m server rs)

-- What follows `dns_init` where the socket is there.
unfoldable pub visit_found : Machine → Bytes → Bytes → ℕ → Step
visit_found m dns_ip server socket s =
    look_up (with_socket (some socket) m.network) s.calls dns_ip server >>= λ found. elim found [
      | none ↦ dns_close socket s
      | some records ↦ and_then (visit_records m server records) (dns_close socket) s
    ]

-- What follows `dns_init`, for the answer of `socket`.
unfoldable pub visit_unknown : Machine → Bytes → Bytes → Option ℕ → Step
visit_unknown m dns_ip server none s = ok (true, s)
visit_unknown m dns_ip server (some socket) s = visit_found m dns_ip server socket s

unfoldable pub visit_server : Machine → Bytes → Bytes → Step
visit_server m dns_ip server s =
    if m.network.inet_addr server == inaddr_none
    then (let (answer, t) = open_socket m s in visit_unknown m dns_ip server answer t)
    else visit_remote m server (m.network.inet_addr server) s

unfoldable pub visit_servers : Machine → Bytes → List Bytes → Step
visit_servers m dns_ip [] = skip
visit_servers m dns_ip (server ∷ servers) =
    and_then (visit_server m dns_ip server) (visit_servers m dns_ip servers)

-- The end of a call of `attempt_dns`, of which the answers of the network take the number.
unfoldable pub count_call : Step
count_call s = ok (true, record s { calls = s.calls + 1 })

unfoldable pub attempt_dns : Machine → Bytes → Step
attempt_dns m dns_ip = and_then (visit_servers m dns_ip lifeline_servers) count_call

-- `if (sscanf(…) == 1)`, with what follows the line.
unfoldable pub visit_nameserver : Machine → Option Bytes → Step → Step
visit_nameserver m none rest = rest
visit_nameserver m (some ip) rest = and_then (attempt_dns m ip) rest

-- The loop over the lines. Each line takes a character at least.
unfoldable pub parse_lines : Machine → ℕ → Bytes → Step
parse_lines m zero text = break_off
parse_lines m (suc fuel) [] = skip
parse_lines m (suc fuel) (c ∷ cs) =
    let (line, behind) = fgets 1023 (c ∷ cs) in
    visit_nameserver m (m.network.sscanf (c_string line)) (parse_lines m fuel behind)

-- What follows `fopen`.
unfoldable pub parse_file : Machine → Option Bytes → Step
parse_file m none = skip
parse_file m (some text) = parse_lines m (suc (length text)) text

unfoldable pub parse_resolvconf : Machine → Bytes → Step
parse_resolvconf m filename = parse_file m (m.network.file filename)

-- The loop of `main`
unfoldable pub attempt_resolvers : Machine → List Bytes → Step
attempt_resolvers m [] = skip
attempt_resolvers m (re ∷ rest) =
    and_then (if is_path re then parse_resolvconf m re else attempt_dns m re)
      (attempt_resolvers m rest)

unfoldable pub main : Machine → Step
main m = attempt_resolvers m dns_resolvers
