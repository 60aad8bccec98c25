-- ===== src/Lifeline/Process/Leaks.antt =====
-- Which descriptors the process of packages/lifeline/lifeline.c leaves open.
use safewrt.Common.{
  ℕ, zero, suc, ◌+◌, ◌≡◌, refl, ap, ◌∙◌, Bool, true, false, Option, none, some, List, [], ◌∷◌,
  Bytes, length, ◌==◌, if◌then◌else◌, Bool-cases, Option-cases, inl, inr, ==_iff,
}
use safewrt.Common.Outcome.{Outcome, ok, >>=-eq-ok}
use safewrt.Common.Text.{c_string}
use safewrt.Dns.{DnsRecord}
use safewrt.Lifeline.Resolve.{lifeline_servers, dns_resolvers, inaddr_none, look_up, fgets, is_path}
use safewrt.Lifeline.Sockets.{Machine, State, close, close_socket, visit_remote}
use safewrt.Lifeline.Sockets.Held.{
  returned, holds, GivesFresh, Accounts, Accounts-then, taken, open_socket-none, open_socket-some,
  close-append, leaked,
}
use safewrt.Lifeline.Sockets.Held.{Visited-Accounts}
use safewrt.Lifeline.Sockets.Branches.{visit_remote-Visited}
use safewrt.Lifeline.Process.{
  Step, and_then, skip, break_off, dns_close, visit_records, visit_found, visit_server,
  visit_servers, visit_unknown, visit_nameserver, parse_file, count_call, attempt_dns, parse_lines,
  parse_resolvconf, attempt_resolvers, main,
}

-- A step that returns leaves open what its visits left open and what was open.
abbrev Keeps : Step → Type 0
Keeps step = (s t : State) → step s ≡ ok (true, t) → Accounts s t

unchanged : (s t : State) → t.visits ≡ s.visits → t.held ≡ s.held → Accounts s t
unfolding holds
unchanged s t hv hh = ([], hv, hh, λ fd held. refl)

Keeps-skip : Keeps skip
unfolding skip
Keeps-skip s t h = unchanged s t (ap (λ z. z.visits) same) (ap (λ z. z.held) same)
  where
    same : t ≡ s
    same = cc

Keeps-break_off : Keeps break_off
unfolding break_off
Keeps-break_off s t h = cc

-- Two steps of which both returned.
pub and_then_returns :
    (first second : Step) (s t : State)
    → and_then first second s ≡ ok (true, t)
    → (u : State) × (first s ≡ ok (true, u)) × (second u ≡ ok (true, t))
unfolding and_then
and_then_returns first second s t e =
    let ((on, u), one, rest) = >>=-eq-ok (first s) _ e in go on u one rest
  where
    go :
        (on : Bool) (u : State)
        → first s ≡ ok (on, u)
        → (if on then second u else ok (false, u)) ≡ ok (true, t)
        → (u : State) × (first s ≡ ok (true, u)) × (second u ≡ ok (true, t))
    go true u one rest = (u, one, rest)
    go false u one rest = cc

Keeps-and_then : (first second : Step) → Keeps first → Keeps second → Keeps (and_then first second)
Keeps-and_then first second h k s t e =
    let (u, one, two) = and_then_returns first second s t e in
    Accounts-then s u t (h s u one) (k u t two)

first_held : (s : State) (fd : ℕ) → holds (taken s fd).held fd ≡ true
unfolding holds
first_held s fd = rw ((==_iff fd fd).1 refl) refl

also_held : (s : State) (fd d : ℕ) → holds s.held d ≡ true → holds (taken s fd).held d ≡ true
unfolding holds
also_held s fd d h = elim (Bool-cases (d == fd)) [
  | inl same ↦ rw same refl
  | inr other ↦ rw (other, h) refl
]

-- A step that runs between `socket` and `close` of what that gave.
Keeps-between :
    (step : Step) (fd : ℕ) (s t : State)
    → Keeps step
    → holds s.held fd ≡ false
    → and_then step (dns_close fd) (taken s fd) ≡ ok (true, t)
    → Accounts s t
unfolding dns_close close_socket
Keeps-between step fd s t h hr e =
    let (u, one, two) = and_then_returns step (dns_close fd) (taken s fd) t e in
    returned (Accounts s) (close_socket fd u) t true true two (closed u (h (taken s fd) u one))
  where
    closed : (u : State) → Accounts (taken s fd) u → Accounts s (close_socket fd u)
    closed u (vs, hv, hh, hf) = (
      vs,
      hv,
      ap (close fd) hh ∙ close-append (leaked vs) s.held fd (hf fd (first_held s fd)),
      λ d held. hf d (also_held s fd d held),
    )

module _ (m : Machine) (fresh : GivesFresh m) where
  Keeps-visit_remote : (name : Bytes) (address : ℕ) → Keeps (visit_remote m name address)
  Keeps-visit_remote name address s t h =
      Visited-Accounts name address s t (visit_remote-Visited m fresh name address s t true h)

  Keeps-visit_records : (server : Bytes) (rs : List DnsRecord) → Keeps (visit_records m server rs)
  unfolding visit_records
  Keeps-visit_records server [] = Keeps-break_off
  Keeps-visit_records server (r ∷ rs) = elim (Bool-cases (r.ttl == 0)) [
    | inl last ↦ rw last Keeps-skip
    | inr more ↦ rw more (
        Keeps-and_then (visit_remote m server r.address) (visit_records m server rs)
          (Keeps-visit_remote server r.address) (Keeps-visit_records server rs))
  ]

  visit_found-Accounts :
      (dns_ip server : Bytes) (fd : ℕ) (s t : State)
      → holds s.held fd ≡ false
      → visit_found m dns_ip server fd (taken s fd) ≡ ok (true, t)
      → Accounts s t
  unfolding visit_found and_then skip
  visit_found-Accounts dns_ip server fd s t hr h =
      let (found, looked, rest) = >>=-eq-ok (look_up _ _ dns_ip server) _ h in go found rest
    where
      go :
          (found : Option (List DnsRecord))
          → (elim found as (λ z. Outcome (Bool × State)) [
            | none ↦ dns_close fd (taken s fd)
            | some records ↦ and_then (visit_records m server records) (dns_close fd) (taken s fd)
          ])
            ≡ ok (true, t)
          → Accounts s t
      go none e = Keeps-between skip fd s t Keeps-skip hr e
      go (some records) e =
          Keeps-between (visit_records m server records) fd s t (Keeps-visit_records server records)
            hr e

  Keeps-visit_server : (dns_ip server : Bytes) → Keeps (visit_server m dns_ip server)
  unfolding visit_server visit_unknown
  Keeps-visit_server dns_ip server s t h =
      elim (Bool-cases (m.network.inet_addr server == inaddr_none)) [
        | inr known ↦ Keeps-visit_remote server (m.network.inet_addr server) s t (rw known at h)
        | inl unknown ↦ elim (Option-cases (m.socket s.sockets s.held)) [
          | inl closed ↦
              returned (Accounts s) (record s { sockets = s.sockets + 1 }) t true true
                (rw (unknown, open_socket-none m s closed) at h)
                (unchanged s (record s { sockets = s.sockets + 1 }) refl refl)
          | inr (fd, gives) ↦
              visit_found-Accounts dns_ip server fd s t (fresh s.sockets fd s.held gives)
                (rw (unknown, open_socket-some m s fd gives) at h)
        ]
      ]

  Keeps-visit_servers :
      (dns_ip : Bytes) (servers : List Bytes) → Keeps (visit_servers m dns_ip servers)
  unfolding visit_servers
  Keeps-visit_servers dns_ip [] = Keeps-skip
  Keeps-visit_servers dns_ip (server ∷ servers) =
      Keeps-and_then (visit_server m dns_ip server) (visit_servers m dns_ip servers)
        (Keeps-visit_server dns_ip server) (Keeps-visit_servers dns_ip servers)

  Keeps-count_call : Keeps count_call
  unfolding count_call
  Keeps-count_call s t h =
      returned (Accounts s) (record s { calls = s.calls + 1 }) t true true h
        (unchanged s (record s { calls = s.calls + 1 }) refl refl)

  Keeps-attempt_dns : (dns_ip : Bytes) → Keeps (attempt_dns m dns_ip)
  unfolding attempt_dns
  Keeps-attempt_dns dns_ip =
      Keeps-and_then (visit_servers m dns_ip lifeline_servers) count_call
        (Keeps-visit_servers dns_ip lifeline_servers) Keeps-count_call

  Keeps-visit_nameserver :
      (found : Option Bytes) (rest : Step) → Keeps rest → Keeps (visit_nameserver m found rest)
  unfolding visit_nameserver
  Keeps-visit_nameserver none rest h = h
  Keeps-visit_nameserver (some ip) rest h =
      Keeps-and_then (attempt_dns m ip) rest (Keeps-attempt_dns ip) h

  Keeps-parse_lines : (fuel : ℕ) (text : Bytes) → Keeps (parse_lines m fuel text)
  unfolding parse_lines
  Keeps-parse_lines zero text = Keeps-break_off
  Keeps-parse_lines (suc fuel) [] = Keeps-skip
  Keeps-parse_lines (suc fuel) (c ∷ cs) =
      let (line, behind) = fgets 1023 (c ∷ cs) in
      Keeps-visit_nameserver (m.network.sscanf (c_string line)) (parse_lines m fuel behind)
        (Keeps-parse_lines fuel behind)

  Keeps-parse_file : (found : Option Bytes) → Keeps (parse_file m found)
  unfolding parse_file
  Keeps-parse_file none = Keeps-skip
  Keeps-parse_file (some text) = Keeps-parse_lines (suc (length text)) text

  Keeps-parse_resolvconf : (filename : Bytes) → Keeps (parse_resolvconf m filename)
  unfolding parse_resolvconf
  Keeps-parse_resolvconf filename = Keeps-parse_file (m.network.file filename)

  Keeps-attempt_resolvers : (resolvers : List Bytes) → Keeps (attempt_resolvers m resolvers)
  unfolding attempt_resolvers
  Keeps-attempt_resolvers [] = Keeps-skip
  Keeps-attempt_resolvers (re ∷ rest) = elim (Bool-cases (is_path re)) [
    | inl path ↦ rw path (
        Keeps-and_then (parse_resolvconf m re) (attempt_resolvers m rest)
          (Keeps-parse_resolvconf re) (Keeps-attempt_resolvers rest))
    | inr ip ↦ rw ip (
        Keeps-and_then (attempt_dns m re) (attempt_resolvers m rest) (Keeps-attempt_dns re)
          (Keeps-attempt_resolvers rest))
  ]

  -- With a `socket` that gives no descriptor that is open: when `main` has gone through all
  -- resolvers, exactly those descriptors are open that were open before and those that its visits
  -- left open. A visit whose remote side did not answer in time, or sent another reply, left
  -- none; any other left all that `socket` gave it; and each socket of a query is closed.
  pub main-Accounts : (s t : State) → main m s ≡ ok (true, t) → Accounts s t
  unfolding main
  main-Accounts = Keeps-attempt_resolvers dns_resolvers
