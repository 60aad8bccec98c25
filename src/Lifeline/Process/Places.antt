-- ===== src/Lifeline/Process/Places.antt =====
-- Which addresses the steps of packages/lifeline/lifeline.c visit, for one call of `attempt_dns`.
use safewrt.Common.{
  ℕ, ◌+◌, ◌≡◌, refl, ap, ◌∙◌, sym, Bool, true, Option, none, some, List, [], ◌∷◌, ◌++◌, Bytes, ◌==◌,
  Bool-cases, inl, inr,
}
use safewrt.Common.Outcome.{Outcome, ok, stop, ◌>>=◌, >>=-eq-ok}
use safewrt.Dns.{DnsRecord}
use safewrt.Dns.Request.{dns_init}
use safewrt.Lifeline.Resolve.{
  Network, inaddr_none, look_up, addresses_of, attempt_server, attempt_servers,
}
use safewrt.Lifeline.Sockets.{Machine, Visit, State, close_socket, visit_remote}
use safewrt.Lifeline.Sockets.Held.{GivesFresh, taken, open_socket-some, returned}
use safewrt.Lifeline.Sockets.Branches.{visit_remote-Visited}
use safewrt.Lifeline.Process.Leaks.{and_then_returns}
use safewrt.Lifeline.Process.{
  Step, and_then, skip, break_off, with_socket, dns_close, visit_records, visit_found,
  visit_unknown, visit_server, visit_servers,
}
use mathlib.Core.List.{append_assoc, append-nil}

-- The addresses of the visits, the first one first.
abbrev pub places : List Visit → List (Bytes × ℕ)
places [] = []
places (v ∷ vs) = places vs ++ ((v.name, v.address) ∷ [])

-- From `s` to `t` these addresses were visited.
abbrev pub Went : List (Bytes × ℕ) → State → State → Type 0
Went l s t = places t.visits ≡ places s.visits ++ l

pub Went-then :
    (a b : List (Bytes × ℕ)) (s t u : State) → Went a s t → Went b t u → Went (a ++ b) s u
Went-then a b s t u h k =
    k ∙ ap (λ (z : List (Bytes × ℕ)). z ++ b) h ∙ append_assoc (places s.visits) a b

Went-nowhere : (s t : State) → t.visits ≡ s.visits → Went [] s t
Went-nowhere s t h = ap places h ∙ sym (append-nil (places s.visits))

-- A step that visits what a list says, and leaves the number of the call.
abbrev pub Visits : Step → (ℕ → Outcome (List (Bytes × ℕ))) → Type 0
Visits step run =
    (s t : State)
    → step s ≡ ok (true, t)
    → (l : List (Bytes × ℕ)) × (run s.calls ≡ ok l) × (t.calls ≡ s.calls) × Went l s t

-- A step that also counts the calls.
abbrev pub Follows : Step → (ℕ → Outcome (List (Bytes × ℕ) × ℕ)) → Type 0
Follows step run =
    (s t : State)
    → step s ≡ ok (true, t)
    → (l : List (Bytes × ℕ)) × (run s.calls ≡ ok (l, t.calls)) × Went l s t

Visits-skip : Visits skip (λ call. ok [])
unfolding skip
Visits-skip s t h = ([], refl, ap (λ z. z.calls) same, Went-nowhere s t (ap (λ z. z.visits) same))
  where
    same : t ≡ s
    same = cc

pub Follows-skip : Follows skip (λ call. ok ([], call))
Follows-skip s t h =
    let (l, run, calls, went) = Visits-skip s t h in
    ([], ap (λ z. ok ([], z)) (sym calls), went ∙ ap (λ z. places s.visits ++ z) (nil l run))
  where
    nil : (l : List (Bytes × ℕ)) → ◌≡◌ {A = Outcome (List (Bytes × ℕ))} (ok []) (ok l) → l ≡ []
    nil l e = cc

Visits-and_then :
    (first second : Step) (run1 run2 : ℕ → Outcome (List (Bytes × ℕ)))
    → Visits first run1
    → Visits second run2
    → Visits
        (and_then first second)
        (λ call. run1 call >>= λ here. run2 call >>= λ more. ok (here ++ more))
Visits-and_then first second run1 run2 h k s t e =
    let (u, one, two) = and_then_returns first second s t e in
    let (a, ran1, calls1, went1) = h s u one in
    let (b, ran2, calls2, went2) = k u t two in
    (
      a ++ b,
      rw (ran1, ap run2 (sym calls1) ∙ ran2) refl,
      calls2 ∙ calls1,
      Went-then a b s u t went1 went2,
    )

pub Follows-and_then :
    (first second : Step) (run1 run2 : ℕ → Outcome (List (Bytes × ℕ) × ℕ))
    → Follows first run1
    → Follows second run2
    → Follows (and_then first second) (λ call.
      run1 call >>= λ (here, next). run2 next >>= λ (more, last). ok (here ++ more, last))
Follows-and_then first second run1 run2 h k s t e =
    let (u, one, two) = and_then_returns first second s t e in
    let (a, ran1, went1) = h s u one in
    let (b, ran2, went2) = k u t two in
    (a ++ b, rw (ran1, ran2) refl, Went-then a b s u t went1 went2)

-- The attempts of one call, with the number of the next one.
abbrev pub counted : ℕ → Outcome (List (Bytes × ℕ)) → Outcome (List (Bytes × ℕ) × ℕ)
counted call attempts = attempts >>= λ here. ok (here, call + 1)

pub counted-ok :
    (call : ℕ) (attempts : Outcome (List (Bytes × ℕ))) (l : List (Bytes × ℕ)) (next : ℕ)
    → counted call attempts ≡ ok (l, next)
    → (next ≡ call + 1) × (attempts ≡ ok l)
counted-ok call (ok here) l next h = (cc, cc)
counted-ok call (stop why) l next h = cc

pub same_attempts : {a b : List (Bytes × ℕ)} → ok a ≡ ok b → a ≡ b
same_attempts e = cc

pub first_of :
    (a b : List (Bytes × ℕ)) (m n : ℕ)
    → ◌≡◌ {A = Outcome (List (Bytes × ℕ) × ℕ)} (ok (a, m)) (ok (b, n))
    → ◌≡◌ {A = Outcome (List (Bytes × ℕ))} (ok a) (ok b)
first_of a b m n h = ap ok same
  where
    same : a ≡ b
    same = cc

-- The descriptor of the query does not matter.
pub any_socket :
    (network : Network) (call fd : ℕ) (dns_ip server : Bytes)
    → look_up (with_socket (some fd) network) call dns_ip server
      ≡ look_up (with_socket (some 0) network) call dns_ip server
unfolding look_up with_socket dns_init
any_socket network call fd dns_ip server = refl

module _ (m : Machine) (fresh : GivesFresh m)
    (answers : (k : ℕ) (held : List ℕ) → (fd : ℕ) × (m.socket k held ≡ some fd)) where
  -- The network with a socket for each query.
  abbrev pub network : Network
  network = with_socket (some 0) m.network

  pub Visits-visit_remote :
      (name : Bytes) (address : ℕ)
      → Visits (visit_remote m name address) (λ call. ok ((name, address) ∷ []))
  Visits-visit_remote name address s t h =
      let (v, hn, ha, visits, calls, held, left) =
        visit_remote-Visited m fresh name address s t true h in
      (
        (name, address) ∷ [],
        refl,
        calls,
        ap places visits
            ∙ ap (λ z. places s.visits ++ ((z, v.address) ∷ [])) hn
            ∙ ap (λ z. places s.visits ++ ((name, z) ∷ [])) ha,
      )

  pub Visits-visit_records :
      (server : Bytes) (rs : List DnsRecord)
      → Visits (visit_records m server rs) (λ call. addresses_of server rs)
  unfolding visit_records addresses_of break_off
  Visits-visit_records server [] s t h = cc
  Visits-visit_records server (r ∷ rs) s t h = elim (Bool-cases (r.ttl == 0)) [
    | inl last ↦
        let (l, ran, calls, went) = Visits-skip s t (rw last at h) in (l, rw last ran, calls, went)
    | inr more ↦
        let (l, ran, calls, went) =
          Visits-and_then (visit_remote m server r.address) (visit_records m server rs) _ _
            (Visits-visit_remote server r.address) (Visits-visit_records server rs) s t
            (rw more at h) in
        (l, rw more ran, calls, went)
  ]

  Visits-found :
      (server : Bytes) (fd : ℕ) (s t : State) (found : Option (List DnsRecord))
      → (elim found as (λ z. Outcome (Bool × State)) [
        | none ↦ dns_close fd s
        | some records ↦ and_then (visit_records m server records) (dns_close fd) s
      ])
        ≡ ok (true, t)
      → (l : List (Bytes × ℕ)) × ((elim found as (λ z. Outcome (List (Bytes × ℕ))) [
        | none ↦ ok []
        | some records ↦ addresses_of server records
      ])
          ≡ ok l)
        × (t.calls ≡ s.calls)
        × Went l s t
  unfolding dns_close close_socket
  Visits-found server fd s t none h =
      returned
        (λ z.
          (l : List (Bytes × ℕ)) × (◌≡◌ {A = Outcome (List (Bytes × ℕ))} (ok []) (ok l))
          × (z.calls ≡ s.calls)
          × Went l s z)
        (close_socket fd s) t true true h ([], refl, refl, sym (append-nil (places s.visits)))
  Visits-found server fd s t (some records) h =
      let (u, one, two) = and_then_returns (visit_records m server records) (dns_close fd) s t h in
      returned
        (λ z.
          (l : List (Bytes × ℕ)) × (addresses_of server records ≡ ok l)
          × (z.calls ≡ s.calls)
          × Went l s z)
        (close_socket fd u) t true true two (Visits-visit_records server records s u one)

  Visits-visit_found :
      (dns_ip server : Bytes) (fd : ℕ)
      → Visits (visit_found m dns_ip server fd) (λ call.
        look_up network call dns_ip server >>= λ found. elim found [
          | none ↦ ok []
          | some records ↦ addresses_of server records
        ])
  unfolding visit_found
  Visits-visit_found dns_ip server fd s t h =
      let (found, looked, rest) =
        >>=-eq-ok (look_up (with_socket (some fd) m.network) s.calls dns_ip server) _ h in
      let (l, ran, calls, went) = Visits-found server fd s t found rest in
      (l, rw (sym (any_socket m.network s.calls fd dns_ip server) ∙ looked) ran, calls, went)

  pub Visits-visit_server :
      (dns_ip server : Bytes)
      → Visits (visit_server m dns_ip server) (λ call. attempt_server network call dns_ip server)
  unfolding visit_server visit_unknown attempt_server with_socket
  Visits-visit_server dns_ip server s t h =
      elim (Bool-cases (m.network.inet_addr server == inaddr_none)) [
        | inr known ↦
            let (l, ran, calls, went) =
              Visits-visit_remote server (m.network.inet_addr server) s t (rw known at h) in
            (l, rw known ran, calls, went)
        | inl unknown ↦
            let (fd, gives) = answers s.sockets s.held in
            let (l, ran, calls, went) =
              Visits-visit_found dns_ip server fd (taken s fd) t
                (rw (unknown, open_socket-some m s fd gives) at h) in
            (l, rw unknown ran, calls, went)
      ]

  pub Visits-visit_servers :
      (dns_ip : Bytes) (servers : List Bytes)
      → Visits
          (visit_servers m dns_ip servers)
          (λ call. attempt_servers network call dns_ip servers)
  unfolding visit_servers attempt_servers
  Visits-visit_servers dns_ip [] = Visits-skip
  Visits-visit_servers dns_ip (server ∷ servers) =
      Visits-and_then (visit_server m dns_ip server) (visit_servers m dns_ip servers) _ _
        (Visits-visit_server dns_ip server) (Visits-visit_servers dns_ip servers)
