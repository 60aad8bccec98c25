-- ===== src/Lifeline/Process/Order.antt =====
-- The order in which the process of packages/lifeline/lifeline.c visits addresses: that of
-- Lifeline/Resolve.
use safewrt.Common.{
  ℕ, zero, suc, ◌+◌, ◌≡◌, refl, ap, ◌∙◌, sym, true, Option, none, some, List, [], ◌∷◌, ◌++◌, Bytes,
  length, if◌then◌else◌, Bool-cases, Option-cases, inl, inr,
}
use safewrt.Common.Outcome.{Outcome, ok, ◌>>=◌, >>=-eq-ok}
use safewrt.Common.Text.{c_string}
use safewrt.Lifeline.Resolve.{
  Network, lifeline_servers, dns_resolvers, inaddr_none, look_up, addresses_of, attempt_server,
  attempt_servers, fgets, is_path,
}
use safewrt.Lifeline.Resolve
use safewrt.Lifeline.Sockets.{Machine, State}
use safewrt.Lifeline.Sockets.Held.{GivesFresh, returned}
use safewrt.Lifeline.Process.Leaks.{and_then_returns}
use safewrt.Lifeline.Process.{
  Step, break_off, with_socket, visit_servers, count_call, attempt_dns, visit_nameserver,
  parse_lines, parse_file, parse_resolvconf, attempt_resolvers, main,
}
use safewrt.Lifeline.Process.Places.{
  places, Went, Went-then, Follows, Follows-skip, Follows-and_then, counted, counted-ok, first_of,
  same_attempts, network, Visits-visit_servers,
}

module _ (m : Machine) (fresh : GivesFresh m)
    (answers : (k : ℕ) (held : List ℕ) → (fd : ℕ) × (m.socket k held ≡ some fd)) where
  abbrev pub net : Network
  net = network m fresh answers

  pub Follows-attempt_dns :
      (dns_ip : Bytes)
      → Follows (attempt_dns m dns_ip) (λ call. counted call (Resolve.attempt_dns net call dns_ip))
  unfolding attempt_dns Resolve.attempt_dns count_call
  Follows-attempt_dns dns_ip s t h =
      let (u, one, two) =
        and_then_returns (visit_servers m dns_ip lifeline_servers) count_call s t h in
      let (l, ran, calls, went) =
        Visits-visit_servers m fresh answers dns_ip lifeline_servers s u one in
      returned
        (λ z.
          (l : List (Bytes × ℕ)) × (counted s.calls (Resolve.attempt_dns net s.calls dns_ip)
            ≡ ok (l, z.calls))
          × Went l s z)
        (record u { calls = u.calls + 1 }) t true true two
        (l, rw ran (ap (λ z. ok (l, z + 1)) (sym calls)), went)

  pub Follows-parse_lines :
      (fuel : ℕ) (text : Bytes)
      → Follows (parse_lines m fuel text) (λ call. Resolve.parse_lines net fuel call text)
  unfolding parse_lines Resolve.parse_lines break_off visit_nameserver with_socket fgets
  Follows-parse_lines zero text s t h = cc
  Follows-parse_lines (suc fuel) [] s t h = Follows-skip s t h
  Follows-parse_lines (suc fuel) (c ∷ cs) s t h =
      let (line, behind) = fgets 1023 (c ∷ cs) in
      elim (Option-cases (m.network.sscanf (c_string line))) [
        | inl other ↦
            let (l, ran, went) = Follows-parse_lines fuel behind s t (rw other at h) in
            (l, rw (other, Resolve.parse_lines) ran, went)
        | inr (ip, found) ↦
            let (u, one, two) =
              and_then_returns (attempt_dns m ip) (parse_lines m fuel behind) s t (rw found at h) in
            let (a, ran1, went1) = Follows-attempt_dns ip s u one in
            let (b, ran2, went2) = Follows-parse_lines fuel behind u t two in
            let (calls, ran) =
              counted-ok s.calls (Resolve.attempt_dns net s.calls ip) a u.calls ran1 in
            (
              a ++ b,
              rw (found, ran, Resolve.parse_lines, sym calls, ran2) refl,
              Went-then a b s u t went1 went2,
            )
      ]

  Follows-parse_file :
      (found : Option Bytes) (filename : Bytes)
      → m.network.file filename ≡ found
      → Follows (parse_file m found) (λ call. Resolve.parse_resolvconf net call filename)
  unfolding parse_file Resolve.parse_resolvconf with_socket
  Follows-parse_file none filename e s t h =
      let (l, ran, went) = Follows-skip s t h in (l, rw (e, Resolve.parse_resolvconf) ran, went)
  Follows-parse_file (some text) filename e s t h =
      let (l, ran, went) = Follows-parse_lines (suc (length text)) text s t h in
      (l, rw (e, Resolve.parse_resolvconf) ran, went)

  pub Follows-parse_resolvconf :
      (filename : Bytes)
      → Follows (parse_resolvconf m filename) (λ call. Resolve.parse_resolvconf net call filename)
  unfolding parse_resolvconf
  Follows-parse_resolvconf filename = Follows-parse_file (m.network.file filename) filename refl

  -- All attempts with the number of the next call.
  unfoldable pub attempts_of : ℕ → List Bytes → Outcome (List (Bytes × ℕ) × ℕ)
  attempts_of call [] = ok ([], call)
  attempts_of call (re ∷ rest) =
      (if is_path re
        then Resolve.parse_resolvconf net call re
        else counted call (Resolve.attempt_dns net call re))
      >>= λ (here, next). attempts_of next rest >>= λ (more, last). ok (here ++ more, last)

  attempts_of-ok :
      (resolvers : List Bytes) (call : ℕ) (l : List (Bytes × ℕ)) (last : ℕ)
      → attempts_of call resolvers ≡ ok (l, last)
      → Resolve.attempt_resolvers net call resolvers ≡ ok l
  unfolding attempts_of Resolve.attempt_resolvers
  attempts_of-ok [] call l last h = cc
  attempts_of-ok (re ∷ rest) call l last h =
      let ((here, next), ran1, rest1) =
        >>=-eq-ok
          (if is_path re
            then Resolve.parse_resolvconf net call re
            else counted call (Resolve.attempt_dns net call re))
          _ h in
      let ((more, after), ran2, both) = >>=-eq-ok (attempts_of next rest) _ rest1 in
      rw (ran1, attempts_of-ok rest next more after ran2)
        (first_of (here ++ more) l after last both)

  pub attempts_of_last :
      (resolvers : List Bytes) (call : ℕ) (l : List (Bytes × ℕ))
      → Resolve.attempt_resolvers net call resolvers ≡ ok l
      → (last : ℕ) × (attempts_of call resolvers ≡ ok (l, last))
  unfolding attempts_of Resolve.attempt_resolvers
  attempts_of_last [] call l h = (call, ap (λ z. ok (z, call)) (same_attempts h))
  attempts_of_last (re ∷ rest) call l h =
      let ((here, next), ran1, behind) =
        >>=-eq-ok
          (if is_path re
            then Resolve.parse_resolvconf net call re
            else counted call (Resolve.attempt_dns net call re))
          _ h in
      let (more, ran2, whole) = >>=-eq-ok (Resolve.attempt_resolvers net next rest) _ behind in
      let (last, ran3) = attempts_of_last rest next more ran2 in
      (last, rw (ran1, ran3) (ap (λ z. ok (z, last)) (same_attempts whole)))

  -- One entry of `DNS_RESOLVERS`.
  abbrev pub resolver : Bytes → Step
  resolver re = if is_path re then parse_resolvconf m re else attempt_dns m re

  abbrev pub attempts_by : Bytes → ℕ → Outcome (List (Bytes × ℕ) × ℕ)
  attempts_by re call =
      if is_path re
      then Resolve.parse_resolvconf net call re
      else counted call (Resolve.attempt_dns net call re)

  pub Follows-resolver : (re : Bytes) → Follows (resolver re) (attempts_by re)
  Follows-resolver re = elim (Bool-cases (is_path re)) [
    | inl path ↦ rw path (Follows-parse_resolvconf re)
    | inr ip ↦ rw ip (Follows-attempt_dns re)
  ]

  Follows-attempt_resolvers :
      (resolvers : List Bytes)
      → Follows (attempt_resolvers m resolvers) (λ call. attempts_of call resolvers)
  unfolding attempt_resolvers attempts_of
  Follows-attempt_resolvers [] = Follows-skip
  Follows-attempt_resolvers (re ∷ rest) =
      Follows-and_then (resolver re) (attempt_resolvers m rest) (attempts_by re)
        (λ call. attempts_of call rest) (Follows-resolver re) (Follows-attempt_resolvers rest)

  -- With a `socket` that always gives a descriptor, none that is open: when the process with its
  -- sockets returns from `main`, it visited exactly the addresses that the model without sockets
  -- gives, in their order.
  pub main-places :
      (s t : State)
      → s.calls ≡ 0
      → main m s ≡ ok (true, t)
      → (attempts : List (Bytes × ℕ)) × (Resolve.main net ≡ ok attempts)
        × (places t.visits ≡ places s.visits ++ attempts)
  unfolding main Resolve.main
  main-places s t h0 h =
      let (l, ran, went) = Follows-attempt_resolvers dns_resolvers s t h in
      (
        l,
        attempts_of-ok dns_resolvers 0 l t.calls
            (ap (λ z. attempts_of z dns_resolvers) (sym h0) ∙ ran),
        went,
      )
