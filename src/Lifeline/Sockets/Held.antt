-- ===== src/Lifeline/Sockets/Held.antt =====
-- Lemmas on the descriptors that a call of `attempt_remote` in packages/lifeline/lifeline.c leaves open.
use safewrt.Common.{
  ℕ, ◌+◌, ◌≡◌, refl, ap, ◌∙◌, sym, Bool, true, false, ◌||◌, Option, none, some, List, [], ◌∷◌, ◌++◌,
  Bytes, ◌==◌, if◌then◌else◌, Bool-cases, Option-cases, inl, inr, arith, ==_iff,
}
use safewrt.Common.Outcome.{Outcome, ok}
use safewrt.Lifeline.{unconnected, gives_up, no_local, forwards}
use safewrt.Lifeline.Sockets.{
  Machine, Visit, State, close, open_socket, local_connect, connect_local,
}
use mathlib.Core.Path.{subst}
use mathlib.Core.List.{append_assoc, append-nil}

unfoldable pub holds : List ℕ → ℕ → Bool
holds [] fd = false
holds (d ∷ ds) fd = fd == d || holds ds fd

-- `socket` gives no descriptor that is open.
abbrev pub GivesFresh : Machine → Type 0
GivesFresh m = (k fd : ℕ) (held : List ℕ) → m.socket k held ≡ some fd → holds held fd ≡ false

abbrev pub opened : Option ℕ → List ℕ
opened none = []
opened (some fd) = fd ∷ []

-- What a visit leaves open. A reply that is not the one that is asked for, or none in time, closes the
-- socket; every other way of ending leaves all of its sockets open.
abbrev pub left_open : Visit → List ℕ
left_open v = elim (v.ending) [
  | unconnected ↦ if v.timely then opened v.remote_socket else []
  | gives_up code ↦ []
  | no_local ↦ opened v.local_socket ++ opened v.remote_socket
  | forwards left ↦ opened v.local_socket ++ opened v.remote_socket
]

abbrev pub leaked : List Visit → List ℕ
leaked [] = []
leaked (v ∷ vs) = left_open v ++ leaked vs

-- From `s` to `t` there were some visits, and the descriptors that are open now are those that the
-- visits left open and those that were open.
abbrev pub Accounts : State → State → Type 0
Accounts s t =
    (vs : List Visit) × (t.visits ≡ vs ++ s.visits)
    × (t.held ≡ leaked vs ++ s.held)
    × ((fd : ℕ) → holds s.held fd ≡ true → holds (leaked vs) fd ≡ false)

pub holds_nil : (fd : ℕ) → holds [] fd ≡ false
unfolding holds
holds_nil fd = refl

pub holds_one : (r fd : ℕ) → (fd == r) ≡ false → holds (r ∷ []) fd ≡ false
unfolding holds
holds_one r fd h = rw h refl

pub holds-append : (xs ys : List ℕ) (fd : ℕ) → holds (xs ++ ys) fd ≡ (holds xs fd || holds ys fd)
unfolding holds
holds-append [] ys fd = refl
holds-append (x ∷ xs) ys fd = elim (Bool-cases (fd == x)) [
  | inl same ↦ rw same refl
  | inr other ↦ rw other (holds-append xs ys fd)
]

leaked-append : (vs ws : List Visit) → leaked (vs ++ ws) ≡ leaked vs ++ leaked ws
leaked-append [] ws = refl
leaked-append (v ∷ vs) ws =
    ap (λ (z : List ℕ). left_open v ++ z) (leaked-append vs ws)
    ∙ sym (append_assoc (left_open v) (leaked vs) (leaked ws))

pub close-append :
    (xs ys : List ℕ) (fd : ℕ) → holds xs fd ≡ false → close fd (xs ++ (fd ∷ ys)) ≡ xs ++ ys
unfolding close holds
close-append [] ys fd h = ground arith
close-append (x ∷ xs) ys fd h = elim (Bool-cases (fd == x)) [
  | inl same ↦ ground arith
  | inr other ↦ rw other (ap (λ (z : List ℕ). x ∷ z) (close-append xs ys fd (rw other at h)))
]

pub Accounts-then : (s t u : State) → Accounts s t → Accounts t u → Accounts s u
Accounts-then s t u (vs, hv, hh, hf) (ws, kv, kh, kf) = (
  ws ++ vs,
  kv ∙ ap (λ (z : List Visit). ws ++ z) hv ∙ sym (append_assoc ws vs s.visits),
  kh
      ∙ ap (λ (z : List ℕ). leaked ws ++ z) hh
      ∙ sym (append_assoc (leaked ws) (leaked vs) s.held)
      ∙ ap (λ (z : List ℕ). z ++ s.held) (sym (leaked-append ws vs)),
  λ fd held. fresh fd held,
)
  where
    fresh : (fd : ℕ) → holds s.held fd ≡ true → holds (leaked (ws ++ vs)) fd ≡ false
    fresh fd held =
        ap (λ z. holds z fd) (leaked-append ws vs)
        ∙ holds-append (leaked ws) (leaked vs) fd
        ∙ rw (kf fd still, hf fd held) refl
      where
        still : holds t.held fd ≡ true
        still =
            ap (λ z. holds z fd) hh
            ∙ holds-append (leaked vs) s.held fd
            ∙ rw (hf fd held, held) refl

-- From `s` to `t` there was one visit of this address, and its descriptors stand in front of those
-- that were open.
abbrev pub Visited : Bytes → ℕ → State → State → Type 0
Visited name address s t =
    (v : Visit) × (v.name ≡ name)
    × (v.address ≡ address)
    × (t.visits ≡ v ∷ s.visits)
    × (t.calls ≡ s.calls)
    × (t.held ≡ left_open v ++ s.held)
    × ((fd : ℕ) → holds s.held fd ≡ true → holds (left_open v) fd ≡ false)

pub Visited-Accounts :
    (name : Bytes) (address : ℕ) (s t : State) → Visited name address s t → Accounts s t
Visited-Accounts name address s t (v, hn, ha, hv, hc, hh, hf) = (
  v ∷ [],
  hv,
  hh ∙ ap (λ (z : List ℕ). z ++ s.held) (sym (append-nil (left_open v))),
  λ fd held. ap (λ z. holds z fd) (append-nil (left_open v)) ∙ hf fd held,
)

pub other_than :
    (held : List ℕ) (fd new : ℕ)
    → holds held fd ≡ true
    → holds held new ≡ false
    → (fd == new) ≡ false
other_than held fd new h k = elim (Bool-cases (fd == new)) [
  | inr other ↦ other
  | inl same ↦ same ∙ (sym h ∙ ap (holds held) ((==_iff fd new).0 same) ∙ k)
]

-- What `socket` leaves, with the answer that it gave.
abbrev pub taken : State → ℕ → State
taken s fd = record s { sockets = s.sockets + 1; held = fd ∷ s.held }

pub open_socket-none :
    (m : Machine) (s : State)
    → m.socket s.sockets s.held ≡ none
    → open_socket m s ≡ (none, record s { sockets = s.sockets + 1 })
unfolding open_socket
open_socket-none m s h = rw (h, open_socket) refl

pub open_socket-some :
    (m : Machine) (s : State) (fd : ℕ)
    → m.socket s.sockets s.held ≡ some fd
    → open_socket m s ≡ (some fd, taken s fd)
unfolding open_socket
open_socket-some m s fd h = rw (h, open_socket) refl

pub local_held :
    (m : Machine) (inet_pton connects : Bool) (s : State)
    → ((local_connect m inet_pton connects s).1.held ≡ opened (open_socket m s).0 ++ s.held)
      × ((local_connect m inet_pton connects s).1.visits ≡ s.visits)
      × ((local_connect m inet_pton connects s).1.calls ≡ s.calls)
unfolding local_connect connect_local
local_held m inet_pton connects s = elim (Option-cases (m.socket s.sockets s.held)) [
  | inl closed ↦ rw (open_socket-none m s closed, local_connect) (refl, refl, refl)
  | inr (fd, gives) ↦ rw (open_socket-some m s fd gives, local_connect) (refl, refl, refl)
]

-- A value that a step returned.
pub returned :
    (P : State → Type 0) (u t : State) (a b : Bool)
    → ◌≡◌ {A = Outcome (Bool × State)} (ok (a, u)) (ok (b, t))
    → P u
    → P t
returned P u t a b h done = subst P same done
  where
    same : u ≡ t
    same = cc
