-- ===== src/Lifeline/Forward.antt =====
-- `splice` and `forward_loop` of packages/lifeline/lifeline.c: what arrives at one of two connections is
-- written to the other.
use safewrt.Common.{
  ℕ, ◌≤◌, ◌≡◌, refl, ap, ◌∙◌, sym, Bool, true, false, not, Option, none, some, List, [], ◌∷◌, ◌++◌,
  All, Bytes, length, take, drop, joined, length-take, take-length, take-append-drop, arith, ◌==◌,
  if◌then◌else◌, Bool-cases, inl, inr,
}
use safewrt.Common.Outcome.{Outcome, ok, stop, exits}
use safewrt.Lifeline.{Connection, recv}
use mathlib.Core.List.{append_assoc, append-nil}

-- What `read` gives of 1024 bytes, as far as `write` accepts it, and what is left of the connection. The
-- source's answer is less than 1 where nothing was written.
unfoldable pub splice : Connection → ℕ → Bytes × Connection
splice fd_in accepts = let (buf, left) = recv 1024 fd_in in (take accepts buf, left)

-- An answer of `poll`: an error, or for each of the connections whether something is there, and how
-- many bytes the other one accepts then.
pub data Poll : Type 0 where
  fails : Poll
  ready : Option ℕ → Option ℕ → Poll

-- What is still to be read of each connection, and what was written to each.
pub record Forwarding : Type 0 where
  pub unread1 : Connection
  pub unread2 : Connection
  pub written1 : Bytes
  pub written2 : Bytes

-- `if (fds[0].revents) …`: whether the loop goes on.
unfoldable pub first_to_second : Option ℕ → Forwarding → Bool × Forwarding
first_to_second none s = (true, s)
first_to_second (some accepts) s =
    let (sent, left) = splice s.unread1 accepts in
    (not (length sent == 0), record s { unread1 = left; written2 = s.written2 ++ sent })

-- `if (fds[1].revents) …`
unfoldable pub second_to_first : Option ℕ → Forwarding → Bool × Forwarding
second_to_first none s = (true, s)
second_to_first (some accepts) s =
    let (sent, left) = splice s.unread2 accepts in
    (not (length sent == 0), record s { unread2 = left; written1 = s.written1 ++ sent })

-- The loop, for the answers of `poll` so far: whether it still runs. `exit(-1)` has the status 255.
unfoldable pub forward_loop : List Poll → Forwarding → Outcome (Bool × Forwarding)
forward_loop [] s = ok (true, s)
forward_loop (fails ∷ polls) s = stop (exits 255)
forward_loop (ready first second ∷ polls) s =
    let (on, s1) = first_to_second first s in
    let (on', s2) = second_to_first second s1 in
    let rest = forward_loop polls s2 in
    if not on then ok (false, s1) else if not on' then ok (false, s2) else rest

-- No connection accepts less than it is given.
abbrev pub TakesAll : Option ℕ → Type 0
TakesAll none = Unit {0}
TakesAll (some accepts) = 1024 ≤ accepts

abbrev pub AcceptsAll : Poll → Type 0
AcceptsAll fails = Unit {0}
AcceptsAll (ready first second) = TakesAll first × TakesAll second

-- What is found and what is left are the connection.
recv_keeps : (count : ℕ) (s : Connection) → (recv count s).0 ++ joined (recv count s).1 ≡ joined s
unfolding recv
recv_keeps count [] = refl
recv_keeps count (segment ∷ rest) = whole (drop count segment) refl
  where
    whole :
        (d : Bytes)
        → drop count segment ≡ d
        → (recv count (segment ∷ rest)).0 ++ joined (recv count (segment ∷ rest)).1
          ≡ segment ++ joined rest
    whole [] e =
        rw (e, recv)
          (ap (λ (z : Bytes). z ++ joined rest)
            (sym (append-nil (take count segment))
              ∙ ap (λ (z : Bytes). take count segment ++ z) (sym e)
              ∙ take-append-drop count segment))
    whole (b ∷ bs) e =
        rw (e, recv)
          (sym (append_assoc (take count segment) (b ∷ bs) (joined rest))
            ∙ ap (λ (z : Bytes). z ++ joined rest)
                (ap (λ (z : Bytes). take count segment ++ z) (sym e)
                  ∙ take-append-drop count segment))

pub length-recv : (count : ℕ) (s : Connection) → length (recv count s).0 ≤ count
unfolding recv
length-recv count [] = omega arith
length-recv count (segment ∷ rest) = omega (arith, length-take count segment)

pub splice_keeps :
    (s : Connection) (accepts : ℕ)
    → 1024 ≤ accepts
    → (splice s accepts).0 ++ joined (splice s accepts).1 ≡ joined s
unfolding splice
splice_keeps s accepts h =
    ap (λ (z : Bytes). z ++ joined (recv 1024 s).1)
      (take-length accepts (recv 1024 s).0 (omega (arith, length-recv 1024 s)))
    ∙ recv_keeps 1024 s

-- Both streams: what was written to one connection, and what is still to be read of the other.
abbrev pub stream1 : Forwarding → Bytes
stream1 s = s.written2 ++ joined s.unread1

abbrev pub stream2 : Forwarding → Bytes
stream2 s = s.written1 ++ joined s.unread2

first_keeps :
    (accepts : Option ℕ) (s : Forwarding)
    → TakesAll accepts
    → (stream1 (first_to_second accepts s).1 ≡ stream1 s)
      × (stream2 (first_to_second accepts s).1 ≡ stream2 s)
unfolding first_to_second
first_keeps none s h = (refl, refl)
first_keeps (some accepts) s h = (
  append_assoc s.written2 (splice s.unread1 accepts).0 (joined (splice s.unread1 accepts).1)
      ∙ ap (λ (z : Bytes). s.written2 ++ z) (splice_keeps s.unread1 accepts h),
  refl,
)

second_keeps :
    (accepts : Option ℕ) (s : Forwarding)
    → TakesAll accepts
    → (stream1 (second_to_first accepts s).1 ≡ stream1 s)
      × (stream2 (second_to_first accepts s).1 ≡ stream2 s)
unfolding second_to_first
second_keeps none s h = (refl, refl)
second_keeps (some accepts) s h = (
  refl,
  append_assoc s.written1 (splice s.unread2 accepts).0 (joined (splice s.unread2 accepts).1)
      ∙ ap (λ (z : Bytes). s.written1 ++ z) (splice_keeps s.unread2 accepts h),
)

-- Both streams are the same.
abbrev pub SameStreams : Forwarding → Forwarding → Type 0
SameStreams t s = (stream1 t ≡ stream1 s) × (stream2 t ≡ stream2 s)

ended :
    {a b : Bool} {s t : Forwarding}
    → ◌≡◌ {A = Outcome (Bool × Forwarding)} (ok (a, s)) (ok (b, t))
    → SameStreams t s
ended {a} {b} {s} {t} h = (ap stream1 same, ap stream2 same)
  where
    same : t ≡ s
    same = cc

then_same : (s t u : Forwarding) → SameStreams u t → SameStreams t s → SameStreams u s
then_same s t u h k = (h.0 ∙ k.0, h.1 ∙ k.1)

-- While each connection accepts all that it is given, what was written to one connection and what
-- is still to be read of the other are together the same bytes in the same order at any time of
-- the forwarding, in both directions.
pub forward_loop-SameStreams :
    (polls : List Poll) (s t : Forwarding) (on : Bool)
    → All AcceptsAll polls
    → forward_loop polls s ≡ ok (on, t)
    → SameStreams t s
unfolding forward_loop
forward_loop-SameStreams [] s t on ha h = ended h
forward_loop-SameStreams (fails ∷ polls) s t on ha h = cc
forward_loop-SameStreams (ready first second ∷ polls) s t on ha h =
    let s1 : Forwarding = (first_to_second first s).1 in
    let s2 : Forwarding = (second_to_first second s1).1 in
    let here = first_keeps first s ha.0.0 in
    let both = then_same s s1 s2 (second_keeps second s1 ha.0.1) here in
    elim (Bool-cases (first_to_second first s).0) [
      | inr stops ↦ then_same s s1 t (ended (rw stops at h)) here
      | inl runs ↦ elim (Bool-cases (second_to_first second s1).0) [
        | inr stops ↦ then_same s s2 t (ended (rw (runs, stops) at h)) both
        | inl runs' ↦
            then_same s s2 t (forward_loop-SameStreams polls s2 t on ha.1 (rw (runs, runs') at h))
              both
      ]
    ]
