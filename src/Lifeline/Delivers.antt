-- ===== src/Lifeline/Delivers.antt =====
-- The end of `forward_loop` of packages/lifeline/lifeline.c where one connection is closed.
use safewrt.Common.{
  ℕ, zero, suc, ◌≤◌, ◌<◌, ◌≡◌, refl, ap, ◌∙◌, false, not, none, some, List, [], ◌∷◌, ◌++◌, Bytes,
  length, drop, joined, replicate, length-append, length-take, take-length, arith, ◌==◌,
  if◌then◌else◌, Bool-cases, inl, inr,
}
use safewrt.Common.Outcome.{ok}
use safewrt.Lifeline.{Connection, recv}
use safewrt.Lifeline.Headers.{Whole}
use safewrt.Lifeline.Forward.{
  splice, Poll, ready, Forwarding, first_to_second, second_to_first, forward_loop, splice_keeps,
  length-recv,
}
use mathlib.Core.List.{append_assoc}

-- A call on an open connection finds something.
recv_moves :
    (count : ℕ) (segment : Bytes) (rest : Connection)
    → 0 < count
    → Whole (segment ∷ rest)
    → (0 < length (recv count (segment ∷ rest)).0) × Whole (recv count (segment ∷ rest)).1
unfolding recv
recv_moves count segment rest hc hw =
    (omega (arith, length-take count segment, hw.0), behind (drop count segment) refl)
  where
    behind : (d : Bytes) → drop count segment ≡ d → Whole (recv count (segment ∷ rest)).1
    behind [] e = rw (e, recv) hw.1
    behind (b ∷ bs) e = rw (e, recv) (omega arith, hw.1)

splice_moves :
    (accepts : ℕ) (segment : Bytes) (rest : Connection)
    → 1024 ≤ accepts
    → Whole (segment ∷ rest)
    → (0 < length (splice (segment ∷ rest) accepts).0) × Whole (splice (segment ∷ rest) accepts).1
unfolding splice
splice_moves accepts segment rest ha hw =
    let (some_found, whole) = recv_moves 1024 segment rest (omega arith) hw in
    (
      omega (
        arith,
        length-take accepts (recv 1024 (segment ∷ rest)).0,
        length-recv 1024 (segment ∷ rest),
        some_found,
      ),
      whole,
    )

splice_closed : (accepts : ℕ) → splice [] accepts ≡ ([], [])
unfolding splice recv
splice_closed accepts = ap (λ (z : Bytes). (z, [])) (take-length accepts [] (omega arith))

-- A round in which the first connection is ready.
round :
    (accepts : ℕ) (polls : List Poll) (s : Forwarding)
    → forward_loop (ready (some accepts) none ∷ polls) s ≡ (
        if not (length (splice s.unread1 accepts).0 == 0)
        then forward_loop polls (record s {
          unread1 = (splice s.unread1 accepts).1;
          written2 = s.written2 ++ (splice s.unread1 accepts).0;
        })
        else ok (
          false,
          record s {
            unread1 = (splice s.unread1 accepts).1;
            written2 = s.written2 ++ (splice s.unread1 accepts).0;
          },
        ))
unfolding forward_loop first_to_second second_to_first
round accepts polls s = elim (Bool-cases (length (splice s.unread1 accepts).0 == 0)) [
  | inl e ↦ rw e refl
  | inr e ↦ rw e refl
]

-- With the first connection ready in each round, no segment of it empty, the second one silent
-- but accepting 1024 bytes or more, and more rounds than bytes: the forwarding returns when the
-- first connection is closed, with all of its bytes written to the second one.
pub forward_loop-delivers :
    (n accepts : ℕ) (unread1 unread2 : Connection) (written1 written2 : Bytes)
    → Whole unread1
    → 1024 ≤ accepts
    → length (joined unread1) < n
    → forward_loop
        (replicate n (ready (some accepts) none))
        (record { unread1 = unread1; unread2 = unread2; written1 = written1; written2 = written2 })
      ≡ ok (
        false,
        record {
          unread1 = [];
          unread2 = unread2;
          written1 = written1;
          written2 = written2 ++ joined unread1;
        },
      )
forward_loop-delivers zero accepts unread1 unread2 written1 written2 hw ha h = absurd (omega arith)
forward_loop-delivers (suc n) accepts [] unread2 written1 written2 hw ha h =
    round accepts (replicate n (ready (some accepts) none)) _ ∙ rw (splice_closed accepts) refl
forward_loop-delivers (suc n) accepts (segment ∷ rest) unread2 written1 written2 hw ha h =
    let (some_found, whole) = splice_moves accepts segment rest ha hw in
    let keeps = splice_keeps (segment ∷ rest) accepts ha in
    let goes : (length (splice (segment ∷ rest) accepts).0 == 0) ≡ false = ground arith in
    round accepts (replicate n (ready (some accepts) none)) _
    ∙ rw goes (
        forward_loop-delivers n accepts (splice (segment ∷ rest) accepts).1 unread2 written1
          (written2 ++ (splice (segment ∷ rest) accepts).0) whole ha
          (omega (
            arith,
            ap length keeps,
            length-append (splice (segment ∷ rest) accepts).0
                (joined (splice (segment ∷ rest) accepts).1),
            some_found,
          ))
        ∙ ap
            (λ (z : Bytes). ok (
              false,
              record { unread1 = []; unread2 = unread2; written1 = written1; written2 = z },
            ))
            (append_assoc written2 (splice (segment ∷ rest) accepts).0
                (joined (splice (segment ∷ rest) accepts).1)
              ∙ ap (λ (z : Bytes). written2 ++ z) keeps))
