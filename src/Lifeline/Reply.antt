-- ===== src/Lifeline/Reply.antt =====
-- The whole reply that `attempt_remote` of packages/lifeline/lifeline.c goes past.
use safewrt.Common.{
  ℕ, suc, ◌≤◌, ◌≡◌, refl, ap, ◌∙◌, sym, true, not, Option, none, some, List, [], ◌∷◌, ◌++◌, All,
  Bytes, length, take, drop, total, joined, take-append, take-append-drop, drop-append,
  drop-append_left, length-take, length-joined, arith, ◌==◌, if◌then◌else◌,
}
use safewrt.Common.Outcome.{Outcome, ok, ◌>>=◌}
use safewrt.Common.Text.{same_text, same_text_refl}
use safewrt.Lifeline.{
  Connection, recv, build_helo, expect, skip_headers, Attempt, gives_up, forwards, attempt_remote,
}
use mathlib.Core.List.{append_assoc}
use safewrt.Lifeline.Headers.{
  behind_headers, Whole, text_left, skip_headers-behind_headers, header_lines, IsLine, behind_reply,
}

-- A call that finds enough in the first segment.
recv_enough :
    (count : ℕ) (segment : Bytes) (rest : Connection)
    → Whole rest
    → (left : Connection) × (recv count (segment ∷ rest) ≡ (take count segment, left))
      × (joined left ≡ drop count segment ++ joined rest)
      × Whole left
unfolding recv
recv_enough count segment rest hw = behind (drop count segment) refl
  where
    behind :
        (d : Bytes)
        → drop count segment ≡ d
        → (left : Connection) × (recv count (segment ∷ rest) ≡ (take count segment, left))
          × (joined left ≡ drop count segment ++ joined rest)
          × Whole left
    behind [] e = (rest, rw e refl, rw e refl, hw)
    behind (b ∷ bs) e = ((b ∷ bs) ∷ rest, rw e refl, rw e refl, (omega arith, hw))

module _ (hostname : Option Bytes) (connect_name segment : Bytes) (segments ls : List Bytes)
    (payload : Bytes) (hw : Whole (segment ∷ segments)) (hls : All IsLine ls)
    (h32 : length expect ≤ length segment)
    (h : joined (segment ∷ segments)
      ≡ expect ++ (0x0d ∷ (0x0a ∷ (header_lines ls ++ (0x0d ∷ (0x0a ∷ payload)))))) where
  -- A reply of the expected status line, header lines that are not empty and an empty line, each
  -- ended by CR LF, that arrives in segments which are not empty, the first one with the status
  -- line: with a local connection, `attempt_remote` sends the request and forwards exactly what
  -- comes behind the empty line.
  pub attempt_remote-forwards :
      (left : Connection) × (attempt_remote hostname (some (segment ∷ segments)) true connect_name
        ≡ ok (build_helo hostname connect_name, forwards left))
      × (joined left ≡ payload)
  unfolding attempt_remote
  attempt_remote-forwards =
      let (left, one, text, whole) = recv_enough (length expect) segment segments hw.1 in
      let behind : joined left ≡ 0x0d ∷ (0x0a ∷ (header_lines ls ++ (0x0d ∷ (0x0a ∷ payload)))) =
        text
        ∙ sym (drop-append_left (length expect) segment (joined segments) h32)
        ∙ ap (drop (length expect)) h
        ∙ drop-append (length expect) expect _ refl in
      let (out, skipped, found) =
        skip_headers-behind_headers (joined left) (suc (total left)) 0 left whole refl
          (omega (arith, length-joined left)) in
      let (rest, here, same) =
        left_over out (found ∙ ap (behind_headers 0) behind ∙ behind_reply ls payload hls) in
      (rest, ap outcome one ∙ rw (got, same_text_refl expect, skipped, here) refl, same)
    where
      reply : Bytes
      reply = 0x0d ∷ (0x0a ∷ (header_lines ls ++ (0x0d ∷ (0x0a ∷ payload))))

      outcome : Bytes × Connection → Outcome (Bytes × Attempt)
      outcome r =
          if not (length r.0 == length expect)
          then ok (build_helo hostname connect_name, gives_up 1)
          else if not (same_text expect r.0)
          then ok (build_helo hostname connect_name, gives_up 2)
          else skip_headers (suc (total r.1)) 0 r.1 >>= λ skipped. elim skipped [
            | none ↦ ok (build_helo hostname connect_name, gives_up 1)
            | some rest ↦ ok (build_helo hostname connect_name, forwards rest)
          ]

      got : take (length expect) segment ≡ expect
      got =
          sym (
            ap (take (length expect)) (
              ap (λ (z : Bytes). z ++ joined segments)
                (sym (take-append-drop (length expect) segment))
              ∙ append_assoc (take (length expect) segment) (drop (length expect) segment)
                  (joined segments))
            ∙ take-append (length expect) (take (length expect) segment)
                (drop (length expect) segment ++ joined segments)
                (omega (arith, length-take (length expect) segment)))
          ∙ ap (take (length expect)) h
          ∙ take-append (length expect) expect reply refl

      left_over :
          (out : Option Connection)
          → text_left out ≡ some payload
          → (rest : Connection) × (out ≡ some rest) × (joined rest ≡ payload)
      left_over none e = cc
      left_over (some rest) e = (rest, refl, cc)
