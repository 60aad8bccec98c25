-- ===== src/Lifeline/Headers.antt =====
-- The headers of a reply in packages/lifeline/lifeline.c: the loop of `attempt_remote` goes past them
-- and no further.
use safewrt.Common.{
  ℕ, zero, suc, ◌+◌, ◌<◌, ◌≡◌, refl, ap, ◌∙◌, true, false, not, Option, none, some, List, [], ◌∷◌,
  ◌++◌, All, all, Bytes, length, joined, arith, ltb, if◌then◌else◌, Bool-cases, inl, inr, &&-split,
}
use safewrt.Common.Outcome.{Outcome, ok}
use safewrt.Lifeline.{Connection, recv, is_newline, skip_headers}
use mathlib.Core.List.{append_assoc}

-- What is behind the headers in a text: behind the fourth of four newlines in a row, where so many came
-- directly before it.
unfoldable pub behind_headers : ℕ → Bytes → Option Bytes
behind_headers count [] = none
behind_headers count (c ∷ cs) =
    if is_newline c
    then (if ltb 3 (count + 1) then some cs else behind_headers (count + 1) cs)
    else behind_headers 0 cs

-- No segment is empty.
abbrev pub Whole : Connection → Type 0
Whole [] = Unit {0}
Whole (segment ∷ rest) = (0 < length segment) × Whole rest

abbrev pub text_left : Option Connection → Option Bytes
text_left none = none
text_left (some left) = some (joined left)

head_same : {b c : ℕ} {bs cs : Bytes} → b ∷ bs ≡ c ∷ cs → b ≡ c
head_same h = cc

-- One byte of a connection.
recv_one :
    (remote : Connection) (c : ℕ) (cs : Bytes)
    → Whole remote
    → joined remote ≡ c ∷ cs
    → (left : Connection) × (recv 1 remote ≡ (c ∷ [], left)) × (joined left ≡ cs) × Whole left
unfolding recv
recv_one [] c cs hw h = cc
recv_one ([] ∷ rest) c cs hw h = absurd (omega (arith, hw.0))
recv_one ((b ∷ []) ∷ rest) c cs hw h = (rest, ap (λ k. (k ∷ [], rest)) (head_same h), cc, hw.1)
recv_one ((b ∷ (d ∷ bs)) ∷ rest) c cs hw h =
    ((d ∷ bs) ∷ rest, ap (λ k. (k ∷ [], (d ∷ bs) ∷ rest)) (head_same h), cc, (omega arith, hw.1))

nothing_left : (remote : Connection) → Whole remote → joined remote ≡ [] → recv 1 remote ≡ ([], [])
unfolding recv
nothing_left [] hw h = refl
nothing_left ([] ∷ rest) hw h = absurd (omega (arith, hw.0))
nothing_left ((b ∷ bs) ∷ rest) hw h = cc

-- One round of the loop, on a byte.
round :
    (fuel count c : ℕ) (remote left : Connection)
    → recv 1 remote ≡ (c ∷ [], left)
    → skip_headers (suc fuel) count remote ≡ (
        if is_newline c
        then (if ltb 3 (count + 1) then ok (some left) else skip_headers fuel (count + 1) left)
        else skip_headers fuel 0 left)
unfolding skip_headers
round fuel count c remote left one =
    ap
      (λ (r : Bytes × Connection). elim r.0 as (λ z. Outcome (Option Connection)) [
        | [] ↦ ok none
        | b ∷ _ ↦
            if is_newline b
            then (if ltb 3 (count + 1) then ok (some r.1) else skip_headers fuel (count + 1) r.1)
            else skip_headers fuel 0 r.1
      ])
      one

-- On a connection of segments that are not empty, with more rounds than bytes, the loop over the
-- headers ends and leaves what the text of the segments has behind four newlines in a row, or
-- none where there are none, however the text is cut into segments.
pub skip_headers-behind_headers :
    (text : Bytes) (fuel count : ℕ) (remote : Connection)
    → Whole remote
    → joined remote ≡ text
    → length text < fuel
    → (out : Option Connection) × (skip_headers fuel count remote ≡ ok out)
      × (text_left out ≡ behind_headers count text)
unfolding skip_headers behind_headers
skip_headers-behind_headers text zero count remote hw h hf = absurd (omega arith)
skip_headers-behind_headers [] (suc fuel) count remote hw h hf =
    (none, rw (nothing_left remote hw h, skip_headers) refl, refl)
skip_headers-behind_headers (c ∷ cs) (suc fuel) count remote hw h hf =
    let (left, one, same, whole) = recv_one remote c cs hw h in
    elim (Bool-cases (is_newline c)) [
      | inr other ↦
          let (out, skipped, text) =
            skip_headers-behind_headers cs fuel 0 left whole same (omega arith) in
          (out, round fuel count c remote left one ∙ rw other skipped, rw other text)
      | inl newline ↦ elim (Bool-cases (ltb 3 (count + 1))) [
        | inl last ↦ (
          some left,
          round fuel count c remote left one ∙ rw (newline, last) refl,
          rw (newline, last) (ap some same),
        )
        | inr more ↦
            let (out, skipped, text) =
              skip_headers-behind_headers cs fuel (count + 1) left whole same (omega arith) in
            (
              out,
              round fuel count c remote left one ∙ rw (newline, more) skipped,
              rw (newline, more) text,
            )
      ]
    ]

-- The lines of a header, each with its line end.
abbrev pub header_lines : List Bytes → Bytes
header_lines [] = []
header_lines (l ∷ ls) = l ++ (0x0d ∷ (0x0a ∷ header_lines ls))

-- A line that is not empty and has no newline in it.
abbrev pub IsLine : Bytes → Type 0
IsLine l = (0 < length l) × (all (λ c. not (is_newline c)) l ≡ true)

behind_line :
    (l rest : Bytes) (count : ℕ)
    → IsLine l
    → behind_headers count (l ++ rest) ≡ behind_headers 0 rest
unfolding behind_headers
behind_line [] rest count h = absurd (omega (arith, h.0))
behind_line (c ∷ []) rest count h = rw (other, behind_headers) refl
  where
    other : is_newline c ≡ false
    other = ground (arith, h.1)
behind_line (c ∷ (d ∷ ds)) rest count h =
    rw (other, behind_headers) (behind_line (d ∷ ds) rest 0 (omega arith, later))
  where
    other : is_newline c ≡ false
    other = ground (arith, h.1)

    later : all (λ k. not (is_newline k)) (d ∷ ds) ≡ true
    later = (&&-split (not (is_newline c)) _ h.1).1

-- The empty line behind a header ends it.
behind_header_lines :
    (ls : List Bytes) (payload : Bytes)
    → All IsLine ls
    → behind_headers 2 (header_lines ls ++ (0x0d ∷ (0x0a ∷ payload))) ≡ some payload
unfolding behind_headers is_newline
behind_header_lines [] payload h = refl
behind_header_lines (l ∷ ls) payload h =
    ap (behind_headers 2)
      (append_assoc l (0x0d ∷ (0x0a ∷ header_lines ls)) (0x0d ∷ (0x0a ∷ payload)))
    ∙ behind_line l (0x0d ∷ (0x0a ∷ (header_lines ls ++ (0x0d ∷ (0x0a ∷ payload))))) 2 h.0
    ∙ behind_header_lines ls payload h.1

pub behind_reply :
    (ls : List Bytes) (payload : Bytes)
    → All IsLine ls
    → behind_headers 0 (0x0d ∷ (0x0a ∷ (header_lines ls ++ (0x0d ∷ (0x0a ∷ payload)))))
      ≡ some payload
unfolding behind_headers is_newline
behind_reply ls payload h = behind_header_lines ls payload h
