-- ===== src/Safeloader/Tables/Printed.antt =====
-- What printing lines one after the other leaves in a block: each line, a zero behind the last,
-- and behind that what stood there before.
use safewrt.Common.{
  ℕ, suc, ◌+◌, ◌-◌, ◌%◌, ◌^◌, ◌≤◌, ◌<◌, ◌≡◌, refl, ap, ◌∙◌, List, [], ◌∷◌, ◌++◌, Bytes, total,
  joined, length, take, drop, length-append, length-take, length-drop, take-length,
  take-append-drop, drop-drop, arith, ltb, lt→ltb, le→ltb_false, ◌==◌, false,
}
use safewrt.Common.Outcome.{ok, stop, exits}
use safewrt.Common.Memory.{write, write_middle}
use safewrt.Safeloader.Pieces.{snprintf, print_line}
use mathlib.Core.List.{append_assoc, append-nil}
use mathlib.Core.Path.{subst}

-- The area `pad` after the lines were printed into it from its start on.
unfoldable pub area : Bytes → List Bytes → Bytes
area pad [] = pad
area pad (l ∷ ls) = l ++ area (0 ∷ drop (suc (length l)) pad) ls

length-area :
    (ls : List Bytes) (pad : Bytes) → total ls < length pad → length (area pad ls) ≡ length pad
unfolding area
length-area [] pad h = refl
length-area (l ∷ ls) pad h = omega (
  arith,
  length-append l (area (0 ∷ drop (suc (length l)) pad) ls),
  length-area ls (0 ∷ drop (suc (length l)) pad) (omega (arith, length-drop (suc (length l)) pad)),
  length-drop (suc (length l)) pad,
)

-- The area holds the lines, a zero, and the rest of what stood there.
pub area-joined :
    (l : Bytes) (ls : List Bytes) (pad : Bytes)
    → area pad (l ∷ ls) ≡ joined (l ∷ ls) ++ (0 ∷ drop (suc (total (l ∷ ls))) pad)
unfolding area
area-joined l [] pad = simp append-nil (ap (λ k. l ++ (0 ∷ drop (suc k) pad)) (omega arith))
area-joined l (m ∷ ls) pad = rw (area-joined m ls (0 ∷ drop (suc (length l)) pad)) (
    rw (drop-drop (suc (length l)) (total (m ∷ ls)) (suc (total (l ∷ (m ∷ ls)))) pad (omega arith))
      (simp append_assoc))

not_zero : (n : ℕ) → 0 < n → (n == 0) ≡ false
not_zero n h = ground arith

-- What `end - at` and `len - 1` are where nothing wraps.
room : (at end n : ℕ) → at + n ≡ end → end < 2 ^ 64 → (end + 2 ^ 64 - at) % 2 ^ 64 ≡ n
room at end n h hw = omega arith

room_less : (n : ℕ) → 0 < n → n < 2 ^ 64 → (n + 2 ^ 64 - 1) % 2 ^ 64 ≡ n - 1
room_less n h hw = omega arith

snprintf_lem :
    (buf text : Bytes) (at len : ℕ)
    → 0 < len
    → snprintf buf at len text ≡ write buf at (take (len - 1) text ++ (0 ∷ []))
unfolding snprintf
snprintf_lem buf text at len h = rw (not_zero len h)

-- A text with its final zero, written over the start of `pad`.
write_terminated :
    (pre pad post text : Bytes) (at : ℕ)
    → at ≡ length pre
    → length text < length pad
    → write (pre ++ (pad ++ post)) at (text ++ (0 ∷ []))
      ≡ ok ((pre ++ text) ++ ((0 ∷ drop (suc (length text)) pad) ++ post))
write_terminated pre pad post text at ha h =
    subst
      (λ (whole : Bytes).
        write (pre ++ (whole ++ post)) at (text ++ (0 ∷ []))
        ≡ ok ((pre ++ text) ++ ((0 ∷ tail) ++ post)))
      (take-append-drop (suc (length text)) pad)
      (rw append_assoc (
        write_middle pre (take (suc (length text)) pad) (tail ++ post) (text ++ (0 ∷ [])) at ha
          (omega (arith, length-append text (0 ∷ []), length-take (suc (length text)) pad))
        ∙ ap ok (simp append_assoc)))
  where
    tail : Bytes
    tail = drop (suc (length text)) pad

-- The test `w > len - 1`.
overflow_test : (n k : ℕ) → 0 < n → n < 2 ^ 64 → ltb ((n + 2 ^ 64 - 1) % 2 ^ 64) k ≡ ltb (n - 1) k
overflow_test n k h hw = rw (room_less n h hw)

module _ (pre pad post line : Bytes) (at end : ℕ) (ha : at ≡ length pre)
    (he : at + length pad ≡ end) (hw : end < 2 ^ 64) where
  -- One line, printed at the end of `pre` into a block with `pad` in front of `end`.
  pub print_line_fits :
      length line < length pad
      → print_line (pre ++ (pad ++ post)) at end line
        ≡ ok ((pre ++ line) ++ ((0 ∷ drop (suc (length line)) pad) ++ post), at + length line)
  unfolding print_line
  print_line_fits hl =
      rw
        (
          room at end (length pad) he hw,
          overflow_test (length pad) (length line) (omega arith) (omega arith),
          snprintf_lem (pre ++ (pad ++ post)) line at (length pad) (omega arith),
          take-length (length pad - 1) line (omega arith),
          write_terminated pre pad post line at ha hl,
        )
        (rw (le→ltb_false (length pad - 1) (length line) (omega arith)))

  -- A line that does not fit ends the program.
  pub print_line_overflow :
      0 < length pad
      → length pad ≤ length line
      → print_line (pre ++ (pad ++ post)) at end line ≡ stop (exits 1)
  unfolding print_line
  print_line_overflow hp hl = rw (
    room at end (length pad) he hw,
    overflow_test (length pad) (length line) (omega arith) (omega arith),
    snprintf_lem (pre ++ (pad ++ post)) line at (length pad) (omega arith),
    write_terminated pre pad post (take (length pad - 1) line) at ha
        (omega (arith, length-take (length pad - 1) line)),
    lt→ltb (length pad - 1) (length line) (omega arith),
  )
