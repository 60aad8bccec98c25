-- ===== src/Common/Hex.antt =====
-- Hexadecimal numbers in text: what `%x` and `%05x` print of an `unsigned int`.
use Prim.Native.Nat.{ℕ, zero, suc, ◌+◌, ◌-◌, ◌*◌, ◌/◌, ◌%◌, ◌^◌, ◌≤◌, ◌<◌}
use mathlib.Core.Path.{◌≡◌, refl, ap, ◌∙◌}
use mathlib.Core.Bool.{◌&&◌}
use mathlib.Core.List.{[], ◌∷◌, ◌++◌}
use mathlib.Core.Option.{Option, none, some}
use mathlib.Core.Logic.{inl, inr}
use native.Mathlib.Omega.{arith}
use safewrt.Common.Tests.{ltb, leb, if◌then◌else◌, Bool-cases, ltb→lt}
use safewrt.Common.Lists.{Bytes, length, replicate, length-append, length-replicate}

unfoldable pub hex_digit : ℕ → ℕ
hex_digit d = if ltb d 10 then 48 + d else 87 + d

-- The digits of `n` in front of `acc`, for `n` below 16 ^ (rounds + 1).
unfoldable pub hex_onto : ℕ → ℕ → Bytes → Bytes
unfolding hex_digit
hex_onto zero n acc = hex_digit (n % 16) ∷ acc
hex_onto (suc rounds) n acc =
    let more = hex_onto rounds (n / 16) (hex_digit (n % 16) ∷ acc) in
    if ltb n 16 then hex_digit (n % 16) ∷ acc else more

-- `%05x` of an unsigned int: its digits, eight at most, padded with zeros to five.
unfoldable pub hex5 : ℕ → Bytes
unfolding hex_onto
hex5 n = let digits = hex_onto 7 (n % 2 ^ 32) [] in replicate (5 - length digits) b'0' ++ digits

-- The value of a digit of either case.
unfoldable pub hex_value : ℕ → Option ℕ
hex_value c =
    if leb b'0' c && leb c b'9'
    then some (c - 48)
    else if leb b'a' c && leb c b'f'
    then some (c - 87)
    else if leb b'A' c && leb c b'F'
    then some (c - 55)
    else none

-- The value of a run of digits that follows `acc`.
unfoldable pub hex_run : ℕ → Bytes → Option ℕ
hex_run acc [] = some acc
hex_run acc (c ∷ cs) = elim (hex_value c) [ none ↦ none | some d ↦ hex_run (acc * 16 + d) cs ]

pub hex_value-hex_digit : (d : ℕ) → d < 16 → hex_value (hex_digit d) ≡ some d
unfolding hex_value hex_digit
hex_value-hex_digit d h = ground arith

hex_run-digit :
    (acc d : ℕ) (cs : Bytes) → d < 16 → hex_run acc (hex_digit d ∷ cs) ≡ hex_run (acc * 16 + d) cs
unfolding hex_run
hex_run-digit acc d cs h = rw (hex_run, hex_value-hex_digit d h)

-- Reading the digits of a number on from zero gives the number.
hex_run-hex_onto :
    (rounds n : ℕ) (rest : Bytes)
    → n < 16 ^ suc rounds
    → hex_run 0 (hex_onto rounds n rest) ≡ hex_run n rest
unfolding hex_onto
hex_run-hex_onto zero n rest h =
    hex_run-digit 0 (n % 16) rest (omega arith) ∙ ap (λ k. hex_run k rest) (omega arith)
hex_run-hex_onto (suc rounds) n rest h = elim (Bool-cases (ltb n 16)) [
  | inl small ↦ rw small (
      hex_run-digit 0 (n % 16) rest (omega arith)
      ∙ ap (λ k. hex_run k rest) (omega (arith, ltb→lt n 16 small)))
  | inr large ↦ rw large (
      hex_run-hex_onto rounds (n / 16) _ (omega arith)
      ∙ hex_run-digit (n / 16) (n % 16) rest (omega arith)
      ∙ ap (λ k. hex_run k rest) (omega arith))
]

hex_run-zeros : (k : ℕ) (rest : Bytes) → hex_run 0 (replicate k b'0' ++ rest) ≡ hex_run 0 rest
unfolding hex_run hex_value
hex_run-zeros zero rest = refl
hex_run-zeros (suc k) rest = hex_run-zeros k rest

-- What `%05x` prints reads back as the number.
pub hex_run-hex5 : (n : ℕ) → n < 2 ^ 32 → hex_run 0 (hex5 n) ≡ some n
unfolding hex5 hex_run
hex_run-hex5 n h =
    hex_run-zeros _ (hex_onto 7 (n % 2 ^ 32) [])
    ∙ hex_run-hex_onto 7 (n % 2 ^ 32) [] (omega arith)
    ∙ ap some (omega arith)

length-hex_onto :
    (rounds n : ℕ) (rest : Bytes)
    → (length rest + 1 ≤ length (hex_onto rounds n rest))
      × (length (hex_onto rounds n rest) ≤ length rest + 1 + rounds)
unfolding hex_onto
length-hex_onto zero n rest = omega arith
length-hex_onto (suc rounds) n rest =
    ground (arith, length-hex_onto rounds (n / 16) (hex_digit (n % 16) ∷ rest))

-- Five to eight characters are printed.
pub length-hex5 : (n : ℕ) → (5 ≤ length (hex5 n)) × (length (hex5 n) ≤ 8)
unfolding hex5
length-hex5 n =
    let digits = hex_onto 7 (n % 2 ^ 32) [] in
    omega (
      arith,
      length-append (replicate (5 - length digits) b'0') digits,
      length-replicate {A = ℕ} (5 - length digits) b'0',
      length-hex_onto 7 (n % 2 ^ 32) [],
    )
