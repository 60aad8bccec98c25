-- ===== src/Safeloader/Extract/Lines.antt =====
-- How `read_partition_table` of tools/tplink-safeloader/tplink-safeloader.c reads a line of the form
-- that the tool prints.
use safewrt.Common.{
  ℕ, ◌+◌, ◌*◌, ◌^◌, ◌≤◌, ◌<◌, ◌≡◌, refl, ◌∙◌, Bool, true, not, ◌&&◌, some, List, [], ◌∷◌, ◌++◌,
  Bytes, length, take, all, take-length, arith, ◌==◌, Option-cases, inl, inr, &&-split, lt→ltb,
}
use safewrt.Common.Outcome.{Outcome, ok, ◌>>=◌}
use safewrt.Common.Text.{codes, is_space, skip_space, c_string}
use safewrt.Common.Hex.{hex5, hex_value, hex_run, hex_run-hex5}
use safewrt.Safeloader.Layout.{FlashPartition}
use safewrt.Safeloader.Extract.{
  add_flash_partition, memchr, hex_front, skip_0x, saturate, strtoul_positive, strtoul_signed,
  has_zero, strtoul16, with_element, read_entry,
}
use mathlib.Core.List.{append_assoc}

-- A byte that ends neither an element, nor a line, nor a text.
abbrev pub is_plain : ℕ → Bool
is_plain c = not (c == 0) && not (c == 0x20) && not (c == 0x0a)

abbrev pub is_not : ℕ → ℕ → Bool
is_not c b = not (b == c)

pub all-append :
    (test : ℕ → Bool) (xs ys : Bytes)
    → all test xs ≡ true
    → all test ys ≡ true
    → all test (xs ++ ys) ≡ true
all-append test [] ys hx hy = hy
all-append test (x ∷ xs) ys hx hy =
    let (here, rest) = &&-split (test x) (all test xs) hx in rw here (all-append test xs ys rest hy)

pub plain-not_space : (xs : Bytes) → all is_plain xs ≡ true → all (is_not 0x20) xs ≡ true
plain-not_space [] h = refl
plain-not_space (x ∷ xs) h = ground (arith, plain-not_space xs)

pub plain-not_newline : (xs : Bytes) → all is_plain xs ≡ true → all (is_not 0x0a) xs ≡ true
plain-not_newline [] h = refl
plain-not_newline (x ∷ xs) h = ground (arith, plain-not_newline xs)

c_string-plain : (xs : Bytes) → all is_plain xs ≡ true → c_string xs ≡ xs
unfolding c_string
c_string-plain [] h = refl
c_string-plain (x ∷ xs) h = ground (arith, c_string-plain xs)

pub memchr_lem :
    (c : ℕ) (xs rest : Bytes)
    → all (is_not c) xs ≡ true
    → memchr c (xs ++ (c ∷ rest)) ≡ some (xs, c ∷ rest)
unfolding memchr
memchr_lem c [] rest h = ground arith
memchr_lem c (x ∷ xs) rest h = ground (arith, memchr_lem c xs rest)

with_element_lem {ℓ} :
    {A : Type ℓ} (xs rest : Bytes) (left : A) (use_element : Bytes → Bytes → Outcome A)
    → all (is_not 0x20) xs ≡ true
    → with_element (xs ++ (0x20 ∷ rest)) left use_element ≡ use_element xs rest
unfolding with_element memchr
with_element_lem [] rest left use_element h = refl
with_element_lem (x ∷ xs) rest left use_element h =
    rw (with_element, memchr_lem 0x20 (x ∷ xs) rest h)

hex_value-plain : (c d : ℕ) → hex_value c ≡ some d → is_plain c ≡ true
unfolding hex_value
hex_value-plain c d h = ground arith

pub hex_run-plain : (ds : Bytes) (acc n : ℕ) → hex_run acc ds ≡ some n → all is_plain ds ≡ true
unfolding hex_run
hex_run-plain [] acc n h = refl
hex_run-plain (c ∷ ds) acc n h = elim (Option-cases (hex_value c)) [
  | inl e ↦ cc
  | inr (d, e) ↦
      rw (hex_value-plain c d e) (hex_run-plain ds (acc * 16 + d) n (rw (hex_run, e) at h))
]

hex_front-hex_run :
    (ds rest : Bytes) (acc n : ℕ)
    → hex_run acc ds ≡ some n
    → hex_front acc (ds ++ rest) ≡ hex_front n rest
unfolding hex_run hex_front
hex_front-hex_run [] rest acc n h = ground arith
hex_front-hex_run (c ∷ ds) rest acc n h = elim (Option-cases (hex_value c)) [
  | inl e ↦ cc
  | inr (d, e) ↦
      rw (hex_front, e) (hex_front-hex_run ds rest (acc * 16 + d) n (rw (hex_run, e) at h))
]

abbrev pub prefixed : ℕ → Bytes
prefixed n = codes "0x" ++ hex5 n

-- Nothing at the front of the text goes on with a number.
abbrev pub EndsNumber : Bytes → Type 0
EndsNumber rest = (n : ℕ) → hex_front n rest ≡ n

pub has_zero-append : (xs ys : Bytes) → has_zero ys ≡ true → has_zero (xs ++ ys) ≡ true
unfolding has_zero
has_zero-append [] ys h = h
has_zero-append (x ∷ xs) ys h = ground (arith, has_zero-append xs ys)

strtoul16-prefixed :
    (n : ℕ) (rest : Bytes)
    → n < 2 ^ 32
    → has_zero rest ≡ true
    → EndsNumber rest
    → strtoul16 (prefixed n ++ rest) ≡ ok n
unfolding strtoul16 strtoul_signed strtoul_positive skip_0x skip_space is_space saturate
strtoul16-prefixed n rest h hz e = rw (
  has_zero-append (prefixed n) rest hz,
  hex_front-hex_run (hex5 n) rest 0 n (hex_run-hex5 n h),
  e n,
  lt→ltb n (2 ^ 64) (omega arith),
)

-- A line of a table, up to what stands behind its last number.
abbrev pub row_text : Bytes → Bytes → ℕ → ℕ → Bytes → Bytes
row_text header name base size tail =
    header
    ++ (0x20
        ∷ (name
            ++ (0x20
                ∷ (codes "base"
                    ++ (0x20
                        ∷ (prefixed base
                            ++ (0x20 ∷ (codes "size" ++ (0x20 ∷ (prefixed size ++ tail))))))))))

module _ (header name : Bytes) (base size : ℕ) (tail rest : Bytes) (hh : all is_plain header ≡ true)
    (hn : all is_plain name ≡ true) (hl : length name ≤ 31) (hb : base < 2 ^ 32)
    (hs : size < 2 ^ 32) (hz : has_zero rest ≡ true) (ht : EndsNumber (tail ++ (0x0a ∷ rest))) where
  -- A printed line is read as its name and its two numbers.
  pub read_entry_lem :
      (entries : List FlashPartition)
      → read_entry (row_text header name base size tail) (0x0a ∷ rest) entries
        ≡ (add_flash_partition entries name base size >>= λ added. ok (rest, added))
  unfolding read_entry has_zero hex_front hex_value hex_run
  read_entry_lem entries =
      with_element_lem header at_name _ _ (plain-not_space header hh)
      ∙ with_element_lem name at_base _ _ (plain-not_space name hn)
      ∙ with_element_lem (codes "base") at_number _ _ refl
      ∙ with_element_lem (prefixed base) at_size _ _ (
          plain-not_space (prefixed base) (hex_run-plain (hex5 base) 0 base (hex_run-hex5 base hb)))
      ∙ numbers
    where
      at_last : Bytes
      at_last = prefixed size ++ tail

      at_size : Bytes
      at_size = codes "size" ++ (0x20 ∷ at_last)

      at_number : Bytes
      at_number = prefixed base ++ (0x20 ∷ at_size)

      at_base : Bytes
      at_base = codes "base" ++ (0x20 ∷ at_number)

      at_name : Bytes
      at_name = name ++ (0x20 ∷ at_base)

      first_number : strtoul16 (at_number ++ (0x0a ∷ rest)) ≡ ok base
      first_number = rw (append_assoc (prefixed base) (0x20 ∷ at_size) (0x0a ∷ rest)) (
          strtoul16-prefixed base (0x20 ∷ (at_size ++ (0x0a ∷ rest))) hb
            (has_zero-append (0x20 ∷ at_size) (0x0a ∷ rest) hz) (λ n. refl))

      finish : Bytes → ℕ → ℕ → Outcome (Bytes × List FlashPartition)
      finish element b n = add_flash_partition entries element b n >>= λ added. ok (rest, added)

      read_size : ℕ → Bytes → Bytes → Outcome (Bytes × List FlashPartition)
      read_size b word at =
          strtoul16 (at ++ (0x0a ∷ rest)) >>= λ n. finish (c_string (take 31 name)) b n

      second_number : strtoul16 (at_last ++ (0x0a ∷ rest)) ≡ ok size
      second_number = rw (append_assoc (prefixed size) tail (0x0a ∷ rest)) (
          strtoul16-prefixed size (tail ++ (0x0a ∷ rest)) hs (has_zero-append tail (0x0a ∷ rest) hz)
            ht)

      numbers :
          (strtoul16 (at_number ++ (0x0a ∷ rest)) >>= λ b.
          with_element at_size (0x0a ∷ rest, entries) (read_size b))
          ≡ finish name base size
      numbers = rw first_number (
          with_element_lem (codes "size") at_last (0x0a ∷ rest, entries) (read_size base) refl
          ∙ rw (take-length 31 name hl, c_string-plain name hn, second_number))
