-- ===== src/Safeloader/Extract/Rounds.antt =====
-- The loops of `read_partition_table` of tools/tplink-safeloader/tplink-safeloader.c on any text at all.
use safewrt.Common.{
  ℕ, zero, suc, ◌+◌, ◌%◌, ◌^◌, ◌≤◌, ◌<◌, ◌≡◌, refl, ap, true, false, some, List, [], ◌∷◌, ◌++◌,
  Bytes, length, take, drop, length-drop, arith, ◌==◌, Bool-cases, Option-cases, Option, inl, inr,
  ◌⊎◌,
}
use safewrt.Common.Outcome.{Outcome, ok, stop, exits}
use safewrt.Common.Text.{same_text, skip_space, c_string}
use safewrt.Safeloader.Extract.Lines.{has_zero-append}
use safewrt.Safeloader.Layout.{FlashPartition}
use safewrt.Safeloader.Extract.{
  is_free, add_flash_partition, memchr, has_zero, strtoul_signed, strtoul16, with_element,
  read_entry, compare, line_follows, read_entries,
}

-- The program goes on with as many entries as before, or ends with an error message.
abbrev pub Keeps : ℕ → Outcome (List FlashPartition) → Type 0
Keeps n outcome =
    ((entries : List FlashPartition) × (outcome ≡ ok entries) × (length entries ≡ n))
    ⊎ (outcome ≡ stop (exits 1))

pub add_flash_partition-Keeps :
    (entries : List FlashPartition) (name : Bytes) (base size : ℕ)
    → Keeps (length entries) (add_flash_partition entries name base size)
unfolding add_flash_partition
add_flash_partition-Keeps [] name base size = inr refl
add_flash_partition-Keeps (p ∷ ps) name base size = elim (Bool-cases (is_free p)) [
  | inl free ↦ rw free (
      inl
        (record { name = some name; base = base % 2 ^ 32; size = size % 2 ^ 32 } ∷ ps, refl, refl))
  | inr used ↦ elim (add_flash_partition-Keeps ps name base size) [
    | inl (qs, e, l) ↦ rw (used, e) (inl (p ∷ qs, refl, ap suc l))
    | inr e ↦ rw (used, e) (inr refl)
  ]
]

-- From each of its places on, a zero ends the text.
abbrev pub Ended : Bytes → Type 0
Ended [] = Unit
Ended (c ∷ cs) = (has_zero (c ∷ cs) ≡ true) × Ended cs

pub Ended-append : (xs : Bytes) → Ended (xs ++ (0 ∷ []))
unfolding has_zero
Ended-append [] = (refl, tt)
Ended-append (x ∷ xs) = (has_zero-append (x ∷ xs) (0 ∷ []) refl, Ended-append xs)

strtoul16-has_zero : (s : Bytes) → has_zero s ≡ true → (n : ℕ) × (strtoul16 s ≡ ok n)
unfolding strtoul16
strtoul16-has_zero s h = (strtoul_signed (skip_space s), rw h refl)

-- What holds of each way through a round of the loop holds of the round.
with_element-each :
    {A : Type 0} (P : Outcome A → Type 0) (line : Bytes) (left : A)
    (use_element : Bytes → Bytes → Outcome A)
    → P (ok left)
    → P (stop (exits 1))
    → ((element rest : Bytes) → P (use_element element rest))
    → P (with_element line left use_element)
unfolding with_element
with_element-each P [] left use_element h hs hu = h
with_element-each P (c ∷ cs) left use_element h hs hu = elim (Option-cases (memchr 0x20 (c ∷ cs))) [
  | inl e ↦ rw (e, with_element) hs
  | inr ((element, found), e) ↦ rw (e, with_element) (hu element (drop 1 found))
]

-- A line is left at its newline or behind it, with as many entries as before, and a zero still ends
-- what is there.
abbrev LeftAt : ℕ → ℕ → Outcome (Bytes × List FlashPartition) → Type 0
LeftAt bytes n outcome =
    ((next : Bytes) × (entries : List FlashPartition) × (outcome ≡ ok (next, entries))
      × Ended next
      × (length next ≤ bytes)
      × (length entries ≡ n))
    ⊎ (outcome ≡ stop (exits 1))

Ended-drop : (bs : Bytes) → Ended bs → Ended (drop 1 bs)
Ended-drop [] h = tt
Ended-drop (b ∷ bs) h = h.1

read_entry-LeftAt :
    (line behind : Bytes) (entries : List FlashPartition)
    → has_zero behind ≡ true
    → Ended behind
    → LeftAt (length behind) (length entries) (read_entry line behind entries)
unfolding read_entry
read_entry-LeftAt line behind entries hz he = each line λ header at_name.
    each at_name λ name at_base. each at_base λ word_base at_number.
      each at_number λ number at_size.
        let (base, first) = number_there at_number in
        rw first (
          each at_size λ word_size at_last.
            let (size, second) = number_there at_last in
            rw second
              (elim (add_flash_partition-Keeps entries (c_string (take 31 name)) base size) [
                | inl (added, e, l) ↦ rw e (
                    inl (
                      drop 1 behind,
                      added,
                      refl,
                      Ended-drop behind he,
                      omega (arith, length-drop 1 behind),
                      l,
                    ))
                | inr e ↦ rw e (inr refl)
              ]))
  where
    number_there : (at : Bytes) → (n : ℕ) × (strtoul16 (at ++ behind) ≡ ok n)
    number_there at = strtoul16-has_zero (at ++ behind) (has_zero-append at behind hz)

    each :
        (rest : Bytes) {use_element : Bytes → Bytes → Outcome (Bytes × List FlashPartition)}
        → ((element after : Bytes)
            → LeftAt (length behind) (length entries) (use_element element after))
        → LeftAt (length behind) (length entries) (with_element rest (behind, entries) use_element)
    each rest {use_element} h =
        with_element-each (LeftAt (length behind) (length entries)) rest (behind, entries)
          use_element (inl (behind, entries, refl, he, omega arith, refl)) (inr refl) h

memchr-length :
    (c : ℕ) (bs line behind : Bytes)
    → memchr c bs ≡ some (line, behind)
    → length line + length behind ≡ length bs
unfolding memchr
memchr-length c [] line behind h = cc
memchr-length c (b ∷ bs) line behind h = elim (Bool-cases (b == c)) [
  | inl same ↦ ground arith
  | inr other ↦ elim (Option-cases (memchr c bs)) [
    | inl e ↦ ground arith
    | inr ((front, found), e) ↦ ground (arith, memchr-length c bs front found)
  ]
]

-- Where a byte is found, a zero ends what begins with it.
memchr-Ended :
    (c : ℕ) (bs line behind : Bytes)
    → Ended bs
    → memchr c bs ≡ some (line, behind)
    → (has_zero behind ≡ true) × Ended behind
unfolding memchr
memchr-Ended c [] line behind h e = cc
memchr-Ended c (b ∷ bs) line behind h e = elim (Bool-cases (b == c)) [
  | inl same ↦ rw (← found_here (rw (memchr, same) at e)) (h.0, h)
  | inr other ↦ elim (Option-cases (memchr c bs)) [
    | inl e' ↦ ground arith
    | inr ((front, found), e') ↦
        rw (← found_later front found (rw (memchr, other, e') at e))
          (memchr-Ended c bs front found h.1 e')
  ]
]
  where
    found_here :
        ◌≡◌ {A = Option (Bytes × Bytes)} (some ([], b ∷ bs)) (some (line, behind)) → b ∷ bs ≡ behind
    found_here h = cc

    found_later :
        (front found : Bytes)
        → ◌≡◌ {A = Option (Bytes × Bytes)} (some (b ∷ front, found)) (some (line, behind))
        → found ≡ behind
    found_later front found h = cc

-- What `line_follows` answers where nothing is read behind the end.
line_follows-cases :
    (parthdr ptr : Bytes)
    → (line_follows parthdr ptr ≡ ok true) ⊎ (line_follows parthdr ptr ≡ ok false)
unfolding line_follows compare
line_follows-cases parthdr ptr = ground arith

-- A text with such a header does not begin with a newline.
header_first :
    (parthdr ptr : Bytes) (c : ℕ) (cs : Bytes)
    → parthdr ≡ c ∷ cs
    → (0x0a == c) ≡ false
    → line_follows parthdr (0x0a ∷ ptr) ≡ ok false
unfolding line_follows compare same_text
header_first parthdr ptr c cs h hc = ground arith

memchr_front :
    (ptr behind : Bytes)
    → memchr 0x0a ptr ≡ some ([], behind)
    → (rest : Bytes) × (ptr ≡ 0x0a ∷ rest)
unfolding memchr
memchr_front [] behind h = cc
memchr_front (b ∷ bs) behind h = elim (Bool-cases (b == 0x0a)) [
  | inl same ↦ (bs, ground arith)
  | inr other ↦ elim (Option-cases (memchr 0x0a bs)) [
    | inl e ↦ ground arith
    | inr ((front, found), e) ↦ ground arith
  ]
]

module _ (parthdr : Bytes) (c : ℕ) (cs : Bytes) (hp : parthdr ≡ c ∷ cs)
    (hc : (0x0a == c) ≡ false) where
  -- A line is not empty where there is a header.
  line_moves :
      (line behind ptr : Bytes)
      → line_follows parthdr ptr ≡ ok true
      → memchr 0x0a ptr ≡ some (line, behind)
      → 1 ≤ length line
  line_moves [] behind ptr follows e =
      let (rest, here) = memchr_front ptr behind e in
      absurd (ground (arith, header_first parthdr rest c cs hp hc))
  line_moves (x ∷ xs) behind ptr follows e = omega arith

  pub read_entries-Keeps :
      (fuel : ℕ) (ptr : Bytes) (entries : List FlashPartition)
      → length ptr < fuel
      → Ended ptr
      → Keeps (length entries) (read_entries fuel parthdr ptr entries)
  unfolding read_entries
  read_entries-Keeps zero ptr entries h he = absurd (omega arith)
  read_entries-Keeps (suc fuel) ptr entries h he = elim (line_follows-cases parthdr ptr) [
    | inr e ↦ rw (e, read_entries) (inl (entries, refl, refl))
    | inl follows ↦ elim (Option-cases (memchr 0x0a ptr)) [
      | inl e ↦ rw (follows, e, read_entries) (inl (entries, refl, refl))
      | inr ((line, behind), e) ↦
          elim (read_entry-LeftAt line behind entries (memchr-Ended 0x0a ptr line behind he e).0
            (memchr-Ended 0x0a ptr line behind he e).1) [
              | inr e' ↦ rw (follows, e, e', read_entries) (inr refl)
              | inl (next, added, e', ended, l, n) ↦
                  rw (follows, e, e', ← n, read_entries)
                    (read_entries-Keeps fuel next added
                      (omega (
                        arith,
                        memchr-length 0x0a ptr line behind e,
                        line_moves line behind ptr follows e,
                      ))
                      ended)
            ]
    ]
  ]
