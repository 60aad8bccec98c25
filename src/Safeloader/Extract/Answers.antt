-- ===== src/Safeloader/Extract/Answers.antt =====
-- `read_partition_table` of tools/tplink-safeloader/tplink-safeloader.c on any file at all.
use safewrt.Common.{
  ℕ, suc, ◌≤◌, ◌≡◌, refl, false, none, some, List, [], ◌∷◌, ◌++◌, Bytes, length, take, drop,
  length-append, length-take, length-drop, arith, le→leb, drop-length, ◌==◌, Bool-cases, inl, inr,
  ◌⊎◌,
}
use safewrt.Common.Outcome.{Outcome, ok, stop, exits}
use safewrt.Common.Memory.{write_inside}
use safewrt.Common.Text.{codes, same_text}
use safewrt.Safeloader.Layout.{FlashPartition}
use safewrt.Safeloader.Extract.{header_of, fread_front, compare, read_partition_table}
use safewrt.Safeloader.Extract.Rounds.{Ended, Ended-append, read_entries-Keeps}

-- A status of 0 or 1 and as many entries as before, or an error message.
abbrev pub Answers : ℕ → Outcome (ℕ × List FlashPartition) → Type 0
Answers n outcome =
    ((status : ℕ) × (entries : List FlashPartition) × (outcome ≡ ok (status, entries))
      × (status ≤ 1)
      × (length entries ≡ n))
    ⊎ (outcome ≡ stop (exits 1))

length-fread_front :
    (stack input : Bytes) (count : ℕ)
    → length stack ≡ count
    → length (fread_front stack count input) ≡ count
unfolding fread_front
length-fread_front stack input count h = omega (
  arith,
  length-append (take count input) (drop (length (take count input)) stack),
  length-take count input,
  length-drop (length (take count input)) stack,
)

compare-inside :
    (text ptr : Bytes)
    → length text ≤ length ptr
    → compare text ptr ≡ ok (same_text (take (length text) ptr) text)
unfolding compare
compare-inside text ptr h = rw (le→leb (length text) (length ptr) h)

read_partition_table-header :
    (file : Bytes) (offset : ℕ) (stack : Bytes) (entries : List FlashPartition) (type c : ℕ)
    (cs : Bytes)
    → header_of type ≡ some (c ∷ cs)
    → (0x0a == c) ≡ false
    → length (c ∷ cs) ≤ 2047
    → length stack ≡ 2048
    → Answers (length entries) (read_partition_table file offset stack entries type)
unfolding read_partition_table
read_partition_table-header file offset stack entries type c cs ht hc hl hs =
    rw
      (
        ht,
        write_inside front (0 ∷ []) 2047
            (omega (arith, length-fread_front stack (drop offset file) 2048 hs)),
        compared,
      )
      (elim (Bool-cases (same_text (take (length (c ∷ cs)) buf) (c ∷ cs))) [
        | inr other ↦ rw other (inl (1, entries, refl, omega arith, refl))
        | inl same ↦
            elim (read_entries-Keeps (c ∷ cs) c cs refl hc (suc (length buf)) buf entries
              (omega arith) buf-Ended) [
                | inl (added, e, n) ↦ rw (same, e) (inl (0, added, refl, omega arith, n))
                | inr e ↦ rw (same, e) (inr refl)
              ]
      ])
  where
    front : Bytes
    front = fread_front stack 2048 (drop offset file)

    buf : Bytes
    buf = take 2047 front ++ ((0 ∷ []) ++ drop 2048 front)

    buf-Ended : Ended buf
    buf-Ended =
        rw
          (drop-length 2048 front
            (omega (arith, length-fread_front stack (drop offset file) 2048 hs)))
          (Ended-append (take 2047 front))

    compared : compare (c ∷ cs) buf ≡ ok (same_text (take (length (c ∷ cs)) buf) (c ∷ cs))
    compared = compare-inside (c ∷ cs) buf (
        omega (
          arith,
          length-fread_front stack (drop offset file) 2048 hs,
          length-append (take 2047 front) (0 ∷ drop 2048 front),
          length-take 2047 front,
        ))

-- The header of a table does not begin with a newline.
header_of-first :
    (type : ℕ)
    → (header_of type ≡ none)
      ⊎ ((c : ℕ) × (cs : Bytes) × (header_of type ≡ some (c ∷ cs))
          × ((0x0a == c) ≡ false)
          × (length (c ∷ cs) ≤ 2047))
unfolding header_of
header_of-first type = elim (Bool-cases (type == 0)) [
  | inl fwup ↦ inr (b'f', codes "wup-ptn", rw fwup refl, refl, omega arith)
  | inr other ↦ elim (Bool-cases (type == 1)) [
    | inl flash ↦ inr (b'p', codes "artition", rw (other, flash) refl, refl, omega arith)
    | inr none_such ↦ inl (rw (other, none_such) refl)
  ]
]

-- On any file, at any offset, with any entries and of any type, with a buffer of 2048 bytes,
-- `read_partition_table` returns 0 or 1 with as many entries as before, or ends the program by
-- `exits 1`: its loops end, and `memcmp` and `strtoul` read no byte behind the end of the buffer.
-- `calloc` is taken to answer.
pub read_partition_table-Answers :
    (file : Bytes) (offset : ℕ) (stack : Bytes) (entries : List FlashPartition) (type : ℕ)
    → length stack ≡ 2048
    → Answers (length entries) (read_partition_table file offset stack entries type)
unfolding read_partition_table
read_partition_table-Answers file offset stack entries type hs = elim (header_of-first type) [
  | inl e ↦ rw e (inr refl)
  | inr (c, cs, e, hc, hl) ↦
      read_partition_table-header file offset stack entries type c cs e hc hl hs
]
