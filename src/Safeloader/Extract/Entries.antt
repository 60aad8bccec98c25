-- ===== src/Safeloader/Extract/Entries.antt =====
-- How the loop of `read_partition_table` in tools/tplink-safeloader/tplink-safeloader.c reads the
-- lines of a table that the tool printed.
use safewrt.Common.{
  ℕ, zero, suc, ◌+◌, ◌%◌, ◌^◌, ◌≤◌, ◌<◌, ◌≡◌, refl, ap, ◌∙◌, true, false, some, List, [], ◌∷◌, ◌++◌,
  Bytes, length, all, All, replicate, length-append, take-append, arith, lt→ltb, le→leb,
}
use safewrt.Common.Outcome.{ok}
use safewrt.Common.Text.{same_text_refl}
use safewrt.Common.Hex.{hex5, hex_run-hex5}
use safewrt.Safeloader.Layout.{FlashPartition, Slot, flash_array, last_row}
use safewrt.Safeloader.Extract.{
  is_free, add_flash_partition, has_zero, compare, line_follows, read_entries,
}
use safewrt.Safeloader.Extract.Lines.{
  is_plain, is_not, all-append, plain-not_newline, memchr_lem, hex_run-plain, prefixed, EndsNumber,
  row_text, has_zero-append, read_entry_lem,
}
use mathlib.Core.Path.{ap₂}
use mathlib.Core.List.{append_assoc, append-nil}

-- A row whose line can be read back: its name has no space, newline or zero and fits 31 bytes, and
-- its numbers fit 32 bits.
abbrev pub IsPrintable : Slot → Type 0
IsPrintable r =
    (all is_plain r.label ≡ true) × (length r.label ≤ 31) × (r.base < 2 ^ 32) × (r.size < 2 ^ 32)

add_flash_partition_lem :
    (done : List Slot) (r : Slot) (more : List FlashPartition)
    → r.base < 2 ^ 32
    → r.size < 2 ^ 32
    → add_flash_partition (flash_array done (last_row ∷ more)) r.label r.base r.size
      ≡ ok (flash_array (done ++ (r ∷ [])) more)
unfolding add_flash_partition is_free
add_flash_partition_lem [] r more hb hs =
    ap₂ (λ (b n : ℕ). ok (record { name = some r.label; base = b; size = n } ∷ more))
      (small r.base hb) (small r.size hs)
  where
    small : (n : ℕ) → n < 2 ^ 32 → n % 2 ^ 32 ≡ n
    small n h = omega arith
add_flash_partition_lem (d ∷ done) r more hb hs = rw (add_flash_partition_lem done r more hb hs)

-- The form of a table: the word at the start of a line, what stands between the last number and
-- the newline, and what makes the lines of this form readable.
pub record Format : Type 0 where
  pub header : Bytes
  pub tail : Bytes
  pub plain_header : all is_plain header ≡ true
  pub tail_in_line : all (is_not 0x0a) tail ≡ true
  pub ends_number : (rest : Bytes) → EndsNumber (tail ++ (0x0a ∷ rest))
  pub no_header : (rest : Bytes) → line_follows header (0 ∷ rest) ≡ ok false

module _ (form : Format) where
  open form use {header, tail}

  abbrev pub slot_line : Slot → Bytes
  slot_line r = row_text header r.label r.base r.size tail ++ (0x0a ∷ [])

  abbrev pub slot_lines : List Slot → Bytes
  slot_lines [] = []
  slot_lines (r ∷ rs) = slot_line r ++ slot_lines rs

  row_text-not_newline :
      (r : Slot)
      → IsPrintable r
      → all (is_not 0x0a) (row_text header r.label r.base r.size tail) ≡ true
  row_text-not_newline r h =
      all-append (is_not 0x0a) header _ (plain-not_newline header form.plain_header) (
        all-append (is_not 0x0a) r.label _ (plain-not_newline r.label h.0) (
          all-append (is_not 0x0a) (prefixed r.base) _ (number r.base h.2) (
            all-append (is_not 0x0a) (prefixed r.size) tail (number r.size h.3) form.tail_in_line)))
    where
      number : (n : ℕ) → n < 2 ^ 32 → all (is_not 0x0a) (prefixed n) ≡ true
      number n hn = plain-not_newline (prefixed n) (hex_run-plain (hex5 n) 0 n (hex_run-hex5 n hn))

  line_follows-header : (rest : Bytes) → line_follows header (header ++ (0x20 ∷ rest)) ≡ ok true
  unfolding line_follows compare
  line_follows-header rest = rw (
    lt→ltb (length header) (length (header ++ (0x20 ∷ rest)))
        (omega (arith, length-append header (0x20 ∷ rest))),
    le→leb (length header) (length (header ++ (0x20 ∷ rest)))
        (omega (arith, length-append header (0x20 ∷ rest))),
    take-append (length header) header (0x20 ∷ rest) refl,
    same_text_refl header,
  )

  -- One round of the loop reads one printed line into the first free entry.
  read_entries-slot_line :
      (r : Slot) (done : List Slot) (entries : List FlashPartition) (rest : Bytes) (fuel : ℕ)
      → IsPrintable r
      → has_zero rest ≡ true
      → read_entries
          (suc fuel)
          header
          (row_text header r.label r.base r.size tail ++ (0x0a ∷ rest))
          (flash_array done (last_row ∷ entries))
        ≡ read_entries fuel header rest (flash_array (done ++ (r ∷ [])) entries)
  unfolding read_entries
  read_entries-slot_line r done entries rest fuel h hz = rw (
    read_entries,
    begins,
    memchr_lem 0x0a (row_text header r.label r.base r.size tail) rest (row_text-not_newline r h),
    read_entry_lem header r.label r.base r.size tail rest form.plain_header h.0 h.1 h.2 h.3 hz
        (form.ends_number rest) (flash_array done (last_row ∷ entries)),
    add_flash_partition_lem done r entries h.2 h.3,
  )
    where
      begins :
          line_follows header (row_text header r.label r.base r.size tail ++ (0x0a ∷ rest))
          ≡ ok true
      begins = rw (append_assoc header _ (0x0a ∷ rest)) (line_follows-header _)

  pub read_entries-slot_lines :
      (rs done : List Slot) (rest : Bytes) (fuel n k : ℕ)
      → All IsPrintable rs
      → length rs < fuel
      → n ≡ length rs + k
      → has_zero rest ≡ true
      → line_follows header rest ≡ ok false
      → read_entries fuel header (slot_lines rs ++ rest) (flash_array done (replicate n last_row))
        ≡ ok (flash_array (done ++ rs) (replicate k last_row))
  unfolding read_entries
  read_entries-slot_lines rs done rest zero n k h hf hn hz he = absurd (omega arith)
  read_entries-slot_lines [] done rest (suc fuel) n k h hf hn hz he =
      rw (read_entries, he, append-nil done)
        (ap (λ j. ok (flash_array done (replicate j last_row))) (omega arith))
  read_entries-slot_lines (r ∷ rs) done rest (suc fuel) zero k h hf hn hz he = absurd (omega arith)
  read_entries-slot_lines (r ∷ rs) done rest (suc fuel) (suc n) k h hf hn hz he =
      ap
        (λ (text : Bytes).
          read_entries (suc fuel) header text (flash_array done (replicate (suc n) last_row)))
        (append_assoc (slot_line r) (slot_lines rs) rest
          ∙ append_assoc (row_text header r.label r.base r.size tail) (0x0a ∷ [])
              (slot_lines rs ++ rest))
      ∙ read_entries-slot_line r done (replicate n last_row) (slot_lines rs ++ rest) fuel h.0
          (has_zero-append (slot_lines rs) rest hz)
      ∙ read_entries-slot_lines rs (done ++ (r ∷ [])) rest fuel n k h.1 (omega arith) (omega arith)
          hz he
      ∙ ap (λ (all_done : List Slot). ok (flash_array all_done (replicate k last_row)))
          (append_assoc done (r ∷ []) rs)
