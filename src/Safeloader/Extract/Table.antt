-- ===== src/Safeloader/Extract/Table.antt =====
-- `read_partition_table` of tools/tplink-safeloader/tplink-safeloader.c on a table that the tool
-- printed, with a zero behind it.
use safewrt.Common.{
  ℕ, zero, suc, ◌+◌, ◌-◌, ◌≤◌, ◌<◌, ◌≡◌, refl, ap, ◌∙◌, true, some, List, [], ◌∷◌, ◌++◌, Bytes,
  length, take, drop, All, replicate, length-append, length-take, length-drop, take-append, arith,
  le→leb,
}
use safewrt.Common.Outcome.{ok}
use safewrt.Common.Memory.{write, write_inside}
use safewrt.Common.Text.{same_text_refl}
use safewrt.Safeloader.Layout.{Slot, flash_array, last_row}
use safewrt.Safeloader.Extract.{header_of, fread_front, has_zero, compare, read_partition_table}
use safewrt.Safeloader.Extract.Lines.{row_text}
use safewrt.Safeloader.Extract.Entries.{
  IsPrintable, Format, slot_line, slot_lines, read_entries-slot_lines,
}
use mathlib.Core.List.{append_assoc}

take-append_past :
    (n : ℕ) (xs ys : Bytes) → length xs ≤ n → take n (xs ++ ys) ≡ xs ++ take (n - length xs) ys
take-append_past n [] ys h = ap (λ k. take k ys) (omega arith)
take-append_past zero (x ∷ xs) ys h = absurd (omega arith)
take-append_past (suc n) (x ∷ xs) ys h =
    ap (◌∷◌ x) (take-append_past n xs ys (omega arith)) ∙ ap (λ k. x ∷ (xs ++ take k ys)) less
  where
    less : n - length xs ≡ suc n - suc (length xs)
    less = omega arith

-- A text is still there, with a zero behind it, when the last byte is made a zero.
last_zero :
    (front junk : Bytes)
    → length (front ++ (0 ∷ junk)) ≡ 2048
    → (rest : Bytes) × (write (front ++ (0 ∷ junk)) 2047 (0 ∷ []) ≡ ok (front ++ (0 ∷ rest)))
last_zero front junk h = split (2047 - length front) refl
  where
    behind : Bytes
    behind = 0 ∷ drop 2048 (front ++ (0 ∷ junk))

    written :
        write (front ++ (0 ∷ junk)) 2047 (0 ∷ [])
        ≡ ok ((front ++ take (2047 - length front) (0 ∷ junk)) ++ behind)
    written =
        write_inside (front ++ (0 ∷ junk)) (0 ∷ []) 2047 (omega arith)
        ∙ ap (λ (z : Bytes). ok (z ++ behind))
            (take-append_past 2047 front (0 ∷ junk) (omega (arith, length-append front (0 ∷ junk))))

    split :
        (k : ℕ)
        → 2047 - length front ≡ k
        → (rest : Bytes) × (write (front ++ (0 ∷ junk)) 2047 (0 ∷ []) ≡ ok (front ++ (0 ∷ rest)))
    split zero e = (
      drop 2048 (front ++ (0 ∷ junk)),
      written
          ∙ ap (λ k. ok ((front ++ take k (0 ∷ junk)) ++ behind)) e
          ∙ ap ok (append_assoc front [] behind),
    )
    split (suc k) e = (
      take k junk ++ behind,
      written
          ∙ ap (λ k. ok ((front ++ take k (0 ∷ junk)) ++ behind)) e
          ∙ ap ok (append_assoc front (0 ∷ take k junk) behind),
    )

-- What `fread` leaves in the buffer of a text with a zero behind it.
fread_front-zero :
    (front rest stack : Bytes)
    → length front < 2048
    → length stack ≡ 2048
    → (junk : Bytes) × (fread_front stack 2048 (front ++ (0 ∷ rest)) ≡ front ++ (0 ∷ junk))
      × (length (front ++ (0 ∷ junk)) ≡ 2048)
unfolding fread_front
fread_front-zero front rest stack h hs = (
  junk,
  ap (λ (z : Bytes). z ++ old) taken ∙ append_assoc front (0 ∷ kept) old,
  omega (
    arith,
    length-append front (0 ∷ junk),
    length-append kept old,
    length-drop (length (take 2048 (front ++ (0 ∷ rest)))) stack,
    ap length taken,
    length-append front (0 ∷ kept),
    length-take (2047 - length front) rest,
  ),
)
  where
    kept : Bytes
    kept = take (2047 - length front) rest

    old : Bytes
    old = drop (length (take 2048 (front ++ (0 ∷ rest)))) stack

    junk : Bytes
    junk = kept ++ old

    room : 2048 - length front ≡ suc (2047 - length front)
    room = omega arith

    taken : take 2048 (front ++ (0 ∷ rest)) ≡ front ++ (0 ∷ kept)
    taken =
        take-append_past 2048 front (0 ∷ rest) (omega arith)
        ∙ ap (λ k. front ++ take k (0 ∷ rest)) room

module _ (form : Format) where
  open form use {header, tail}

  length-slot_lines : (rs : List Slot) → length rs ≤ length (slot_lines form rs)
  length-slot_lines [] = omega arith
  length-slot_lines (r ∷ rs) = omega (
    arith,
    length-slot_lines rs,
    length-append (slot_line form r) (slot_lines form rs),
    length-append (row_text header r.label r.base r.size tail) (0x0a ∷ []),
  )

  compare-header : (rest : Bytes) → compare header (header ++ rest) ≡ ok true
  unfolding compare
  compare-header rest = rw (
    le→leb (length header) (length (header ++ rest)) (omega (arith, length-append header rest)),
    take-append (length header) header rest refl,
    same_text_refl header,
  )

  -- A file with a printed table of at least one row at the offset, and a zero behind it, within the
  -- 2048 bytes that are read.
  pub read_partition_table-slot_lines :
      (type : ℕ) (rs : List Slot) (r : Slot) (file rest stack : Bytes) (offset n k : ℕ)
      → header_of type ≡ some header
      → drop offset file ≡ slot_lines form (r ∷ rs) ++ (0 ∷ rest)
      → All IsPrintable (r ∷ rs)
      → length (slot_lines form (r ∷ rs)) < 2048
      → length stack ≡ 2048
      → n ≡ length (r ∷ rs) + k
      → read_partition_table file offset stack (replicate n last_row) type
        ≡ ok (0, flash_array (r ∷ rs) (replicate k last_row))
  unfolding read_partition_table has_zero
  read_partition_table-slot_lines type rs r file rest stack offset n k htype hfile hr hl hs hn =
      let (junk, read, whole) = fread_front-zero lines rest stack hl hs in
      let (end, cut) = last_zero lines junk whole in
      rw (htype, hfile, read, cut, begins end)
        (rw (
          read_entries-slot_lines form (r ∷ rs) [] (0 ∷ end) (suc (length (lines ++ (0 ∷ end)))) n k
            hr (omega (arith, length-append lines (0 ∷ end), length-slot_lines (r ∷ rs))) hn refl
            (form.no_header end)))
    where
      lines : Bytes
      lines = slot_lines form (r ∷ rs)

      begins : (end : Bytes) → compare header (lines ++ (0 ∷ end)) ≡ ok true
      begins end =
          ap (λ (z : Bytes). compare header z)
            (append_assoc (slot_line form r) (slot_lines form rs) (0 ∷ end)
              ∙ append_assoc (row_text header r.label r.base r.size tail) (0x0a ∷ [])
                  (slot_lines form rs ++ (0 ∷ end))
              ∙ append_assoc header _ _)
          ∙ compare-header _
