-- ===== src/Safeloader/Tables/Flash.antt =====
-- `make_partition_table` of tools/tplink-safeloader/tplink-safeloader.c, as a whole.
use safewrt.Common.{
  ℕ, suc, ◌+◌, ◌-◌, ◌^◌, ◌≤◌, ◌<◌, ◌≡◌, refl, ap, ◌∙◌, Option, none, some, List, [], ◌∷◌, ◌++◌,
  Bytes, total, joined, length-joined, length, drop, length-append, length-drop, replicate,
  length-replicate, arith, ltb, ltb→lt, inl, inr, Bool-cases, Option-cases, ltb_false→le,
  if◌then◌else◌,
}
use safewrt.Common.Outcome.{Outcome, ok, stop, exits, ◌>>=◌}
use safewrt.Common.Text.{codes}
use safewrt.Common.Memory.{write, write_middle, write_inside}
use safewrt.Safeloader.Layout.{FlashPartition}
use safewrt.Safeloader.Pieces.{
  print_line, flash_line, print_flash, make_partition_table, Malloc, alloc_image_partition,
}
use safewrt.Safeloader.Tables.Printed.{area, area-joined, print_line_fits, print_line_overflow}
use native.Mathlib.Decide.{dec_lt}
use mathlib.Core.Path.{fun_ext}
use mathlib.Core.List.{append_assoc, append-nil}

-- The lines of a table up to the entry that ends it.
unfoldable pub flash_lines : List FlashPartition → Option (List Bytes)
flash_lines [] = none
flash_lines (p ∷ ps) = elim p.name [
  | none ↦ some []
  | some name ↦ elim (flash_lines ps) [
    | none ↦ none
    | some ls ↦ some (flash_line name p.base p.size ∷ ls)
  ]
]

print_lines : List Bytes → Bytes → ℕ → ℕ → Outcome (Bytes × ℕ)
print_lines [] buf at end = ok (buf, at)
print_lines (l ∷ ls) buf at end = print_line buf at end l >>= λ (b, s). print_lines ls b s end

print_flash-print_lines :
    (p : List FlashPartition) (ls : List Bytes) (buf : Bytes) (at end : ℕ)
    → flash_lines p ≡ some ls
    → print_flash p buf at end ≡ print_lines ls buf at end
unfolding print_flash flash_lines print_lines
print_flash-print_lines [] ls buf at end h = cc
print_flash-print_lines (p ∷ ps) ls buf at end h = elim (Option-cases p.name) [
  | inl e ↦ ground arith
  | inr (name, e) ↦ elim (Option-cases (flash_lines ps)) [
    | inl e' ↦ ground arith
    | inr (rest, e') ↦
        let here : ls ≡ flash_line name p.base p.size ∷ rest = ground arith in
        rw (e, here)
          (ap (λ k. print_line buf at end (flash_line name p.base p.size) >>= k)
            (fun_ext (λ r. print_flash-print_lines ps rest r.0 r.1 end e')))
  ]
]

module _ (end : ℕ) (post : Bytes) (hw : end < 2 ^ 64) where
  print_lines_fit :
      (ls : List Bytes) (pre pad : Bytes) (at : ℕ)
      → at ≡ length pre
      → at + length pad ≡ end
      → total ls < length pad
      → print_lines ls (pre ++ (pad ++ post)) at end
        ≡ ok (pre ++ (area pad ls ++ post), at + total ls)
  unfolding print_lines area
  print_lines_fit [] pre pad at ha he hl = ap (λ k. ok (pre ++ (pad ++ post), k)) (omega arith)
  print_lines_fit (l ∷ ls) pre pad at ha he hl =
      rw (print_line_fits pre pad post l at end ha he hw (omega arith)) (
        print_lines_fit ls (pre ++ l) (0 ∷ drop (suc (length l)) pad) (at + length l)
          (omega (arith, length-append pre l)) (omega (arith, length-drop (suc (length l)) pad))
          (omega (arith, length-drop (suc (length l)) pad))
        ∙ simp append_assoc (
            ap (λ k. ok (pre ++ (l ++ (area (0 ∷ drop (suc (length l)) pad) ls ++ post)), k))
              (omega arith)))

  print_lines_overflow :
      (ls : List Bytes) (pre pad : Bytes) (at : ℕ)
      → at ≡ length pre
      → at + length pad ≡ end
      → 0 < length pad
      → length pad ≤ total ls
      → print_lines ls (pre ++ (pad ++ post)) at end ≡ stop (exits 1)
  unfolding print_lines
  print_lines_overflow [] pre pad at ha he hp hl = absurd (omega arith)
  print_lines_overflow (l ∷ ls) pre pad at ha he hp hl = elim (dec_lt (length l) (length pad)) [
    | yes fits ↦ rw (print_line_fits pre pad post l at end ha he hw fits) (
        print_lines_overflow ls (pre ++ l) (0 ∷ drop (suc (length l)) pad) (at + length l)
          (omega (arith, length-append pre l)) (omega (arith, length-drop (suc (length l)) pad))
          (omega (arith, length-drop (suc (length l)) pad))
          (omega (arith, length-drop (suc (length l)) pad)))
    | no long ↦ rw (print_line_overflow pre pad post l at end ha he hw hp (omega arith))
  ]

abbrev table_head : Bytes
table_head = 0x00 ∷ 0x04 ∷ 0x00 ∷ 0x00 ∷ []

-- The content of the partition: the magic, the lines, a zero, and 0xff up to 0x800 bytes.
abbrev pub table_text : List Bytes → Bytes
table_text ls = table_head ++ (joined ls ++ (0 ∷ replicate (0x7fb - total ls) 0xff))

table_filled :
    (l : Bytes) (ls : List Bytes) (rest : Bytes)
    → length rest ≡ 0x7fc
    → total (l ∷ ls) < 0x7fc
    → write
        (table_head ++ (area rest (l ∷ ls) ++ []))
        (4 + total (l ∷ ls) + 1)
        (replicate (0x800 - (4 + total (l ∷ ls) + 1)) 0xff)
      ≡ ok (table_text (l ∷ ls))
table_filled l ls rest hr hl =
    rw (regroup, same_pad)
      (write_middle front (drop (suc (total (l ∷ ls))) rest) [] padding (4 + total (l ∷ ls) + 1)
          (omega (arith, length-append (joined (l ∷ ls)) (0 ∷ []), length-joined (l ∷ ls)))
          (omega (
            arith,
            length-replicate {A = ℕ} (0x7fb - total (l ∷ ls)) 0xff,
            length-drop (suc (total (l ∷ ls))) rest,
          ))
        ∙ ap ok (simp (append_assoc, append-nil)))
  where
    front : Bytes
    front = table_head ++ (joined (l ∷ ls) ++ (0 ∷ []))

    padding : Bytes
    padding = replicate (0x7fb - total (l ∷ ls)) 0xff

    same_pad : 0x800 - (4 + total (l ∷ ls) + 1) ≡ 0x7fb - total (l ∷ ls)
    same_pad = omega arith

    regroup :
        table_head ++ (area rest (l ∷ ls) ++ []) ≡ front ++ (drop (suc (total (l ∷ ls))) rest ++ [])
    regroup = rw (area-joined l ls rest) (simp (append_assoc, append-nil))

-- The partition-table partition of a table with at least one row, for any block that `malloc`
-- gave: its text where that fits 0x800 bytes, and `exits 1` where it does not.
pub make_partition_table_lem :
    (malloc : Malloc) (p : List FlashPartition) (block l : Bytes) (ls : List Bytes)
    → malloc 0x800 ≡ some block
    → length block ≡ 0x800
    → flash_lines p ≡ some (l ∷ ls)
    → make_partition_table malloc p ≡ (
        if ltb (total (l ∷ ls)) 0x7fc
        then ok (record {
          name = some (codes "partition-table");
          size = 0x800;
          content = table_text (l ∷ ls);
        })
        else stop (exits 1))
unfolding make_partition_table alloc_image_partition
make_partition_table_lem malloc p block l ls hm hb hp =
    rw
      (
        hm,
        write_inside block table_head 0 (omega arith),
        ← append-nil (drop 4 block),
        print_flash-print_lines p (l ∷ ls) (table_head ++ (drop 4 block ++ [])) 4 0x800 hp,
      )
      (elim (Bool-cases (ltb (total (l ∷ ls)) 0x7fc)) [
        | inl fits ↦ rw (
          fits,
          print_lines_fit 0x800 [] (omega arith) (l ∷ ls) table_head (drop 4 block) 4 refl
              (omega (arith, length-drop 4 block))
              (omega (arith, length-drop 4 block, ltb→lt (total (l ∷ ls)) 0x7fc fits)),
          table_filled l ls (drop 4 block) (omega (arith, length-drop 4 block)) (ltb→lt _ _ fits),
        )
        | inr long ↦ rw (
          long,
          print_lines_overflow 0x800 [] (omega arith) (l ∷ ls) table_head (drop 4 block) 4 refl
              (omega (arith, length-drop 4 block)) (omega (arith, length-drop 4 block))
              (omega (arith, length-drop 4 block, ltb_false→le (total (l ∷ ls)) 0x7fc long)),
        )
      ])
