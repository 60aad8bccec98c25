-- ===== src/Safeloader/Extract/Printed.antt =====
-- `read_partition_table` of tools/tplink-safeloader/tplink-safeloader.c on the table of the flash that
-- `make_partition_table` prints.
use safewrt.Common.{
  ℕ, ◌+◌, ◌-◌, ◌<◌, ◌≡◌, refl, ap, ◌∙◌, sym, Bool, true, false, some, List, [], ◌∷◌, ◌++◌, All,
  Bytes, length, drop, total, joined, replicate, drop-drop, length-joined, arith, ltb, ltb→lt,
  if◌then◌else◌,
}
use safewrt.Common.Outcome.{ok, stop, exits}
use safewrt.Safeloader.Layout.{FlashPartition, ImagePartition, Slot, flash_array, last_row}
use safewrt.Safeloader.Pieces.{Malloc, make_partition_table}
use safewrt.Safeloader.Tables.Flash.{flash_lines, make_partition_table_lem, table_text}
use safewrt.Safeloader.Extract.{header_of, read_partition_table}
use safewrt.Safeloader.Extract.Entries.{IsPrintable, slot_lines}
use safewrt.Safeloader.Extract.Table.{read_partition_table-slot_lines}
use safewrt.Safeloader.Extract.Formats.{flash_format, slots_of, flash_lines-slots_of}
use mathlib.Core.List.{append_assoc}

-- A test that was passed, or the program ended.
passed :
    {A : Type 0} {result : A} (test : Bool) (value : A)
    → (if test then ok value else stop (exits 1)) ≡ ok result
    → (test ≡ true) × (value ≡ result)
passed true value h = (refl, cc)
passed false value h = cc

module _ (malloc : Malloc) (p : List FlashPartition) (block : Bytes) (r : Slot) (rs : List Slot)
    (hm : malloc 0x800 ≡ some block) (hb : length block ≡ 0x800)
    (hp : slots_of p ≡ some (r ∷ rs)) where
  -- A table that was printed is its lines, in 0x7fc bytes with a zero behind them.
  printed_part :
      (ls : List Bytes) (part : ImagePartition)
      → flash_lines p ≡ some ls
      → joined ls ≡ slot_lines flash_format (r ∷ rs)
      → make_partition_table malloc p ≡ ok part
      → (part.content ≡ table_text ls) × (total ls < 0x7fc)
  printed_part [] part hl hj hg = absurd (omega (arith, ap length hj))
  printed_part (l ∷ ls) part hl hj hg =
      let (fits, same) =
        passed (ltb (total (l ∷ ls)) 0x7fc) _
          (sym (make_partition_table_lem malloc p block l ls hm hb hl) ∙ hg) in
      (ap (λ (q : ImagePartition). q.content) (sym same), ltb→lt (total (l ∷ ls)) 0x7fc fits)

  -- The table that `make_partition_table` printed of at least one row into a block of 0x800
  -- bytes, with plain names of 31 bytes at most and 32-bit places and sizes, is read, behind its
  -- four bytes of magic, from any file that has it at an offset: into free entries that are
  -- enough, with a buffer of 2048 bytes, it gives these rows and leaves the other entries free.
  pub read_partition_table-make_partition_table :
      (part : ImagePartition) (file more stack : Bytes) (offset n k : ℕ)
      → make_partition_table malloc p ≡ ok part
      → All IsPrintable (r ∷ rs)
      → drop offset file ≡ part.content ++ more
      → length stack ≡ 2048
      → n ≡ length (r ∷ rs) + k
      → read_partition_table file (offset + 4) stack (replicate n last_row) 1
        ≡ ok (0, flash_array (r ∷ rs) (replicate k last_row))
  unfolding header_of
  read_partition_table-make_partition_table part file more stack offset n k hg hr hd hs hn =
      let (ls, lines, same) = flash_lines-slots_of p (r ∷ rs) hp in
      let (text, fits) = printed_part ls part lines same hg in
      read_partition_table-slot_lines flash_format 1 rs r file (padding ls ++ more) stack
        (offset + 4) n k refl (table ls text same) hr
        (omega (arith, ap length same, length-joined ls)) hs hn
    where
      padding : List Bytes → Bytes
      padding ls = replicate (0x7fb - total ls) 0xff

      table :
          (ls : List Bytes)
          → part.content ≡ table_text ls
          → joined ls ≡ slot_lines flash_format (r ∷ rs)
          → drop (offset + 4) file ≡ slot_lines flash_format (r ∷ rs) ++ (0 ∷ (padding ls ++ more))
      table ls text same =
          sym (drop-drop offset 4 (offset + 4) file refl)
          ∙ ap (drop 4) (hd ∙ ap (λ (z : Bytes). z ++ more) text)
          ∙ append_assoc (joined ls) (0 ∷ padding ls) more
          ∙ ap (λ (z : Bytes). z ++ (0 ∷ (padding ls ++ more))) same
