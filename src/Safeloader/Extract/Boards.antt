-- ===== src/Safeloader/Extract/Boards.antt =====
-- The flash tables of the boards in tools/tplink-safeloader/tplink-safeloader.c, as `convert_firmware`
-- reads them out of images.
use safewrt.Common.{
  ℕ, ◌+◌, ◌-◌, ◌^◌, ◌≤◌, ◌≡◌, refl, Bool, true, false, ◌&&◌, Option, none, some, List, [], ◌∷◌,
  ◌++◌, All, all, Bytes, length, drop, replicate, arith, ltb, leb, ltb→lt, leb→le, &&-split,
}
use safewrt.Common.Outcome.{ok}
use safewrt.Safeloader.Layout.{DeviceInfo, ImagePartition, Slot, flash_array, last_row}
use safewrt.Safeloader.Boards.{boards}
use safewrt.Safeloader.Pieces.{Malloc, make_partition_table}
use safewrt.Safeloader.Build.{find_board}
use safewrt.Safeloader.Build.Boards.{on_boards, on_boards_lem}
use safewrt.Safeloader.Extract.{read_partition_table}
use safewrt.Safeloader.Extract.Lines.{is_plain}
use safewrt.Safeloader.Extract.Entries.{IsPrintable}
use safewrt.Safeloader.Extract.Formats.{slots_of}
use safewrt.Safeloader.Extract.Printed.{read_partition_table-make_partition_table}

printable : List Slot → Bool
printable [] = true
printable (r ∷ rs) =
    all is_plain r.label
    && (leb (length r.label) 31 && (ltb r.base (2 ^ 32) && (ltb r.size (2 ^ 32) && printable rs)))

printable_lem : (rs : List Slot) → printable rs ≡ true → All IsPrintable rs
unfolding printable
printable_lem [] h = tt
printable_lem (r ∷ rs) h =
    let (plain, h1) = &&-split (all is_plain r.label) _ h in
    let (short, h2) = &&-split (leb (length r.label) 31) _ h1 in
    let (base, h3) = &&-split (ltb r.base (2 ^ 32)) _ h2 in
    let (size, h4) = &&-split (ltb r.size (2 ^ 32)) _ h3 in
    (
      (
        plain,
        leb→le (length r.label) 31 short,
        ltb→lt r.base (2 ^ 32) base,
        ltb→lt r.size (2 ^ 32) size,
      ),
      printable_lem rs h4,
    )

-- The table has a row at least and 32 at most, all of which can be printed and read.
readable : Option (List Slot) → Bool
readable none = false
readable (some []) = false
readable (some (r ∷ rs)) = leb (length (r ∷ rs)) 32 && printable (r ∷ rs)

boards-readable : on_boards (λ b. readable (slots_of b.partitions)) boards ≡ true
unfolding on_boards readable printable slots_of
boards-readable = refl

readable_lem :
    (rows : Option (List Slot))
    → readable rows ≡ true
    → (r : Slot) × (rs : List Slot) × (rows ≡ some (r ∷ rs))
      × (length (r ∷ rs) ≤ 32)
      × All IsPrintable (r ∷ rs)
unfolding readable
readable_lem none h = cc
readable_lem (some []) h = cc
readable_lem (some (r ∷ rs)) h =
    let (few, fit) = &&-split (leb (length (r ∷ rs)) 32) _ h in
    (r, rs, refl, leb→le (length (r ∷ rs)) 32 few, printable_lem (r ∷ rs) fit)

-- The flash table of every board that can be found has at most 32 rows, and the table that is
-- printed of it into a block of 0x800 bytes is read from any file that has it at an offset, into
-- 32 free entries and with a buffer of 2048 bytes, as exactly these rows.
pub read_partition_table-find_board :
    (id : Bytes) (board : DeviceInfo) (malloc : Malloc) (block : Bytes) (part : ImagePartition)
    (file more stack : Bytes) (offset : ℕ)
    → find_board id ≡ some board
    → malloc 0x800 ≡ some block
    → length block ≡ 0x800
    → make_partition_table malloc board.partitions ≡ ok part
    → drop offset file ≡ part.content ++ more
    → length stack ≡ 2048
    → (rs : List Slot) × (slots_of board.partitions ≡ some rs)
      × (length rs ≤ 32)
      × (read_partition_table file (offset + 4) stack (replicate 32 last_row) 1
          ≡ ok (0, flash_array rs (replicate (32 - length rs) last_row)))
unfolding find_board
read_partition_table-find_board id board malloc block part file more stack offset h hm hb hg hd hs =
    let (r, rs, rows, few, fit) =
      readable_lem (slots_of board.partitions)
        (on_boards_lem (λ b. readable (slots_of b.partitions)) boards id board boards-readable h) in
    (
      r ∷ rs,
      rows,
      few,
      read_partition_table-make_partition_table malloc board.partitions block r rs hm hb rows part
          file more stack offset 32 (32 - length (r ∷ rs)) hg fit hd hs (omega arith),
    )
