-- ===== src/Tests/Pieces.antt =====
-- Runs of the functions of tools/tplink-safeloader/tplink-safeloader.c that make one partition.
use safewrt.Common.{
  ℕ, ◌≤◌, ◌≡◌, refl, false, none, some, List, [], ◌∷◌, Bytes, drop, map, replicate,
  length-replicate, arith,
}
use safewrt.Common.Outcome.{ok}
use safewrt.Common.Text.{codes, same_text, to_lower, same_caseless}
use safewrt.Common.Words.{be32}
use safewrt.Common.Hex.{hex5, hex_onto, hex_digit}
use safewrt.Safeloader.Layout.{FlashPartition, DeviceInfo, row, last_row}
use safewrt.Safeloader.Boards.{no_board}
use safewrt.Safeloader.Boards.Cpe.{cpe210}
use safewrt.Safeloader.Pieces.{
  Malloc, Tm, bcd, align, make_soft_version, make_partition_table, flash_line,
}
use safewrt.Safeloader.Pieces.Contents.{
  make_soft_version_lem, date_bytes, date_reads_back, from_bcd,
}
use safewrt.Safeloader.Files.{FileSystem, read_file_split2}
use safewrt.Safeloader.Files.Contents.{read_file_split2_lem}
use safewrt.Safeloader.Tables.Flash.{flash_lines, make_partition_table_lem, table_text}
use safewrt.Safeloader.Image.Partitions.{flash_size}
use safewrt.Safeloader.Build.{find_in, find_board}
use safewrt.Safeloader.Build.Boards.{find_board-Separate, make_partition_table-find_board, Separate}

-- Blocks are full of 0xaa.
abbrev heap : Malloc
heap n = some (replicate n 0xaa)

abbrev short_info : DeviceInfo
short_info = record no_board { support_list = some (codes "CPE"); support_trail = 0xff }

abbrev day : Tm
day = record { tm_year = 118; tm_mon = 10; tm_mday = 25 }

make_soft_version_example :
    make_soft_version heap (λ t. some day) none (some 7) 1
    ≡ ok (record {
      name = some (codes "soft-version");
      size = 21;
      content =
          0 ∷ 0 ∷ 0 ∷ 0xc ∷ 0 ∷ 0 ∷ 0 ∷ 0 ∷ 0xff ∷ 0 ∷ 0 ∷ 0 ∷ 0x20 ∷ 0x18 ∷ 0x11 ∷ 0x25 ∷ 0 ∷ 0 ∷ 0
          ∷ 1 ∷ 0xff ∷ [];
    })
unfolding be32 bcd
make_soft_version_example =
    make_soft_version_lem heap (λ t. some day) none (some 7) 7 1 day (replicate 21 0xaa) refl refl
      refl refl

date_reads_back_example : map from_bcd (date_bytes day) ≡ 20 ∷ 18 ∷ 11 ∷ 25 ∷ []
date_reads_back_example = date_reads_back day (omega arith) (omega arith) (omega arith)

-- One file of three bytes, whatever its name.
abbrev disk : FileSystem
disk path = some (1 ∷ 2 ∷ 3 ∷ [])

read_file_split2_example :
    read_file_split2 disk heap (codes "os-image") (codes "kernel") (codes "rootfs") false
    ≡ ok (record {
      name = some (codes "os-image");
      size = 0x10003;
      content = 1 ∷ 2 ∷ 3 ∷ 1 ∷ 2 ∷ 3 ∷ drop 6 (replicate 0x10003 0xaa);
    })
unfolding align
read_file_split2_example =
    read_file_split2_lem disk heap (codes "os-image") (codes "kernel") (codes "rootfs")
      (1 ∷ 2 ∷ 3 ∷ []) (1 ∷ 2 ∷ 3 ∷ []) (replicate 0x10003 0xaa) refl refl (omega arith)
      (omega arith) (omega arith) refl (length-replicate {A = ℕ} 0x10003 0xaa)

abbrev one_row : List FlashPartition
one_row = row "os-image" 0x40000 0x1c0000 ∷ last_row ∷ []

one_line : flash_lines one_row ≡ some (codes "partition os-image base 0x40000 size 0x1c0000\n" ∷ [])
unfolding flash_lines flash_line hex5 hex_onto hex_digit
one_line = refl

make_partition_table_example :
    make_partition_table heap one_row
    ≡ ok (record {
      name = some (codes "partition-table");
      size = 0x800;
      content = table_text (codes "partition os-image base 0x40000 size 0x1c0000\n" ∷ []);
    })
make_partition_table_example =
    make_partition_table_lem heap one_row (replicate 0x800 0xaa)
      (codes "partition os-image base 0x40000 size 0x1c0000\n") [] refl
      (length-replicate {A = ℕ} 0x800 0xaa) one_line

found : find_board (codes "cpe210") ≡ some cpe210
unfolding find_board find_in same_caseless same_text to_lower
found = refl

find_board-Separate_example : Separate 0x2000000 0 (cpe210).partitions
find_board-Separate_example = find_board-Separate (codes "cpe210") cpe210 found

make_partition_table-find_board_example :
    (ls : List Bytes) × (flash_lines (cpe210).partitions ≡ some ls)
    × (make_partition_table heap (cpe210).partitions
        ≡ ok (record {
          name = some (codes "partition-table");
          size = 0x800;
          content = table_text ls;
        }))
    × (s : ℕ) × (flash_size (cpe210).partitions (codes "partition-table") ≡ some s)
    × (0x800 ≤ s)
make_partition_table-find_board_example =
    make_partition_table-find_board (codes "cpe210") cpe210 heap (replicate 0x800 0xaa) found refl
      (length-replicate {A = ℕ} 0x800 0xaa)
