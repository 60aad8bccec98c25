-- ===== src/Tests/Extract.antt =====
-- Runs of the functions of tools/tplink-safeloader/tplink-safeloader.c that read and convert images.
use safewrt.Common.{
  ℕ, ◌-◌, ◌<◌, ◌≤◌, ◌≡◌, refl, some, none, true, List, [], ◌∷◌, ◌++◌, Bytes, length, total,
  replicate, length-replicate, arith, All, ltb→lt, leb→le,
}
use safewrt.Common.Outcome.{ok}
use safewrt.Common.Text.{codes, same_text, same_caseless, to_lower}
use safewrt.Common.Hex.{hex5, hex_onto, hex_digit}
use safewrt.Safeloader.Layout.{
  Slot, FlashPartition, ImagePartition, flash_row, flash_array, row, last_row,
}
use safewrt.Safeloader.Boards.Cpe.{cpe210}
use safewrt.Safeloader.Pieces.{fwup_line, flash_line, make_partition_table}
use safewrt.Safeloader.Tables.Flash.{flash_lines, make_partition_table_lem, table_text}
use safewrt.Safeloader.Image.Partitions.{Named, HasRoom, image_lines, flash_size}
use safewrt.Safeloader.Image.Factory.{factory_image, generate_factory_image_lem}
use safewrt.Safeloader.Build.{find_board, find_in}
use safewrt.Safeloader.Extract.{read_partition_table}
use safewrt.Safeloader.Extract.Formats.{slots_of}
use safewrt.Safeloader.Extract.Printed.{read_partition_table-make_partition_table}
use safewrt.Safeloader.Extract.Boards.{read_partition_table-find_board}
use safewrt.Safeloader.Extract.Answers.{Answers, read_partition_table-Answers}
use safewrt.Safeloader.Unpack.{Disk, fresh, fwrite, write_partition, convert_firmware}
use safewrt.Safeloader.Unpack.Chunks.{write_partition_lem}
use safewrt.Safeloader.Unpack.Extracted.{IsName}
use safewrt.Safeloader.Unpack.Convert.{slot_named, named_at, padded}
use safewrt.Safeloader.Unpack.Converted.{convert_firmware-generate_factory_image}
use safewrt.Tests.Image.{heap, kernel, rootfs, checksum}

abbrev pub disk_with : Bytes → Disk
disk_with image = record {
  exists = λ path. true;
  is_directory = λ path. some true;
  open_input = λ path. some image;
  can_create = λ path. true;
  stack = λ call size. replicate size call;
}

abbrev pub image : Bytes
image = factory_image checksum (some (codes "CPE")) (kernel ∷ rootfs ∷ [])

pub names : All IsName (kernel ∷ rootfs ∷ [])
names = ((refl, omega arith), ((refl, omega arith), tt))

-- The table of a board.
found : find_board (codes "cpe210") ≡ some cpe210
unfolding find_board find_in same_caseless same_text to_lower
found = refl

abbrev first_line : Bytes
first_line = codes "partition fs-uboot base 0x00000 size 0x20000\n"

abbrev more_lines : List Bytes
more_lines =
    codes "partition partition-table base 0x20000 size 0x02000\n"
    ∷ codes "partition default-mac base 0x30000 size 0x00020\n"
    ∷ codes "partition product-info base 0x31100 size 0x00100\n"
    ∷ codes "partition signature base 0x32000 size 0x00400\n"
    ∷ codes "partition os-image base 0x40000 size 0x1c0000\n"
    ∷ codes "partition file-system base 0x200000 size 0x5b0000\n"
    ∷ codes "partition soft-version base 0x7b0000 size 0x00100\n"
    ∷ codes "partition support-list base 0x7b1000 size 0x00400\n"
    ∷ codes "partition user-config base 0x7c0000 size 0x10000\n"
    ∷ codes "partition default-config base 0x7d0000 size 0x10000\n"
    ∷ codes "partition log base 0x7e0000 size 0x10000\n"
    ∷ codes "partition radio base 0x7f0000 size 0x10000\n"
    ∷ []

cpe210_lines : flash_lines (cpe210).partitions ≡ some (first_line ∷ more_lines)
unfolding flash_lines flash_line hex5 hex_onto hex_digit
cpe210_lines = refl

abbrev table : Named
table = record { label = codes "partition-table"; body = table_text (first_line ∷ more_lines) }

abbrev made : ImagePartition
made = record {
  name = some (codes "partition-table");
  size = 0x800;
  content = table_text (first_line ∷ more_lines);
}

table_made : make_partition_table heap (cpe210).partitions ≡ ok made
table_made =
    make_partition_table_lem heap (cpe210).partitions (replicate 0x800 0xaa) first_line more_lines
      refl (length-replicate {A = ℕ} 0x800 0xaa) cpe210_lines

abbrev parts : List Named
parts = table ∷ kernel ∷ rootfs ∷ []

parts_fit : All (HasRoom (cpe210).partitions) parts
unfolding flash_size same_text
parts_fit = (
  (0x2000, refl, leb→le _ _ refl),
  ((0x1c0000, refl, leb→le _ _ refl), ((0x5b0000, refl, leb→le _ _ refl), tt)),
)

lines_fit : total (image_lines 0x800 parts) < 0x800
unfolding fwup_line hex5 hex_onto hex_digit
lines_fit = ltb→lt _ _ refl

abbrev cpe_image : Bytes
cpe_image = factory_image checksum (cpe210).vendor parts

parts_named : All IsName parts
parts_named = ((refl, leb→le _ _ refl), names)

kernel_at : named_at 0x800 parts (codes "os-image") ≡ some (0x1000, kernel)
unfolding named_at same_text
kernel_at = refl

rootfs_at : named_at 0x800 parts (codes "file-system") ≡ some (0x1003, rootfs)
unfolding named_at same_text
rootfs_at = refl

table_at : named_at 0x800 parts (codes "partition-table") ≡ some (0x800, table)
unfolding named_at same_text
table_at = refl

vendor_fits : length (codes "CPE510(TP-LINK|UN|N300-5):1.0\r\n") ≤ 0xffc
vendor_fits = leb→le _ _ refl

convert_firmware-generate_factory_image_example :
    (rs : List Slot) × (fos : Slot) × (ffs : Slot) × (slots_of (cpe210).partitions ≡ some rs)
    × (slot_named rs (codes "os-image") ≡ some fos)
    × (slot_named rs (codes "file-system") ≡ some ffs)
    × (convert_firmware (disk_with cpe_image) (codes "factory.bin") (codes "out.bin")
        ≡ ok (
            padded (1 ∷ 2 ∷ 3 ∷ []) fos.size
            ++ (replicate (ffs.base - fos.base - fos.size) 0 ++ padded (4 ∷ []) ffs.size)))
convert_firmware-generate_factory_image_example =
    convert_firmware-generate_factory_image checksum (λ m. refl) heap (codes "cpe210") cpe210 table
      (kernel ∷ rootfs ∷ []) [] (replicate 0x2018 0xaa) found parts_fit lines_fit vendor_fits
      (ltb→lt _ _ refl) refl (length-replicate {A = ℕ} 0x2018 0xaa) parts_named (omega arith) 0x1000
      0x1003 0x800 kernel rootfs table kernel_at rootfs_at table_at heap (replicate 0x800 0xaa) made
      refl (length-replicate {A = ℕ} 0x800 0xaa) table_made refl (disk_with cpe_image)
      (λ call size. length-replicate size call) (codes "factory.bin") (codes "out.bin") cpe_image
      refl refl refl
      (generate_factory_image_lem checksum (λ m. refl) heap cpe210 table (kernel ∷ rootfs ∷ []) []
        (replicate 0x2018 0xaa) parts_fit lines_fit vendor_fits (ltb→lt _ _ refl) refl
        (length-replicate {A = ℕ} 0x2018 0xaa))

read_partition_table-find_board_example :
    (rs : List Slot) × (slots_of (cpe210).partitions ≡ some rs)
    × (length rs ≤ 32)
    × (read_partition_table
          (made.content ++ (7 ∷ []))
          4
          (replicate 2048 0)
          (replicate 32 last_row)
          1
        ≡ ok (0, flash_array rs (replicate (32 - length rs) last_row)))
read_partition_table-find_board_example =
    read_partition_table-find_board (codes "cpe210") cpe210 heap (replicate 0x800 0xaa) made
      (made.content ++ (7 ∷ [])) (7 ∷ []) (replicate 2048 0) 0 found refl
      (length-replicate {A = ℕ} 0x800 0xaa) table_made refl (length-replicate {A = ℕ} 2048 0)

abbrev small_slot : Slot
small_slot = record { label = codes "os-image"; base = 0x40000; size = 0x1c0000 }

abbrev small_made : ImagePartition
small_made = record {
  name = some (codes "partition-table");
  size = 0x800;
  content = table_text (codes "partition os-image base 0x40000 size 0x1c0000\n" ∷ []);
}

abbrev small_table : List FlashPartition
small_table = row "os-image" 0x40000 0x1c0000 ∷ last_row ∷ []

small_lines :
    flash_lines small_table ≡ some (codes "partition os-image base 0x40000 size 0x1c0000\n" ∷ [])
unfolding flash_lines flash_line hex5 hex_onto hex_digit
small_lines = refl

small_slots : slots_of small_table ≡ some (small_slot ∷ [])
unfolding slots_of
small_slots = refl

read_partition_table-make_partition_table_example :
    read_partition_table
      (small_made.content ++ (7 ∷ []))
      4
      (replicate 2048 0)
      (replicate 3 last_row)
      1
    ≡ ok (0, flash_row small_slot ∷ last_row ∷ last_row ∷ [])
read_partition_table-make_partition_table_example =
    read_partition_table-make_partition_table heap small_table (replicate 0x800 0xaa) small_slot []
      refl (length-replicate {A = ℕ} 0x800 0xaa) small_slots small_made
      (small_made.content ++ (7 ∷ [])) (7 ∷ []) (replicate 2048 0) 0 3 2
      (make_partition_table_lem heap small_table (replicate 0x800 0xaa)
        (codes "partition os-image base 0x40000 size 0x1c0000\n") [] refl
        (length-replicate {A = ℕ} 0x800 0xaa) small_lines)
      ((refl, omega arith, omega arith, omega arith), tt) refl (length-replicate {A = ℕ} 2048 0)
      refl

read_partition_table-Answers_example :
    Answers 3
      (read_partition_table (codes "partition x") 0 (replicate 2048 0) (replicate 3 last_row) 1)
read_partition_table-Answers_example =
    read_partition_table-Answers (codes "partition x") 0 (replicate 2048 0) (replicate 3 last_row) 1
      (length-replicate {A = ℕ} 2048 0)

write_partition_example :
    write_partition [] (1 ∷ 2 ∷ 3 ∷ 4 ∷ []) 1 (record { name = none; base = 1; size = 2 }) fresh
    ≡ fwrite fresh (3 ∷ 4 ∷ [])
write_partition_example =
    write_partition_lem [] (1 ∷ 2 ∷ 3 ∷ 4 ∷ []) 1 (record { name = none; base = 1; size = 2 }) fresh
      (omega arith)
