-- ===== src/Tests/Full.antt =====
-- Runs of `build_image` of tools/tplink-safeloader/tplink-safeloader.c for the board `archer_c7_v4`, and of
-- `extract_firmware` and `convert_firmware` on what it wrote.
use safewrt.Common.{
  ℕ, ◌+◌, ◌-◌, ◌^◌, ◌<◌, ◌≡◌, refl, true, false, some, none, List, [], ◌∷◌, ◌++◌, Bytes, length,
  drop, total, replicate, length-replicate, arith, All, ltb→lt, leb→le,
}
use safewrt.Common.Outcome.{ok}
use safewrt.Common.Text.{codes, same_text, same_caseless, to_lower}
use safewrt.Common.Memory.{write}
use safewrt.Common.Words.{be32}
use safewrt.Common.Hex.{hex5, hex_onto, hex_digit}
use safewrt.Safeloader.Boards.ArcherC60.{archer_c7_v4}
use safewrt.Safeloader.Pieces.{align, bcd, fwup_line, flash_line, put_data, alloc_image_partition}
use safewrt.Safeloader.Tables.Flash.{flash_lines}
use safewrt.Safeloader.Image.Partitions.{Named, entry, bodies, image_lines, HasRoom, flash_size}
use safewrt.Safeloader.Image.Factory.{factory_image}
use safewrt.Safeloader.Build.{build_image, extra_para_part}
use safewrt.Safeloader.Build.Full.{
  extra_part, full_parts, build_image-full_parts, extract_firmware-build_image,
}
use safewrt.Safeloader.Build.ArcherC7.{convert_firmware_sysupgrade}
use safewrt.Safeloader.Unpack.{extract_firmware, convert_firmware}
use safewrt.Safeloader.Unpack.Extracted.{extracted}
use safewrt.Tests.Build.{host, lines_of}
use safewrt.Tests.Extract.{disk_with}
use mathlib.Core.Option.{get_or}

abbrev bytes : Bytes
bytes = 1 ∷ 2 ∷ 3 ∷ []

abbrev support : Bytes
support = get_or (archer_c7_v4).support_list []

abbrev soft_ver : Bytes
soft_ver = get_or (archer_c7_v4).soft_ver []

abbrev para : Bytes
para = 0x01 ∷ 0x00 ∷ 0x00 ∷ 0x02 ∷ 0x00 ∷ 0x00 ∷ 0xca ∷ 0x00 ∷ 0x01 ∷ 0x00 ∷ 0x00 ∷ []

abbrev first : Bytes
first = codes "partition factory-boot base 0x00000 size 0x20000\n"

abbrev rest : List Bytes
rest = drop 1 (lines_of (flash_lines (archer_c7_v4).partitions))

printed : flash_lines (archer_c7_v4).partitions ≡ some (first ∷ rest)
unfolding flash_lines flash_line hex5 hex_onto hex_digit
printed = refl

short : total (first ∷ rest) < 0x7fc
unfolding flash_lines flash_line hex5 hex_onto hex_digit
short = ltb→lt _ _ refl

chosen : extra_para_part host (codes "ARCHER-C7-V4") ≡ ok (entry (extra_part para))
unfolding extra_para_part same_caseless same_text to_lower put_data alloc_image_partition write
chosen = refl

abbrev parts : List Named
parts =
    full_parts host archer_c7_v4 (first ∷ rest) soft_ver support bytes bytes
      (replicate 0x10003 0xaa) para bytes

rooms : All (HasRoom (archer_c7_v4).partitions) parts
unfolding flash_size same_text flash_lines flash_line hex5 hex_onto hex_digit be32 bcd
rooms = (
  (_, refl, leb→le _ _ refl),
  (
    (_, refl, leb→le _ _ refl),
    (
      (_, refl, leb→le _ _ refl),
      (
        (_, refl, leb→le _ _ refl),
        (
          (_, refl, leb→le _ _ refl),
          (
            (_, refl, leb→le _ _ refl),
            ((_, refl, leb→le _ _ refl), ((_, refl, leb→le _ _ refl), tt)),
          ),
        ),
      ),
    ),
  ),
)

table_fits : total (image_lines 0x800 parts) < 0x800
unfolding flash_lines flash_line fwup_line hex5 hex_onto hex_digit be32 bcd
table_fits = ltb→lt _ _ refl

small : 0x1814 + total (bodies parts) < 2 ^ 32
unfolding flash_lines flash_line hex5 hex_onto hex_digit be32 bcd
small = ltb→lt _ _ refl

abbrev image : Bytes
image = factory_image (λ m. replicate 16 (length m)) none parts

build_image-full_parts_example :
    build_image host
      (codes "out")
      (codes "kernel")
      (codes "rootfs")
      (codes "genesis")
      1
      false
      false
      archer_c7_v4
    ≡ ok image
unfolding align
build_image-full_parts_example =
    build_image-full_parts host (λ k n. replicate n 0xaa) (λ k n. refl)
      (λ k n. length-replicate {A = ℕ} n 0xaa) (length-replicate {A = ℕ} 4096 0xbb) archer_c7_v4
      (codes "ARCHER-C7-V4") soft_ver para support first rest 1 (codes "kernel") (codes "rootfs")
      (codes "genesis") bytes bytes bytes refl refl (omega arith) chosen refl printed short refl
      refl refl (omega arith) (omega arith) (omega arith) (omega arith) (omega arith) rooms
      table_fits tt small (λ m. length-replicate {A = ℕ} 16 (length m)) (codes "out") false

extract_firmware-build_image_example :
    extract_firmware (disk_with image) (codes "factory.bin") (codes "out")
    ≡ ok (extracted (codes "out") parts)
unfolding align
extract_firmware-build_image_example =
    extract_firmware-build_image host (λ k n. replicate n 0xaa) (λ k n. refl)
      (λ k n. length-replicate {A = ℕ} n 0xaa) (length-replicate {A = ℕ} 4096 0xbb) archer_c7_v4
      (codes "ARCHER-C7-V4") soft_ver para support first rest 1 (codes "kernel") (codes "rootfs")
      (codes "genesis") bytes bytes bytes refl refl (omega arith) chosen refl printed short refl
      refl refl (omega arith) (omega arith) (omega arith) (omega arith) (omega arith) rooms
      table_fits tt small (λ m. length-replicate {A = ℕ} 16 (length m)) (disk_with image)
      (codes "out") (codes "factory.bin") (codes "out") image false (λ path. refl)
      (λ call size. length-replicate size call) refl refl refl refl build_image-full_parts_example

convert_firmware_sysupgrade_example :
    (upgrade_image : Bytes) × (build_image host
        (codes "out")
        (codes "kernel")
        (codes "rootfs")
        (codes "genesis")
        1
        false
        true
        archer_c7_v4
      ≡ ok upgrade_image)
    × (convert_firmware (disk_with image) (codes "factory.bin") (codes "flash.bin")
        ≡ ok (upgrade_image ++ replicate (0x4c0000 - 3) 0xff))
unfolding align
convert_firmware_sysupgrade_example =
    convert_firmware_sysupgrade host (λ k n. replicate n 0xaa) (λ k n. refl)
      (λ k n. length-replicate {A = ℕ} n 0xaa) (length-replicate {A = ℕ} 4096 0xbb) soft_ver para
      support first rest 1 (codes "kernel") (codes "rootfs") (codes "genesis") bytes bytes bytes
      refl (omega arith) chosen refl printed short refl refl refl (omega arith) (omega arith)
      (omega arith) (omega arith) (omega arith) (leb→le _ _ refl) (leb→le _ _ refl) rooms table_fits
      small (λ m. length-replicate {A = ℕ} 16 (length m)) (disk_with image) (codes "out")
      (codes "factory.bin") (codes "flash.bin") image false
      (λ call size. length-replicate size call) refl refl refl refl build_image-full_parts_example
