-- ===== src/Tests/Build.antt =====
-- A run of `build_image` of tools/tplink-safeloader/tplink-safeloader.c for the board CPE210.
use safewrt.Common.{
  ℕ, ◌+◌, ◌^◌, ◌<◌, ◌≡◌, refl, true, false, Option, none, some, List, [], ◌∷◌, Bytes, length, drop,
  total, replicate, length-replicate, arith, All, ltb→lt,
}
use safewrt.Common.Outcome.{ok}
use safewrt.Common.Text.{codes, same_text, same_caseless, to_lower}
use safewrt.Common.Words.{be32}
use safewrt.Common.Hex.{hex5, hex_onto, hex_digit}
use safewrt.Safeloader.Layout.{no_partition}
use safewrt.Safeloader.Boards.Cpe.{cpe210}
use safewrt.Safeloader.Pieces.{Tm, align, bcd, fwup_line, flash_line}
use safewrt.Safeloader.Tables.Flash.{flash_lines}
use safewrt.Safeloader.Image.Partitions.{Named, bodies, image_lines, HasRoom, flash_size}
use safewrt.Safeloader.Image.Factory.{factory_image}
use safewrt.Safeloader.Build.{Host, build_image, extra_para_part}
use safewrt.Safeloader.Build.Parts.{table_part, version_part, support_part, os_part}
use safewrt.Safeloader.Build.Whole.{build_image_lem, convert_firmware_faults}
use safewrt.Common.Outcome.{stop, faults}
use safewrt.Safeloader.Unpack.{convert_firmware}
use safewrt.Tests.Extract.{disk_with}
use mathlib.Core.Option.{get_or}

abbrev day : Tm
day = record { tm_year = 118; tm_mon = 10; tm_mday = 25 }

abbrev pub host : Host
host = record {
  md5 = λ m. replicate 16 (length m);
  malloc = λ k n. some (replicate n 0xaa);
  localtime = λ t. some day;
  source_date_epoch = none;
  time = some 7;
  files = λ path. some (1 ∷ 2 ∷ 3 ∷ []);
  can_create = λ path. true;
  mdat = replicate 4096 0xbb;
}

abbrev pub lines_of : Option (List Bytes) → List Bytes
lines_of none = []
lines_of (some ls) = ls

abbrev support : Bytes
support = get_or (cpe210).support_list []

abbrev first : Bytes
first = codes "partition fs-uboot base 0x00000 size 0x20000\n"

abbrev rest : List Bytes
rest = drop 1 (lines_of (flash_lines (cpe210).partitions))

printed : flash_lines (cpe210).partitions ≡ some (first ∷ rest)
unfolding flash_lines flash_line hex5 hex_onto hex_digit
printed = refl

short : total (first ∷ rest) < 0x7fc
unfolding flash_lines flash_line hex5 hex_onto hex_digit
short = ltb→lt _ _ refl

plain : extra_para_part host (codes "CPE210") ≡ ok no_partition
unfolding extra_para_part same_caseless same_text to_lower
plain = refl

abbrev files_part : Named
files_part = os_part (1 ∷ 2 ∷ 3 ∷ []) (1 ∷ 2 ∷ 3 ∷ []) (replicate 0x10003 0xaa)

abbrev parts : List Named
parts =
    table_part (first ∷ rest)
    ∷ version_part day 1
    ∷ support_part support (cpe210).support_trail
    ∷ files_part
    ∷ []

rooms : All (HasRoom (cpe210).partitions) parts
unfolding flash_size same_text flash_lines flash_line hex5 hex_onto hex_digit be32 bcd
rooms = (
  (_, refl, ltb→lt _ _ refl),
  ((_, refl, omega arith), ((_, refl, omega arith), ((_, refl, omega arith), tt))),
)

table_fits : total (image_lines 0x800 parts) < 0x800
unfolding flash_lines flash_line fwup_line hex5 hex_onto hex_digit be32 bcd
table_fits = ltb→lt _ _ refl

small : 0x1814 + total (bodies parts) < 2 ^ 32
unfolding flash_lines flash_line hex5 hex_onto hex_digit be32 bcd
small = ltb→lt _ _ refl

abbrev written : Bytes
written = factory_image (λ m. replicate 16 (length m)) (cpe210).vendor parts

build_image_example :
    build_image host
      (codes "out")
      (codes "kernel")
      (codes "rootfs")
      (codes "genesis")
      1
      false
      false
      cpe210
    ≡ ok (factory_image (λ m. replicate 16 (length m)) (cpe210).vendor parts)
unfolding align
build_image_example =
    build_image_lem host (λ k n. replicate n 0xaa) (λ k n. refl)
      (λ k n. length-replicate {A = ℕ} n 0xaa) (length-replicate {A = ℕ} 4096 0xbb) cpe210
      (codes "CPE210") support first rest 7 1 day (codes "kernel") (codes "rootfs")
      (codes "genesis") (1 ∷ 2 ∷ 3 ∷ []) (1 ∷ 2 ∷ 3 ∷ []) (1 ∷ 2 ∷ 3 ∷ []) refl plain refl refl
      printed short refl refl refl refl refl (omega arith) (omega arith) (omega arith) (omega arith)
      (omega arith) rooms table_fits (omega arith) small
      (λ m. length-replicate {A = ℕ} 16 (length m)) (codes "out") false

convert_firmware_faults_example :
    convert_firmware (disk_with written) (codes "factory.bin") (codes "flash.bin") ≡ stop faults
unfolding align
convert_firmware_faults_example =
    convert_firmware_faults host (λ k n. replicate n 0xaa) (λ k n. refl)
      (λ k n. length-replicate {A = ℕ} n 0xaa) (length-replicate {A = ℕ} 4096 0xbb) cpe210
      (codes "CPE210") support first rest 7 1 day (codes "kernel") (codes "rootfs")
      (codes "genesis") (1 ∷ 2 ∷ 3 ∷ []) (1 ∷ 2 ∷ 3 ∷ []) (1 ∷ 2 ∷ 3 ∷ []) refl plain refl refl
      printed short refl refl refl refl refl (omega arith) (omega arith) (omega arith) (omega arith)
      (omega arith) rooms table_fits (omega arith) small
      (λ m. length-replicate {A = ℕ} 16 (length m)) (disk_with written) (codes "out")
      (codes "factory.bin") (codes "flash.bin") written false
      (λ call size. length-replicate size call) refl refl refl refl build_image_example
