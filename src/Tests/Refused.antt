-- ===== src/Tests/Refused.antt =====
-- Runs of `build_image` of tools/tplink-safeloader/tplink-safeloader.c for the board `archer_c7_v5`, which has
-- no identity partition.
use safewrt.Common.{
  ℕ, ◌+◌, ◌^◌, ◌<◌, ◌≡◌, refl, true, false, some, none, List, [], ◌∷◌, ◌++◌, Bytes, drop, total,
  replicate, length-replicate, arith, All, ltb→lt, leb→le,
}
use safewrt.Common.Outcome.{ok, stop, aborts}
use safewrt.Common.Text.{codes, same_text, same_caseless, to_lower}
use safewrt.Common.Memory.{write}
use safewrt.Common.Words.{be32}
use safewrt.Common.Hex.{hex5, hex_onto, hex_digit}
use safewrt.Safeloader.Boards.ArcherC7.{archer_c7_v5}
use safewrt.Safeloader.Pieces.{
  align, bcd, fwup_line, flash_line, put_data, alloc_image_partition, put32,
  make_soft_version_from_string,
}
use safewrt.Safeloader.Tables.Flash.{flash_lines}
use safewrt.Safeloader.Image.Partitions.{
  Named, entry, bodies, image_lines, HasRoom, flash_size, ends,
}
use safewrt.Safeloader.Build.{build_image, extra_para_part}
use safewrt.Safeloader.Build.{soft_version_part}
use safewrt.Safeloader.Build.Parts.{named_version_part}
use safewrt.Safeloader.Build.Full.{extra_part}
use safewrt.Safeloader.Build.Refused.{front_parts, back_parts, build_image-aborts}
use safewrt.Tests.Build.{host, lines_of}
use mathlib.Core.Option.{get_or}

abbrev bytes : Bytes
bytes = 1 ∷ 2 ∷ 3 ∷ []

abbrev support : Bytes
support = get_or (archer_c7_v5).support_list []

abbrev soft_ver : Bytes
soft_ver = get_or (archer_c7_v5).soft_ver []

abbrev para : Bytes
para = 0x01 ∷ 0x00 ∷ 0x00 ∷ 0x02 ∷ 0x00 ∷ 0x00 ∷ 0xca ∷ 0x00 ∷ 0x01 ∷ 0x00 ∷ 0x00 ∷ []

abbrev first : Bytes
first = codes "partition factory-boot base 0x00000 size 0x20000\n"

abbrev rest : List Bytes
rest = drop 1 (lines_of (flash_lines (archer_c7_v5).partitions))

printed : flash_lines (archer_c7_v5).partitions ≡ some (first ∷ rest)
unfolding flash_lines flash_line hex5 hex_onto hex_digit
printed = refl

short : total (first ∷ rest) < 0x7fc
unfolding flash_lines flash_line hex5 hex_onto hex_digit
short = ltb→lt _ _ refl

chosen : extra_para_part host (codes "ARCHER-C7-V5") ≡ ok (entry (extra_part para))
unfolding extra_para_part same_caseless same_text to_lower put_data alloc_image_partition write
chosen = refl

abbrev parts : List Named
parts =
    front_parts archer_c7_v5 (first ∷ rest) (named_version_part soft_ver) support bytes bytes
      (replicate 0x10003 0xaa) (extra_part para)

versioned : soft_version_part host archer_c7_v5 1 ≡ ok (entry (named_version_part soft_ver))
unfolding soft_version_part make_soft_version_from_string alloc_image_partition write be32 put32
versioned = refl

rooms : All (HasRoom (archer_c7_v5).partitions) parts
unfolding flash_size same_text flash_lines flash_line hex5 hex_onto hex_digit be32 bcd
rooms = (
  (_, refl, leb→le _ _ refl),
  (
    (_, refl, leb→le _ _ refl),
    ((_, refl, leb→le _ _ refl), ((_, refl, leb→le _ _ refl), ((_, refl, leb→le _ _ refl), tt))),
  ),
)

table_fits : total (image_lines 0x800 parts) < 0x800
unfolding flash_lines flash_line fwup_line hex5 hex_onto hex_digit be32 bcd
table_fits = ltb→lt _ _ refl

small : 0x1814 + total (bodies (parts ++ back_parts host bytes)) < 2 ^ 32
unfolding flash_lines flash_line hex5 hex_onto hex_digit be32 bcd
small = ltb→lt _ _ refl

no_identity : flash_size (archer_c7_v5).partitions (codes "identity") ≡ none
unfolding flash_size same_text
no_identity = refl

ends_there : ends (archer_c7_v5).partitions ≡ true
unfolding ends
ends_there = refl

build_image-aborts_example :
    build_image host
      (codes "out")
      (codes "kernel")
      (codes "rootfs")
      (codes "genesis")
      1
      false
      false
      archer_c7_v5
    ≡ stop aborts
unfolding align
build_image-aborts_example =
    build_image-aborts host (λ k n. replicate n 0xaa) (λ k n. refl)
      (λ k n. length-replicate {A = ℕ} n 0xaa) (length-replicate {A = ℕ} 4096 0xbb) archer_c7_v5
      (codes "ARCHER-C7-V5") support first rest 1 (codes "kernel") (codes "rootfs")
      (codes "genesis") bytes bytes bytes (named_version_part soft_ver) (extra_part para) refl
      versioned chosen refl printed short refl refl refl (omega arith) (omega arith) (omega arith)
      (omega arith) (omega arith) (codes "out") false tt small ends_there rooms table_fits
      no_identity
