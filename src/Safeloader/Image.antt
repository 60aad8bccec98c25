-- ===== src/Safeloader/Image.antt =====
-- The functions of tools/tplink-safeloader/tplink-safeloader.c that put image partitions together:
-- `put_partitions`, `put_md5`, `generate_factory_image` and `generate_sysupgrade_image`. The MD5 of
-- tools/tplink-safeloader/md5.c is a parameter.
pub mod Partitions
pub mod Blank
pub mod Factory
pub mod Refused
pub mod Places
pub mod Sysupgrade
pub mod Copying
pub mod Upgrade
use safewrt.Common.{
  ℕ, zero, suc, ◌+◌, ◌-◌, ◌%◌, ◌^◌, not, Option, none, some, List, [], ◌∷◌, ◌++◌, Bytes, length,
  take, drop, replicate, ltb, leb, if◌then◌else◌,
}
use safewrt.Common.Outcome.{Outcome, ok, stop, exits, aborts, faults, ◌>>=◌, ◌>>◌, guard, need}
use safewrt.Common.Memory.{write}
use safewrt.Common.Text.{same_text}
use safewrt.Safeloader.Layout.{ImagePartition, FlashPartition, DeviceInfo}
use safewrt.Safeloader.Pieces.{Malloc, put32, print_line, fwup_line}

-- The search for the flash partition of an image partition. On a match the size is tested; at the
-- end of the table `assert(flash_parts[j].name)` fails.
unfoldable pub check_flash : List FlashPartition → Bytes → ℕ → Outcome (Unit {0})
check_flash [] name size = stop faults
check_flash (p ∷ ps) name size = elim p.name [
  | none ↦ stop aborts
  | some n ↦
      if same_text n name then guard (not (ltb p.size size)) (exits 1) else check_flash ps name size
]

-- `memcpy(buf + at, part.data, part.size)`
unfoldable pub copy_part : Bytes → ℕ → ImagePartition → Outcome Bytes
copy_part buf at part = do
  guard (leb part.size (length part.content)) faults
  write buf at (take part.size part.content)

-- The loop of `put_partitions` from one partition on.
unfoldable pub put_loop : List ImagePartition → List FlashPartition → Bytes → ℕ → ℕ → Outcome Bytes
put_loop [] flash buffer image_pt base = stop faults
put_loop (part ∷ parts) flash buffer image_pt base = elim part.name [
  | none ↦ ok buffer
  | some name ↦ do
    check_flash flash name part.size
    copied ← copy_part buffer base part
    (printed, next) ← print_line copied image_pt 0x800 (fwup_line name base part.size)
    put_loop parts flash printed next (base + part.size)
]

-- Copies a list of image partitions into an image buffer and generates the image partition table
unfoldable pub put_partitions : Bytes → List FlashPartition → List ImagePartition → Outcome Bytes
put_partitions buffer flash_parts parts = put_loop parts flash_parts buffer 0 0x800

abbrev pub md5_salt : Bytes
md5_salt =
    0x7a ∷ 0x2b ∷ 0x15 ∷ 0xed ∷ 0x9b ∷ 0x98 ∷ 0x59 ∷ 0x6d ∷ 0xe5 ∷ 0x04 ∷ 0xab ∷ 0x44 ∷ 0xac ∷ 0x2a
    ∷ 0x9f ∷ 0x4e ∷ []

-- Generates and writes the image MD5 checksum: `put_md5(image + 0x04, image + 0x14, len)`, where
-- `len` is an `unsigned int`.
unfoldable pub put_md5 : (Bytes → Bytes) → Bytes → ℕ → Outcome Bytes
put_md5 md5 image len = write image 0x04 (md5 (md5_salt ++ take (len % 2 ^ 32) (drop 0x14 image)))

-- `*len = 0x1814` and the sizes added to it
unfoldable pub image_size : List ImagePartition → ℕ → Outcome ℕ
image_size [] len = stop faults
image_size (part ∷ parts) len = elim part.name [
  | none ↦ ok len
  | some _ ↦ image_size parts ((len + part.size) % 2 ^ 64)
]

unfoldable pub put_vendor : Option Bytes → Bytes → Outcome Bytes
put_vendor none image = ok image
put_vendor (some vendor) image = do
  sized ← put32 image 0x14 (length vendor)
  write sized 0x18 vendor

-- Generates the firmware image in factory format
unfoldable pub generate_factory_image :
    (Bytes → Bytes) → Malloc → DeviceInfo → List ImagePartition → Outcome Bytes
generate_factory_image md5 malloc info parts = do
  len ← image_size parts 0x1814
  block ← need (malloc len) (exits 1)
  blank ← write block 0 (replicate len 0xff)
  sized ← put32 blank 0 len
  vendored ← put_vendor info.vendor sized
  rest ← put_partitions (drop 0x1014 vendored) info.partitions parts
  put_md5 md5 (take 0x1014 vendored ++ rest) (len - 0x14)

-- The table entries of the two names, each with its index: the last match counts.
pub record Ends : Type 0 where
  pub first : Option (ℕ × FlashPartition)
  pub last : Option (ℕ × FlashPartition)

unfoldable pub find_ends : List FlashPartition → Bytes → Bytes → ℕ → Ends → Outcome Ends
find_ends [] first_name last_name i ends = stop faults
find_ends (p ∷ ps) first_name last_name i ends = elim p.name [
  | none ↦ ok ends
  | some name ↦ find_ends ps first_name last_name (i + 1) (
      if same_text name first_name
      then record ends { first = some (i, p) }
      else if same_text name last_name
      then record ends { last = some (i, p) }
      else ends)
]

-- The image partition of a name: a failed search fails `assert(image_last_partition)`.
unfoldable pub find_image : List ImagePartition → Bytes → Outcome ImagePartition
find_image [] wanted = stop faults
find_image (part ∷ parts) wanted = elim part.name [
  | none ↦ stop aborts
  | some name ↦ if same_text name wanted then ok part else find_image parts wanted
]

-- The inner loop of the copying: the first image partition of this flash partition's name. The
-- `assert` in it repeats the loop's own test.
unfoldable pub copy_matching :
    List ImagePartition → FlashPartition → Bytes → ℕ → Bytes → Outcome Bytes
copy_matching [] p name first_base image = stop faults
copy_matching (part ∷ parts) p name first_base image = elim part.name [
  | none ↦ ok image
  | some n ↦
      if same_text name n
      then (do
        guard (not (ltb p.size part.size)) (exits 1)
        guard (leb first_base p.base) faults
        copy_part image (p.base - first_base) part)
      else copy_matching parts p name first_base image
]

-- The outer loop over `rounds` flash partitions.
unfoldable pub copy_range :
    ℕ → List FlashPartition → List ImagePartition → ℕ → Bytes → Outcome Bytes
copy_range zero ps parts first_base image = ok image
copy_range (suc rounds) [] parts first_base image = stop faults
copy_range (suc rounds) (p ∷ ps) parts first_base image = do
  name ← need p.name faults
  copied ← copy_matching parts p name first_base image
  copy_range rounds ps parts first_base copied

-- Generates the firmware image in sysupgrade format
unfoldable pub generate_sysupgrade_image : Malloc → DeviceInfo → List ImagePartition → Outcome Bytes
generate_sysupgrade_image malloc info parts = do
  first_name ← need info.first_sysupgrade_partition faults
  last_name ← need info.last_sysupgrade_partition faults
  ends ← find_ends info.partitions first_name last_name 0 (record { first = none; last = none })
  (i, first) ← need ends.first aborts
  (j, last) ← need ends.last aborts
  guard (ltb i j) aborts
  last_part ← find_image parts last_name
  let len = ((last.base + 2 ^ 32 - first.base) % 2 ^ 32 + last_part.size) % 2 ^ 64
  block ← need (malloc len) (exits 1)
  blank ← write block 0 (replicate len 0xff)
  copy_range (j + 1 - i) (drop i info.partitions) parts first.base blank
