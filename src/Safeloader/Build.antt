-- ===== src/Safeloader/Build.antt =====
-- `build_image` and `find_board` of tools/tplink-safeloader/tplink-safeloader.c.
pub mod Boards
pub mod Parts
pub mod Array
pub mod Whole
pub mod Full
pub mod Refused
pub mod ArcherC7
use safewrt.Common.{
  ℕ, Bool, false, not, length, ◌==◌, ◌||◌, Option, none, some, List, [], ◌∷◌, ◌++◌, Bytes,
  if◌then◌else◌,
}
use safewrt.Common.Outcome.{Outcome, ok, exits, faults, ◌>>=◌, ◌>>◌, guard, need}
use safewrt.Common.Memory.{write, fill}
use safewrt.Common.Text.{codes, same_caseless}
use safewrt.Safeloader.Layout.{ImagePartition, DeviceInfo, no_partition}
use safewrt.Safeloader.Boards.{boards}
use safewrt.Safeloader.Pieces.{
  Malloc, Tm, make_partition_table, make_soft_version, make_soft_version_from_string,
  make_support_list, put_data,
}
use safewrt.Safeloader.Files.{FileSystem, read_file, read_file_split2}
use safewrt.Safeloader.Image.{generate_factory_image, generate_sysupgrade_image}

-- What the tool finds on the machine that runs it: the answers of the calls of `malloc` by their
-- number, the clock, the environment variable, the files, which paths can be opened for writing
-- and take what is written (a failed `fopen` and a failed `fwrite` both end in `exits 1`), and what
-- stood in the array `mdat` before it was set.
pub record Host : Type 0 where
  pub md5 : Bytes → Bytes
  pub malloc : ℕ → Malloc
  pub localtime : ℕ → Option Tm
  pub source_date_epoch : Option ℕ
  pub time : Option ℕ
  pub files : FileSystem
  pub can_create : Bytes → Bool
  pub mdat : Bytes

-- `parts[1]`
unfoldable pub soft_version_part : Host → DeviceInfo → ℕ → Outcome ImagePartition
soft_version_part host info rev = elim info.soft_ver [
  | some soft_ver ↦ make_soft_version_from_string (host.malloc 1) soft_ver
  | none ↦ make_soft_version (host.malloc 1) host.localtime host.source_date_epoch host.time rev
]

-- `parts[4]`, which stays as it was where the board has no such partition
unfoldable pub extra_para_part : Host → Bytes → Outcome ImagePartition
extra_para_part host id =
    if same_caseless id (codes "ARCHER-C25-V1")
      || same_caseless id (codes "ARCHER-C60-V2")
      || same_caseless id (codes "TLWR1043NV5")
    then put_data (host.malloc 4) (codes "extra-para")
        (0x00 ∷ 0x00 ∷ 0x00 ∷ 0x02 ∷ 0x00 ∷ 0x00 ∷ 0x00 ∷ 0x00 ∷ 0x01 ∷ 0x00 ∷ 0x00 ∷ []) 11
    else if same_caseless id (codes "ARCHER-C7-V4") || same_caseless id (codes "ARCHER-C7-V5")
    then put_data (host.malloc 4) (codes "extra-para")
        (0x01 ∷ 0x00 ∷ 0x00 ∷ 0x02 ∷ 0x00 ∷ 0x00 ∷ 0xca ∷ 0x00 ∷ 0x01 ∷ 0x00 ∷ 0x00 ∷ []) 11
    else ok no_partition

-- The array `parts[9]`, whose last entry is never set.
unfoldable pub make_parts :
    Host → Bytes → Bytes → Bytes → ℕ → DeviceInfo → Outcome (List ImagePartition)
make_parts host kernel_image rootfs_image genesis_image rev info = do
  part0 ← make_partition_table (host.malloc 0) info.partitions
  part1 ← soft_version_part host info rev
  part2 ← make_support_list (host.malloc 2) info
  part3 ←
      read_file_split2 host.files (host.malloc 3) (codes "os-image") kernel_image rootfs_image false
  id ← need info.id faults
  part4 ← extra_para_part host id
  random ← write host.mdat 0 (codes "here should be lots of high quality randomness" ++ (0 ∷ []))
  part5 ← put_data (host.malloc 5) (codes "identity") random 4096
  cleared ← fill random 0 0 1024
  system ←
      write cleared 0
        (codes "here should be a file system? no idea what to use this for yet" ++ (0 ∷ []))
  part6 ← put_data (host.malloc 6) (codes "sysconf") system 1024
  part7 ← read_file host.files (host.malloc 7) (codes "file-system") genesis_image false
  ok (part0 ∷ part1 ∷ part2 ∷ part3 ∷ part4 ∷ part5 ∷ part6 ∷ part7 ∷ no_partition ∷ [])

-- Generates an image according to a given layout: the bytes that are written to `output`. The
-- flag `add_jffs2_eof` of the source is not read there.
unfoldable pub build_image :
    Host → Bytes → Bytes → Bytes → Bytes → ℕ → Bool → Bool → DeviceInfo → Outcome Bytes
build_image host output kernel_image rootfs_image genesis_image rev add_jffs2_eof sysupgrade info =
    do
      parts ← make_parts host kernel_image rootfs_image genesis_image rev info
      image ←
          (if sysupgrade
            then generate_sysupgrade_image (host.malloc 8) info parts
            else generate_factory_image host.md5 (host.malloc 8) info parts)
      guard (host.can_create output) (exits 1)
      guard (not (length image == 0)) (exits 1)
      ok image

-- The loop of `find_board` over the array from one board on.
unfoldable pub find_in : List DeviceInfo → Bytes → Option DeviceInfo
find_in [] id = none
find_in (board ∷ rest) id = elim board.id [
  | none ↦ none
  | some name ↦ if same_caseless id name then some board else find_in rest id
]

unfoldable pub find_board : Bytes → Option DeviceInfo
find_board = find_in boards
