-- ===== src/Safeloader/Unpack/Missing.antt =====
-- `convert_firmware` of tools/tplink-safeloader/tplink-safeloader.c on an image that has no file-system
-- partition: the search goes on to a free entry, whose name is a null pointer.
use safewrt.Common.{
  ℕ, suc, ◌+◌, ◌-◌, ◌^◌, ◌<◌, ◌≡◌, refl, true, none, Option, some, List, [], ◌∷◌, All, Bytes,
  length, total, replicate, arith, Bool-cases, inl, inr,
}
use safewrt.Common.Outcome.{stop, faults}
use safewrt.Common.Text.{codes, same_text}
use safewrt.Safeloader.Layout.{flash_array, last_row}
use safewrt.Safeloader.Image.Partitions.{Named, bodies, image_lines}
use safewrt.Safeloader.Image.Blank.{VendorFits}
use safewrt.Safeloader.Image.Factory.{factory_image}
use safewrt.Safeloader.Extract.Formats.{image_slots}
use safewrt.Safeloader.Unpack.{Disk, find_partition, convert_firmware}
use safewrt.Safeloader.Unpack.Extracted.{IsName, read_partition_table-factory_image}
use safewrt.Safeloader.Unpack.Found.{slot}
use safewrt.Safeloader.Unpack.Convert.{find_partition-slot_named, named_at, slot_named-image_slots}

find_partition_missing :
    (ns : List Named) (base k : ℕ) (name : Bytes)
    → named_at base ns name ≡ none
    → find_partition (flash_array (image_slots base ns) (replicate (suc k) last_row)) name
      ≡ stop faults
unfolding find_partition named_at
find_partition_missing [] base k name h = refl
find_partition_missing (n ∷ ns) base k name h = elim (Bool-cases (same_text n.label name)) [
  | inl same ↦ absurd (never (rw same at h))
  | inr other ↦ rw other (find_partition_missing ns (base + length n.body) k name (rw other at h))
]
  where
    never : ◌≡◌ {A = Option (ℕ × Named)} (some (base, n)) none → ⊥
    never e = cc

pub convert_firmware_missing :
    (md5 : Bytes → Bytes) (vendor : Option Bytes) (n : Named) (ns : List Named) (os_at : ℕ)
    (os : Named) (disk : Disk) (input output : Bytes)
    → ((m : Bytes) → length (md5 m) ≡ 16)
    → VendorFits vendor
    → total (image_lines 0x800 (n ∷ ns)) < 0x800
    → All IsName (n ∷ ns)
    → 0x800 + total (bodies (n ∷ ns)) < 2 ^ 32
    → length (n ∷ ns) < 32
    → named_at 0x800 (n ∷ ns) (codes "os-image") ≡ some (os_at, os)
    → named_at 0x800 (n ∷ ns) (codes "file-system") ≡ none
    → ((call size : ℕ) → length (disk.stack call size) ≡ size)
    → disk.exists input ≡ true
    → disk.open_input input ≡ some (factory_image md5 vendor (n ∷ ns))
    → disk.can_create output ≡ true
    → convert_firmware disk input output ≡ stop faults
unfolding convert_firmware
convert_firmware_missing md5 vendor n ns os_at os disk input output md5_length hv hl hn hw h32 hos
      hfs buffers he ho hc =
    rw
      (
        he,
        ho,
        hc,
        read_partition_table-factory_image md5 md5_length vendor n ns hv hl hn hw
            (disk.stack 0 2048) 32 (suc free) (buffers 0 2048) (omega arith),
        find_partition-slot_named (image_slots 0x800 (n ∷ ns)) (replicate (suc free) last_row)
            (codes "os-image") (slot os_at os)
            (slot_named-image_slots (n ∷ ns) 0x800 os_at (codes "os-image") os hos),
        find_partition_missing (n ∷ ns) 0x800 free (codes "file-system") hfs,
      )
      refl
  where
    free : ℕ
    free = 31 - length (n ∷ ns)
