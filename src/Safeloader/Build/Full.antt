-- ===== src/Safeloader/Build/Full.antt =====
-- `build_image` of tools/tplink-safeloader/tplink-safeloader.c for a board that has an extra-para
-- partition and names its soft version, as `archer_c7_v4` does, and the way back by
-- `extract_firmware`.
use safewrt.Common.{
  ℕ, ◌+◌, ◌^◌, ◌<◌, ◌-◌, ◌≡◌, refl, sym, ◌∙◌, Bool, false, true, some, List, [], ◌∷◌, ◌++◌, All,
  Bytes, length, drop, total, replicate, arith, if◌then◌else◌, ◌==◌, inl, inr, Bool-cases,
}
use safewrt.Common.Outcome.{ok, stop, exits}
use safewrt.Common.Text.{codes}
use safewrt.Common.Words.{be32}
use safewrt.Safeloader.Layout.{DeviceInfo, no_partition}
use safewrt.Safeloader.Pieces.{align}
use safewrt.Safeloader.Tables.Flash.{flash_lines}
use safewrt.Safeloader.Image.Partitions.{Named, entry, parts_array, bodies, image_lines, HasRoom}
use safewrt.Safeloader.Image.Blank.{VendorFits}
use safewrt.Safeloader.Image.Factory.{factory_image, generate_factory_image_lem}
use safewrt.Safeloader.Build.{Host, extra_para_part, make_parts, build_image}
use safewrt.Safeloader.Image.{generate_factory_image}
use safewrt.Safeloader.Unpack.{Disk, convert_firmware, extract_firmware}
use safewrt.Safeloader.Unpack.Extracted.{IsName, extracted}
use safewrt.Safeloader.Unpack.RoundTrip.{extract_firmware-generate_factory_image}
use safewrt.Common.Text.{same_text}
use safewrt.Safeloader.Layout.{Slot}
use safewrt.Safeloader.Extract.Formats.{slots_of}
use safewrt.Safeloader.Build.{find_board}
use safewrt.Safeloader.Build.Parts.{table_made}
use safewrt.Safeloader.Unpack.Convert.{slot_named, named_at, padded}
use safewrt.Safeloader.Unpack.Converted.{convert_firmware-generate_factory_image}
use safewrt.Safeloader.Build.Array.{make_parts-entries}
use safewrt.Safeloader.Build.Whole.{not_zero}
use safewrt.Safeloader.Build.Parts.{
  table_part, named_version_part, named_version_made, support_part, os_part, identity_part,
  sysconf_part, file_part,
}

abbrev pub extra_part : Bytes → Named
extra_part para = record { label = codes "extra-para"; body = para }

-- All partitions of the image, for the text of the soft version and the bytes of extra-para.
abbrev pub full_parts :
    Host
    → DeviceInfo
    → List Bytes
    → Bytes
    → Bytes
    → Bytes
    → Bytes
    → Bytes
    → Bytes
    → Bytes
    → List Named
full_parts host info lines soft_ver support kernel rootfs block para genesis =
    table_part lines
    ∷ named_version_part soft_ver
    ∷ support_part support info.support_trail
    ∷ os_part kernel rootfs block
    ∷ extra_part para
    ∷ identity_part host.mdat
    ∷ sysconf_part host.mdat
    ∷ file_part genesis
    ∷ []

module _ (host : Host) (heap : ℕ → ℕ → Bytes)
    (gives : (k n : ℕ) → host.malloc k n ≡ some (heap k n))
    (heap_length : (k n : ℕ) → length (heap k n) ≡ n) (mdat_length : length host.mdat ≡ 4096)
    (info : DeviceInfo) (id soft_ver para support line : Bytes) (lines : List Bytes) (rev : ℕ)
    (kernel_image rootfs_image genesis_image kernel rootfs genesis : Bytes)
    (named : info.id ≡ some id) (dated : info.soft_ver ≡ some soft_ver)
    (short_version : length soft_ver + 1 < 2 ^ 32)
    (chosen : extra_para_part host id ≡ ok (entry (extra_part para)))
    (supported : info.support_list ≡ some support)
    (printed : flash_lines info.partitions ≡ some (line ∷ lines))
    (short : total (line ∷ lines) < 0x7fc) (has_kernel : host.files kernel_image ≡ some kernel)
    (has_rootfs : host.files rootfs_image ≡ some rootfs)
    (has_genesis : host.files genesis_image ≡ some genesis) (some_kernel : 0 < length kernel)
    (some_rootfs : 0 < length rootfs) (some_genesis : 0 < length genesis)
    (small_kernel : length kernel < 2 ^ 63) (small_genesis : length genesis < 2 ^ 63) where
  abbrev pub parts : List Named
  parts =
      full_parts host info (line ∷ lines) soft_ver support kernel rootfs
        (heap 3 (align (length kernel) 0x10000 + length rootfs)) para genesis

  pub make_parts-full_parts :
      make_parts host kernel_image rootfs_image genesis_image rev info
      ≡ ok (parts_array parts (no_partition ∷ []))
  make_parts-full_parts =
      make_parts-entries host heap gives heap_length mdat_length info id support line lines rev
        kernel_image rootfs_image genesis_image kernel rootfs genesis
        (entry (named_version_part soft_ver)) (entry (extra_part para)) named
        (named_version_made host heap gives heap_length info soft_ver rev dated short_version)
        chosen supported printed short has_kernel has_rootfs has_genesis some_kernel some_rootfs
        some_genesis small_kernel small_genesis

  names : All IsName parts
  names = (
    (refl, omega arith),
    (
      (refl, omega arith),
      (
        (refl, omega arith),
        (
          (refl, omega arith),
          (
            (refl, omega arith),
            ((refl, omega arith), ((refl, omega arith), ((refl, omega arith), tt))),
          ),
        ),
      ),
    ),
  )

  module _ (rooms : All (HasRoom info.partitions) parts)
      (fits : total (image_lines 0x800 parts) < 0x800) (vendor_fits : VendorFits info.vendor)
      (small : 0x1814 + total (bodies parts) < 2 ^ 32)
      (md5_length : (m : Bytes) → length (host.md5 m) ≡ 16) where
    -- A board with an extra-para partition and a soft version of its own, inputs that can be read
    -- and are not empty, room in the flash and in the tables, and a `malloc` that answers: what
    -- is written is the factory image of all eight partitions, partition table, soft version,
    -- support list, kernel with root file system, extra-para, identity, sysconf and file-system.
    -- An output that cannot be opened ends the program by `exits 1`.
    pub build_image-full_parts :
        (output : Bytes) (add_jffs2_eof : Bool)
        → build_image host output kernel_image rootfs_image genesis_image rev add_jffs2_eof false
            info
          ≡ (if host.can_create output
              then ok (factory_image host.md5 info.vendor parts)
              else stop (exits 1))
    unfolding build_image be32
    build_image-full_parts output add_jffs2_eof =
        rw
          (
            make_parts-full_parts,
            generate_factory_image_lem host.md5 md5_length (host.malloc 8) info
                (table_part (line ∷ lines)) (drop 1 parts) [] (heap 8 size) rooms fits vendor_fits
                small (gives 8 size) (heap_length 8 size),
          )
          (elim (Bool-cases (host.can_create output)) [
            | inl can ↦ rw (can, written)
            | inr closed ↦ rw closed
          ])
      where
        size : ℕ
        size = 0x1814 + total (bodies parts)

        written : (length (factory_image host.md5 info.vendor parts) == 0) ≡ false
        written = not_zero (length (drop 1 (factory_image host.md5 info.vendor parts)))

    -- What was written is what `generate_factory_image` gave.
    generated :
        (output image : Bytes) (add_jffs2_eof : Bool)
        → host.can_create output ≡ true
        → build_image host output kernel_image rootfs_image genesis_image rev add_jffs2_eof false
            info
          ≡ ok image
        → generate_factory_image host.md5
            (host.malloc 8)
            info
            (parts_array parts (no_partition ∷ []))
          ≡ ok image
    generated output image add_jffs2_eof hc h =
        generate_factory_image_lem host.md5 md5_length (host.malloc 8) info
          (table_part (line ∷ lines)) (drop 1 parts) [] (heap 8 size) rooms fits vendor_fits small
          (gives 8 size) (heap_length 8 size)
        ∙ sym (rw hc at (build_image-full_parts output add_jffs2_eof))
        ∙ h
      where
        size : ℕ
        size = 0x1814 + total (bodies parts)

    -- What `build_image` wrote for a board with an extra-para partition and a soft version of its
    -- own, from inputs that can be read and are not empty, room in the flash and in the tables,
    -- and a `malloc` that answers, is extracted into eight files, each named after its partition
    -- and with exactly its contents, where the directory is there, files can be made and buffers
    -- have the right length.
    pub extract_firmware-build_image :
        (disk : Disk) (output input directory image : Bytes) (add_jffs2_eof : Bool)
        → ((path : Bytes) → disk.can_create path ≡ true)
        → ((call size : ℕ) → length (disk.stack call size) ≡ size)
        → disk.exists input ≡ true
        → disk.is_directory directory ≡ some true
        → disk.open_input input ≡ some image
        → host.can_create output ≡ true
        → build_image host output kernel_image rootfs_image genesis_image rev add_jffs2_eof false
            info
          ≡ ok image
        → extract_firmware disk input directory ≡ ok (extracted directory parts)
    extract_firmware-build_image disk output input directory image add_jffs2_eof created buffers he
          hd ho hc h =
        extract_firmware-generate_factory_image host.md5 md5_length (host.malloc 8) info
          (table_part (line ∷ lines)) (drop 1 parts) [] (heap 8 size) rooms fits vendor_fits small
          (gives 8 size) (heap_length 8 size) names (omega arith) disk created buffers input
          directory image he hd ho (generated output image add_jffs2_eof hc h)
      where
        size : ℕ
        size = 0x1814 + total (bodies parts)

    -- What was written is converted for the flash of the board.
    pub convert_firmware-build_image :
        (disk : Disk) (output input converted_output image key : Bytes) (add_jffs2_eof : Bool)
        → ((call size : ℕ) → length (disk.stack call size) ≡ size)
        → find_board key ≡ some info
        → disk.exists input ≡ true
        → disk.open_input input ≡ some image
        → disk.can_create converted_output ≡ true
        → host.can_create output ≡ true
        → build_image host output kernel_image rootfs_image genesis_image rev add_jffs2_eof false
            info
          ≡ ok image
        → (rs : List Slot) × (fos : Slot) × (ffs : Slot) × (slots_of info.partitions ≡ some rs)
          × (slot_named rs (codes "os-image") ≡ some fos)
          × (slot_named rs (codes "file-system") ≡ some ffs)
          × (convert_firmware disk input converted_output
              ≡ ok (
                  padded
                    (os_part kernel rootfs
                      (heap 3 (align (length kernel) 0x10000 + length rootfs))).body
                    fos.size
                  ++ (replicate (ffs.base - fos.base - fos.size) 0 ++ padded genesis ffs.size)))
    unfolding named_at same_text
    convert_firmware-build_image disk output input converted_output image key add_jffs2_eof buffers
          found he ho hc hw h =
        convert_firmware-generate_factory_image host.md5 md5_length (host.malloc 8) key info
          (table_part (line ∷ lines)) (drop 1 parts) [] (heap 8 size) found rooms fits vendor_fits
          small (gives 8 size) (heap_length 8 size) names (omega arith) _ _ 0x800
          (os_part kernel rootfs (heap 3 (align (length kernel) 0x10000 + length rootfs)))
          (file_part genesis) (table_part (line ∷ lines)) refl refl refl (host.malloc 0)
          (heap 0 0x800) (entry (table_part (line ∷ lines))) (gives 0 0x800) (heap_length 0 0x800)
          (table_made host heap gives heap_length info line lines printed short) refl disk buffers
          input converted_output image he ho hc (generated output image add_jffs2_eof hw h)
      where
        size : ℕ
        size = 0x1814 + total (bodies parts)
