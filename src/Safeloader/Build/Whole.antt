-- ===== src/Safeloader/Build/Whole.antt =====
-- `build_image` of tools/tplink-safeloader/tplink-safeloader.c, from the inputs to the written
-- bytes, for a board with no extra-para partition and no soft version of its own.
use safewrt.Common.{
  refl, ap, sym, ◌∙◌, true, ℕ, suc, ◌+◌, ◌^◌, ◌<◌, ◌≡◌, Bool, false, none, some, List, [], ◌∷◌, All,
  Bytes, length, drop, total, arith, if◌then◌else◌, ◌==◌, inl, inr, Bool-cases,
}
use safewrt.Common.Outcome.{ok, stop, exits}
use safewrt.Common.Words.{be32}
use safewrt.Safeloader.Layout.{DeviceInfo, no_partition}
use safewrt.Safeloader.Pieces.{align}
use safewrt.Safeloader.Pieces.Contents.{time_used}
use safewrt.Safeloader.Tables.Flash.{flash_lines}
use safewrt.Safeloader.Image.Partitions.{Named, entry, parts_array, bodies, image_lines, HasRoom}
use safewrt.Safeloader.Image.Blank.{VendorFits}
use safewrt.Safeloader.Image.Factory.{factory_image, generate_factory_image_lem}
use safewrt.Safeloader.Build.{Host, extra_para_part, make_parts, build_image}
use safewrt.Common.Outcome.{faults}
use safewrt.Common.Text.{same_text}
use safewrt.Safeloader.Unpack.{Disk, convert_firmware}
use safewrt.Safeloader.Unpack.Convert.{named_at}
use safewrt.Safeloader.Unpack.Missing.{convert_firmware_missing}
use safewrt.Safeloader.Unpack.RoundTrip.{ok_same}
use safewrt.Safeloader.Pieces.{Tm}
use safewrt.Safeloader.Build.Array.{make_parts-entries}
use safewrt.Safeloader.Build.Parts.{
  table_part, version_part, support_part, os_part, identity_part, sysconf_part, file_part,
  version_made,
}

-- The partitions that stand in the image behind the partition table.
abbrev behind_table : DeviceInfo → Tm → ℕ → Bytes → Bytes → Bytes → Bytes → List Named
behind_table info tm rev support kernel rootfs block =
    version_part tm rev ∷ support_part support info.support_trail ∷ os_part kernel rootfs block ∷ []

pub not_zero : (n : ℕ) → (suc n == 0) ≡ false
not_zero n = ground arith

module _ (host : Host) (heap : ℕ → ℕ → Bytes)
    (gives : (k n : ℕ) → host.malloc k n ≡ some (heap k n))
    (heap_length : (k n : ℕ) → length (heap k n) ≡ n) (mdat_length : length host.mdat ≡ 4096)
    (info : DeviceInfo) (id support line : Bytes) (lines : List Bytes) (t rev : ℕ) (tm : Tm)
    (kernel_image rootfs_image genesis_image kernel rootfs genesis : Bytes)
    (named : info.id ≡ some id) (plain : extra_para_part host id ≡ ok no_partition)
    (dated : info.soft_ver ≡ none) (supported : info.support_list ≡ some support)
    (printed : flash_lines info.partitions ≡ some (line ∷ lines))
    (short : total (line ∷ lines) < 0x7fc)
    (timed : time_used host.source_date_epoch host.time ≡ some t)
    (dated_local : host.localtime t ≡ some tm) (has_kernel : host.files kernel_image ≡ some kernel)
    (has_rootfs : host.files rootfs_image ≡ some rootfs)
    (has_genesis : host.files genesis_image ≡ some genesis) (some_kernel : 0 < length kernel)
    (some_rootfs : 0 < length rootfs) (some_genesis : 0 < length genesis)
    (small_kernel : length kernel < 2 ^ 63) (small_genesis : length genesis < 2 ^ 63) where
  abbrev block : Bytes
  block = heap 3 (align (length kernel) 0x10000 + length rootfs)

  abbrev table : Named
  table = table_part (line ∷ lines)

  abbrev behind : List Named
  behind = behind_table info tm rev support kernel rootfs block

  -- A board with no extra-para partition and no soft version of its own, inputs that can be read and
  -- are not empty, a table that fits, and a `malloc` that answers: the array is partition table, soft
  -- version, support list and kernel with root file system, then an entry that was never set, and
  -- behind it identity, sysconf and file-system.
  pub make_parts_lem :
      make_parts host kernel_image rootfs_image genesis_image rev info
      ≡ ok (
          parts_array (table ∷ behind) (
            no_partition
            ∷ entry (identity_part host.mdat)
            ∷ entry (sysconf_part host.mdat)
            ∷ entry (file_part genesis)
            ∷ no_partition
            ∷ []))
  make_parts_lem =
      make_parts-entries host heap gives heap_length mdat_length info id support line lines rev
        kernel_image rootfs_image genesis_image kernel rootfs genesis (entry (version_part tm rev))
        no_partition named
        (version_made host heap gives heap_length info t rev tm dated timed dated_local) plain
        supported printed short has_kernel has_rootfs has_genesis some_kernel some_rootfs
        some_genesis small_kernel small_genesis

  module _ (rooms : All (HasRoom info.partitions) (table ∷ behind))
      (fits : total (image_lines 0x800 (table ∷ behind)) < 0x800)
      (vendor_fits : VendorFits info.vendor)
      (small : 0x1814 + total (bodies (table ∷ behind)) < 2 ^ 32)
      (md5_length : (m : Bytes) → length (host.md5 m) ≡ 16) where
    -- A board with no extra-para partition and no soft version of its own, inputs that can be
    -- read and are not empty, room in the flash and in the tables, and a `malloc` and a
    -- `localtime` that answer: what is written is the factory image of partition table, soft
    -- version, support list and kernel with root file system. Identity, sysconf and file-system
    -- are made and are not in it. An output that cannot be opened ends the program by `exits 1`.
    pub build_image_lem :
        (output : Bytes) (add_jffs2_eof : Bool)
        → build_image host output kernel_image rootfs_image genesis_image rev add_jffs2_eof false
            info
          ≡ (if host.can_create output
              then ok (factory_image host.md5 info.vendor (table ∷ behind))
              else stop (exits 1))
    unfolding build_image be32
    build_image_lem output add_jffs2_eof =
        rw
          (
            make_parts_lem,
            generate_factory_image_lem host.md5 md5_length (host.malloc 8) info table (behind)
                (entry (identity_part host.mdat)
                  ∷ entry (sysconf_part host.mdat)
                  ∷ entry (file_part genesis)
                  ∷ no_partition
                  ∷ [])
                (heap 8 size) rooms fits vendor_fits small (gives 8 size) (heap_length 8 size),
          )
          (elim (Bool-cases (host.can_create output)) [
            | inl can ↦ rw (can, written)
            | inr closed ↦ rw closed
          ])
      where
        size : ℕ
        size = 0x1814 + total (bodies (table ∷ behind))

        written : (length (factory_image host.md5 info.vendor (table ∷ behind)) == 0) ≡ false
        written = not_zero (length (drop 1 (factory_image host.md5 info.vendor (table ∷ behind))))

    -- What `build_image` wrote for a board with no extra-para partition and no soft version of
    -- its own, from inputs that can be read and are not empty, room in the flash and in the
    -- tables, and a `malloc` and a `localtime` that answer, cannot be converted: with files that
    -- can be opened and buffers of the right length, `convert_firmware` compares with the null
    -- name of a free entry.
    pub convert_firmware_faults :
        (disk : Disk) (output input converted_output image : Bytes) (add_jffs2_eof : Bool)
        → ((call size : ℕ) → length (disk.stack call size) ≡ size)
        → disk.exists input ≡ true
        → disk.open_input input ≡ some image
        → disk.can_create converted_output ≡ true
        → host.can_create output ≡ true
        → build_image host output kernel_image rootfs_image genesis_image rev add_jffs2_eof false
            info
          ≡ ok image
        → convert_firmware disk input converted_output ≡ stop faults
    unfolding named_at same_text
    convert_firmware_faults disk output input converted_output image add_jffs2_eof buffers he ho hc
          hw h =
        convert_firmware_missing host.md5 info.vendor table behind _ (os_part kernel rootfs block)
          disk input converted_output md5_length vendor_fits fits
          (
            (refl, omega arith),
            ((refl, omega arith), ((refl, omega arith), ((refl, omega arith), tt))),
          )
          (omega arith) (omega arith) refl refl buffers he (ho ∙ ap some (sym made)) hc
      where
        made : factory_image host.md5 info.vendor (table ∷ behind) ≡ image
        made = ok_same (sym (rw hw at (build_image_lem output add_jffs2_eof)) ∙ h)
