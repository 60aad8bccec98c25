-- ===== src/Safeloader/Build/Refused.antt =====
-- `build_image` of tools/tplink-safeloader/tplink-safeloader.c for a board that has an extra-para
-- partition and no identity partition: `archer_c25_v1`, `archer_c60_v2`, `tlwr1043nv5` and `archer_c7_v5`.
use safewrt.Common.{
  ℕ, ◌+◌, ◌^◌, ◌<◌, ◌≡◌, refl, ◌++◌, Bool, true, false, none, some, List, [], ◌∷◌, All, Bytes,
  length, drop, total,
}
use safewrt.Common.Outcome.{ok, stop, aborts}
use safewrt.Common.Text.{codes}
use safewrt.Safeloader.Layout.{DeviceInfo}
use safewrt.Safeloader.Pieces.{align}
use safewrt.Safeloader.Tables.Flash.{flash_lines}
use safewrt.Safeloader.Image.Partitions.{
  Named, entry, bodies, image_lines, HasRoom, flash_size, ends,
}
use safewrt.Safeloader.Image.Blank.{VendorFits}
use safewrt.Safeloader.Image.Refused.{generate_factory_image_refuses}
use safewrt.Safeloader.Build.{Host, soft_version_part, extra_para_part, build_image}
use safewrt.Safeloader.Build.Array.{make_parts-entries}
use safewrt.Safeloader.Build.Parts.{
  table_part, support_part, os_part, identity_part, sysconf_part, file_part,
}

-- The partitions in front of identity.
abbrev pub front_parts :
    DeviceInfo → List Bytes → Named → Bytes → Bytes → Bytes → Bytes → Named → List Named
front_parts info lines version support kernel rootfs block extra =
    table_part lines
    ∷ version
    ∷ support_part support info.support_trail
    ∷ os_part kernel rootfs block
    ∷ extra
    ∷ []

-- Identity and what follows it.
abbrev pub back_parts : Host → Bytes → List Named
back_parts host genesis = identity_part host.mdat ∷ sysconf_part host.mdat ∷ file_part genesis ∷ []

module _ (host : Host) (heap : ℕ → ℕ → Bytes)
    (gives : (k n : ℕ) → host.malloc k n ≡ some (heap k n))
    (heap_length : (k n : ℕ) → length (heap k n) ≡ n) (mdat_length : length host.mdat ≡ 4096)
    (info : DeviceInfo) (id support line : Bytes) (lines : List Bytes) (rev : ℕ)
    (kernel_image rootfs_image genesis_image kernel rootfs genesis : Bytes) (version extra : Named)
    (named : info.id ≡ some id) (versioned : soft_version_part host info rev ≡ ok (entry version))
    (chosen : extra_para_part host id ≡ ok (entry extra))
    (supported : info.support_list ≡ some support)
    (printed : flash_lines info.partitions ≡ some (line ∷ lines))
    (short : total (line ∷ lines) < 0x7fc) (has_kernel : host.files kernel_image ≡ some kernel)
    (has_rootfs : host.files rootfs_image ≡ some rootfs)
    (has_genesis : host.files genesis_image ≡ some genesis) (some_kernel : 0 < length kernel)
    (some_rootfs : 0 < length rootfs) (some_genesis : 0 < length genesis)
    (small_kernel : length kernel < 2 ^ 63) (small_genesis : length genesis < 2 ^ 63) where
  abbrev front : List Named
  front =
      front_parts info (line ∷ lines) version support kernel rootfs
        (heap 3 (align (length kernel) 0x10000 + length rootfs)) extra

  abbrev size : ℕ
  size = 0x1814 + total (bodies (front ++ back_parts host genesis))

  -- A board with an extra-para partition and no identity partition, inputs that can be read and
  -- are not empty, room for the partitions in front of identity, and a `malloc` that answers: a
  -- factory image (no -S) is not made, as `build_image` ends in a failed assertion and writes
  -- nothing.
  pub build_image-aborts :
      (output : Bytes) (add_jffs2_eof : Bool)
      → VendorFits info.vendor
      → size < 2 ^ 32
      → ends info.partitions ≡ true
      → All (HasRoom info.partitions) front
      → total (image_lines 0x800 front) < 0x800
      → flash_size info.partitions (codes "identity") ≡ none
      → build_image host output kernel_image rootfs_image genesis_image rev add_jffs2_eof false info
        ≡ stop aborts
  unfolding build_image
  build_image-aborts output add_jffs2_eof vendor_fits small closed rooms fits missing =
      rw
        (
          make_parts-entries host heap gives heap_length mdat_length info id support line lines rev
              kernel_image rootfs_image genesis_image kernel rootfs genesis (entry version)
              (entry extra) named versioned chosen supported printed short has_kernel has_rootfs
              has_genesis some_kernel some_rootfs some_genesis small_kernel small_genesis,
          generate_factory_image_refuses host.md5 (host.malloc 8) info front
              (identity_part host.mdat) (drop 1 (back_parts host genesis)) [] (heap 8 size)
              vendor_fits small (gives 8 size) (heap_length 8 size) closed rooms fits
              (λ (s, found, fit). nowhere s found),
          missing,
        )
        refl
    where
      nowhere : (s : ℕ) → flash_size info.partitions (codes "identity") ≡ some s → ⊥
      nowhere s found = cc
