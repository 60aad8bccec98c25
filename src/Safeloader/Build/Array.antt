-- ===== src/Safeloader/Build/Array.antt =====
-- The array `parts` of `build_image` in tools/tplink-safeloader/tplink-safeloader.c, for any soft
-- version and any entry at the place of extra-para.
use safewrt.Common.{
  ℕ, ◌+◌, ◌^◌, ◌<◌, ◌≡◌, ◌∙◌, some, List, [], ◌∷◌, Bytes, length, total, replicate, arith,
}
use safewrt.Common.Outcome.{ok}
use safewrt.Common.Text.{codes}
use safewrt.Safeloader.Layout.{DeviceInfo, ImagePartition, no_partition}
use safewrt.Safeloader.Pieces.{align}
use safewrt.Safeloader.Tables.Flash.{flash_lines}
use safewrt.Safeloader.Image.Partitions.{entry}
use safewrt.Safeloader.Build.{Host, soft_version_part, extra_para_part, make_parts}
use safewrt.Safeloader.Build.Parts.{
  over, write-over, length-over, table_part, support_part, os_part, identity_part, sysconf_part,
  file_part, random_text, system_text, table_made, support_made, os_made, data_made, file_made,
}

module _ (host : Host) (heap : ℕ → ℕ → Bytes)
    (gives : (k n : ℕ) → host.malloc k n ≡ some (heap k n))
    (heap_length : (k n : ℕ) → length (heap k n) ≡ n) (mdat_length : length host.mdat ≡ 4096)
    (info : DeviceInfo) (id support line : Bytes) (lines : List Bytes) (rev : ℕ)
    (kernel_image rootfs_image genesis_image kernel rootfs genesis : Bytes)
    (version extra : ImagePartition) (named : info.id ≡ some id)
    (versioned : soft_version_part host info rev ≡ ok version)
    (chosen : extra_para_part host id ≡ ok extra) (supported : info.support_list ≡ some support)
    (printed : flash_lines info.partitions ≡ some (line ∷ lines))
    (short : total (line ∷ lines) < 0x7fc) (has_kernel : host.files kernel_image ≡ some kernel)
    (has_rootfs : host.files rootfs_image ≡ some rootfs)
    (has_genesis : host.files genesis_image ≡ some genesis) (some_kernel : 0 < length kernel)
    (some_rootfs : 0 < length rootfs) (some_genesis : 0 < length genesis)
    (small_kernel : length kernel < 2 ^ 63) (small_genesis : length genesis < 2 ^ 63) where
  -- The array, entry by entry.
  pub make_parts-entries :
      make_parts host kernel_image rootfs_image genesis_image rev info
      ≡ ok (
          entry (table_part (line ∷ lines))
          ∷ version
          ∷ entry (support_part support info.support_trail)
          ∷ entry (os_part kernel rootfs (heap 3 (align (length kernel) 0x10000 + length rootfs)))
          ∷ extra
          ∷ entry (identity_part host.mdat)
          ∷ entry (sysconf_part host.mdat)
          ∷ entry (file_part genesis)
          ∷ no_partition
          ∷ [])
  unfolding make_parts
  make_parts-entries =
      rw
        (
          table_made host heap gives heap_length info line lines printed short,
          versioned,
          support_made host heap gives heap_length info support supported,
          os_made host heap gives heap_length kernel_image rootfs_image kernel rootfs has_kernel
              has_rootfs some_kernel some_rootfs small_kernel,
          named,
          chosen,
          write-over host.mdat random_text (omega (arith, mdat_length)),
          data_made host heap gives heap_length 5 4096 (codes "identity")
              (over host.mdat random_text)
              (omega (arith, length-over host.mdat random_text, mdat_length)),
        )
        (rw (
          write-over random (replicate 1024 0) (omega (arith, random_length)),
          write-over cleared system_text (omega (arith, cleared_length)),
          data_made host heap gives heap_length 6 1024 (codes "sysconf") (over cleared system_text)
              (omega (arith, length-over cleared system_text, cleared_length)),
          file_made host heap gives heap_length genesis_image genesis has_genesis some_genesis
              small_genesis,
        ))
    where
      random : Bytes
      random = over host.mdat random_text

      cleared : Bytes
      cleared = over random (replicate 1024 0)

      random_length : length random ≡ 4096
      random_length = length-over host.mdat random_text (omega (arith, mdat_length)) ∙ mdat_length

      cleared_length : length cleared ≡ 4096
      cleared_length =
          length-over random (replicate 1024 0) (omega (arith, random_length)) ∙ random_length
