-- ===== src/Safeloader/Build/ArcherC7.antt =====
-- The two images that tools/tplink-safeloader/tplink-safeloader.c writes for `archer_c7_v4`: the one for an
-- upgrade, and the factory image that `convert_firmware` turns into a flash image. The kernel's place is
-- directly in front of that of the file system.
use safewrt.Common.{
  ℕ, ◌+◌, ◌-◌, ◌^◌, ◌<◌, ◌≤◌, ◌≡◌, refl, ap, sym, ◌∙◌, Bool, true, false, some, List, [], ◌∷◌, ◌++◌,
  All, Bytes, length, drop, total, replicate, arith, if◌then◌else◌, ◌==◌, inl, inr, Bool-cases,
  length-append,
}
use Prim.Native.String.{String}
use safewrt.Common.Outcome.{ok, stop, exits}
use safewrt.Common.Text.{codes, same_text, same_caseless, to_lower}
use safewrt.Safeloader.Layout.{no_partition, Slot}
use safewrt.Safeloader.Boards.ArcherC60.{archer_c7_v4}
use safewrt.Safeloader.Pieces.{align}
use safewrt.Safeloader.Tables.Flash.{flash_lines}
use safewrt.Safeloader.Image.{generate_sysupgrade_image}
use safewrt.Safeloader.Image.Partitions.{Named, entry, parts_array, bodies, image_lines, HasRoom}
use safewrt.Safeloader.Image.Sysupgrade.{named, IsOther}
use safewrt.Safeloader.Image.Upgrade.{generate_sysupgrade_image_lem}
use safewrt.Safeloader.Extract.Formats.{slots_of}
use safewrt.Safeloader.Unpack.{Disk, convert_firmware}
use safewrt.Safeloader.Unpack.Convert.{slot_named, padded}
use safewrt.Safeloader.Build.{Host, extra_para_part, make_parts, build_image, find_board, find_in}
use safewrt.Safeloader.Build.Parts.{os_part, file_part}
use safewrt.Safeloader.Build.Full.{
  extra_part, full_parts, make_parts-full_parts, convert_firmware-build_image,
}
use mathlib.Core.Path.{ap₂}
use mathlib.Core.List.{append_assoc, append-nil}

abbrev slot : String → ℕ → ℕ → Slot
slot name base size = record { label = codes name; base = base; size = size }

abbrev before : List Slot
before = slot "factory-boot" 0x00000 0x20000 ∷ slot "fs-uboot" 0x20000 0x20000 ∷ []

abbrev after : List Slot
after =
    slot "default-mac" 0xf00000 0x00200
    ∷ slot "pin" 0xf00200 0x00200
    ∷ slot "device-id" 0xf00400 0x00100
    ∷ slot "product-info" 0xf00500 0x0fb00
    ∷ slot "sysconf" 0xf10000 0xb0000
    ∷ slot "partition-table" 0xfc0000 0x10000
    ∷ slot "support-list" 0xfd0000 0x0a000
    ∷ slot "soft-version" 0xfda000 0x00100
    ∷ slot "extra-para" 0xfda100 0x01000
    ∷ slot "identity" 0xfdb100 0x01000
    ∷ slot "radio" 0xff0000 0x10000
    ∷ []

abbrev os_row : Slot
os_row = slot "os-image" 0x40000 0xa00000

abbrev fs_row : Slot
fs_row = slot "file-system" 0xa40000 0x4c0000

positive : (n : ℕ) → 0 < n → (n == 0) ≡ false
positive n h = ground arith

found : find_board (codes "ARCHER-C7-V4") ≡ some archer_c7_v4
unfolding find_board find_in same_caseless same_text to_lower
found = refl

-- The rows that the conversion finds.
rows_are :
    (rs : List Slot) (fos ffs : Slot)
    → slots_of (archer_c7_v4).partitions ≡ some rs
    → slot_named rs (codes "os-image") ≡ some fos
    → slot_named rs (codes "file-system") ≡ some ffs
    → (fos ≡ os_row) × (ffs ≡ fs_row)
unfolding slots_of slot_named same_text
rows_are rs fos ffs h hos hfs = (
  same_slot (sym hos ∙ ap (λ z. slot_named z (codes "os-image")) (sym all_rows)),
  same_slot (sym hfs ∙ ap (λ z. slot_named z (codes "file-system")) (sym all_rows)),
)
  where
    same_slot : {a b : Slot} → some a ≡ some b → a ≡ b
    same_slot e = cc

    same_rows : {a b : List Slot} → some a ≡ some b → a ≡ b
    same_rows e = cc

    all_rows : before ++ (os_row ∷ fs_row ∷ after) ≡ rs
    all_rows = same_rows h

-- Two padded contents whose places touch.
seam :
    (os genesis : Bytes) (fos ffs : Slot)
    → (fos ≡ os_row) × (ffs ≡ fs_row)
    → padded os fos.size
        ++ (replicate (ffs.base - fos.base - fos.size) 0 ++ padded genesis ffs.size)
      ≡ (os ++ (replicate (0xa00000 - length os) 0xff ++ genesis))
        ++ replicate (0x4c0000 - length genesis) 0xff
seam os genesis fos ffs (hos, hfs) =
    ap₂
      (λ (a b : Slot).
        padded os a.size ++ (replicate (b.base - a.base - a.size) 0 ++ padded genesis b.size))
      hos hfs
    ∙ simp append_assoc

module _ (host : Host) (heap : ℕ → ℕ → Bytes)
    (gives : (k n : ℕ) → host.malloc k n ≡ some (heap k n))
    (heap_length : (k n : ℕ) → length (heap k n) ≡ n) (mdat_length : length host.mdat ≡ 4096)
    (soft_ver para support line : Bytes) (lines : List Bytes) (rev : ℕ)
    (kernel_image rootfs_image genesis_image kernel rootfs genesis : Bytes)
    (dated : (archer_c7_v4).soft_ver ≡ some soft_ver) (short_version : length soft_ver + 1 < 2 ^ 32)
    (chosen : extra_para_part host (codes "ARCHER-C7-V4") ≡ ok (entry (extra_part para)))
    (supported : (archer_c7_v4).support_list ≡ some support)
    (printed : flash_lines (archer_c7_v4).partitions ≡ some (line ∷ lines))
    (short : total (line ∷ lines) < 0x7fc) (has_kernel : host.files kernel_image ≡ some kernel)
    (has_rootfs : host.files rootfs_image ≡ some rootfs)
    (has_genesis : host.files genesis_image ≡ some genesis) (some_kernel : 0 < length kernel)
    (some_rootfs : 0 < length rootfs) (some_genesis : 0 < length genesis)
    (small_kernel : length kernel < 2 ^ 63) (small_genesis : length genesis < 2 ^ 63) where
  abbrev parts : List Named
  parts =
      full_parts host archer_c7_v4 (line ∷ lines) soft_ver support kernel rootfs
        (heap 3 (align (length kernel) 0x10000 + length rootfs)) para genesis

  abbrev os : Bytes
  os = (os_part kernel rootfs (heap 3 (align (length kernel) 0x10000 + length rootfs))).body

  -- Kernel and root file system with 0xff up to the place of the file system, and the contents of that.
  abbrev pub upgrade : Bytes
  upgrade = os ++ (replicate (0xa00000 - length os) 0xff ++ genesis)

  module _ (os_fits : length os ≤ 0xa00000) (fs_fits : length genesis ≤ 0x4c0000) where
    others : All (IsOther (codes "os-image") (codes "file-system")) after
    unfolding same_text
    others = (
      (refl, refl),
      (
        (refl, refl),
        (
          (refl, refl),
          (
            (refl, refl),
            (
              (refl, refl),
              (
                (refl, refl),
                ((refl, refl), ((refl, refl), ((refl, refl), ((refl, refl), ((refl, refl), tt))))),
              ),
            ),
          ),
        ),
      ),
    )

    sysupgrade_made :
        generate_sysupgrade_image
          (host.malloc 8)
          archer_c7_v4
          (parts_array parts (no_partition ∷ []))
        ≡ ok upgrade
    unfolding named same_text
    sysupgrade_made =
        generate_sysupgrade_image_lem before [] after os_row fs_row [] (host.malloc 8) archer_c7_v4
          parts [] (file_part genesis) (heap 8 (0xa00000 + length genesis)) refl refl refl refl
          ((refl, refl), ((refl, refl), tt)) tt others refl
          (omega arith, os_fits, (omega arith, fs_fits, tt)) (omega arith) (omega arith)
          (gives 8 (0xa00000 + length genesis)) (heap_length 8 (0xa00000 + length genesis))
        ∙ ap ok (rw (append-nil, gap) refl)
      where
        gap : 0xa40000 - (0x40000 + length os) ≡ 0xa00000 - length os
        gap = omega (arith, os_fits)

    pub build_image_sysupgrade :
        (output : Bytes) (add_jffs2_eof : Bool)
        → build_image host output kernel_image rootfs_image genesis_image rev add_jffs2_eof true
            archer_c7_v4
          ≡ (if host.can_create output then ok upgrade else stop (exits 1))
    unfolding build_image
    build_image_sysupgrade output add_jffs2_eof =
        rw (made, sysupgrade_made)
          (elim (Bool-cases (host.can_create output)) [
            | inl can ↦ rw (can, written)
            | inr closed ↦ rw closed
          ])
      where
        made :
            make_parts host kernel_image rootfs_image genesis_image rev archer_c7_v4
            ≡ ok (parts_array parts (no_partition ∷ []))
        made =
            make_parts-full_parts host heap gives heap_length mdat_length archer_c7_v4
              (codes "ARCHER-C7-V4") soft_ver para support line lines rev kernel_image rootfs_image
              genesis_image kernel rootfs genesis refl dated short_version chosen supported printed
              short has_kernel has_rootfs has_genesis some_kernel some_rootfs some_genesis
              small_kernel small_genesis

        written : (length upgrade == 0) ≡ false
        written = positive (length upgrade) (
            omega (
              arith,
              length-append os (replicate (0xa00000 - length os) 0xff ++ genesis),
              length-append kernel (
                  rootfs
                  ++ drop (length kernel + length rootfs)
                      (heap 3 (align (length kernel) 0x10000 + length rootfs))),
            ))

    module _ (rooms : All (HasRoom (archer_c7_v4).partitions) parts)
        (fits : total (image_lines 0x800 parts) < 0x800)
        (small : 0x1814 + total (bodies parts) < 2 ^ 32)
        (md5_length : (m : Bytes) → length (host.md5 m) ≡ 16) where
      -- Two runs of `build_image` for the board `archer_c7_v4` on one host, where `malloc` gives
      -- both the same blocks (what is left in its block stands at the end of os-image), from
      -- inputs that can be read and are not empty, room in the flash and in the tables, and a
      -- `malloc` that answers, with kernel and file system that fit their places: converting the
      -- factory image that the first run wrote gives the image that the other run writes for an
      -- upgrade from the same inputs, with 0xff behind it up to the end of the place of
      -- file-system.
      pub convert_firmware_sysupgrade :
          (disk : Disk) (output input converted_output image : Bytes) (add_jffs2_eof : Bool)
          → ((call size : ℕ) → length (disk.stack call size) ≡ size)
          → disk.exists input ≡ true
          → disk.open_input input ≡ some image
          → disk.can_create converted_output ≡ true
          → host.can_create output ≡ true
          → build_image host output kernel_image rootfs_image genesis_image rev add_jffs2_eof false
              archer_c7_v4
            ≡ ok image
          → (upgrade_image : Bytes) × (build_image host output kernel_image rootfs_image
                genesis_image rev add_jffs2_eof true archer_c7_v4
              ≡ ok upgrade_image)
            × (convert_firmware disk input converted_output
                ≡ ok (upgrade_image ++ replicate (0x4c0000 - length genesis) 0xff))
      convert_firmware_sysupgrade disk output input converted_output image add_jffs2_eof buffers he
            ho hc hw h =
          let (rs, fos, ffs, rows, os_at, fs_at, converted) =
            convert_firmware-build_image host heap gives heap_length mdat_length archer_c7_v4
              (codes "ARCHER-C7-V4") soft_ver para support line lines rev kernel_image rootfs_image
              genesis_image kernel rootfs genesis refl dated short_version chosen supported printed
              short has_kernel has_rootfs has_genesis some_kernel some_rootfs some_genesis
              small_kernel small_genesis rooms fits tt small md5_length disk output input
              converted_output image (codes "ARCHER-C7-V4") add_jffs2_eof buffers found he ho hc hw
              h in
          (
            upgrade,
            build_image_sysupgrade output add_jffs2_eof ∙ rw hw refl,
            converted ∙ ap ok (seam os genesis fos ffs (rows_are rs fos ffs rows os_at fs_at)),
          )
