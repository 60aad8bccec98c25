-- ===== src/Tests/Image.antt =====
-- Runs of the functions of tools/tplink-safeloader/tplink-safeloader.c that make an image.
use Prim.Native.String.{String}
use safewrt.Common.{
  ℕ, ◌<◌, ◌≡◌, refl, some, true, List, [], ◌∷◌, ◌++◌, Bytes, length, total, replicate,
  length-replicate, arith, All, ltb→lt,
}
use safewrt.Common.Outcome.{ok, stop, aborts}
use safewrt.Common.Text.{codes, same_text}
use safewrt.Common.Hex.{hex5, hex_onto, hex_digit}
use safewrt.Safeloader.Layout.{Slot, FlashPartition, DeviceInfo, row, last_row, no_partition}
use safewrt.Safeloader.Boards.{no_board}
use safewrt.Safeloader.Pieces.{Malloc, fwup_line}
use safewrt.Safeloader.Image.{put_partitions, generate_factory_image, generate_sysupgrade_image}
use safewrt.Safeloader.Image.Sysupgrade.{named}
use safewrt.Safeloader.Image.Upgrade.{generate_sysupgrade_image_lem}
use safewrt.Safeloader.Image.Partitions.{
  Named, entry, image_lines, HasRoom, flash_size, ends, put_partitions_lem, put_partitions_refuses,
}
use safewrt.Safeloader.Image.Factory.{factory_image, generate_factory_image_lem}

abbrev pub heap : Malloc
heap n = some (replicate n 0xaa)

abbrev pub flash : List FlashPartition
flash = row "os-image" 0x40000 0x10 ∷ row "file-system" 0x50000 0x10 ∷ last_row ∷ []

abbrev pub kernel : Named
kernel = record { label = codes "os-image"; body = 1 ∷ 2 ∷ 3 ∷ [] }

abbrev pub rootfs : Named
rootfs = record { label = codes "file-system"; body = 4 ∷ [] }

abbrev pub info : DeviceInfo
info = record no_board { vendor = some (codes "CPE"); partitions = flash }

-- A checksum of sixteen bytes that depends on the message's length only.
abbrev pub checksum : Bytes → Bytes
checksum message = replicate 16 (length message)

pub rooms : All (HasRoom flash) (kernel ∷ rootfs ∷ [])
unfolding flash_size same_text
rooms = ((0x10, refl, omega arith), ((0x10, refl, omega arith), tt))

pub table_fits : total (image_lines 0x800 (kernel ∷ rootfs ∷ [])) < 0x800
unfolding fwup_line hex5 hex_onto hex_digit
table_fits = ltb→lt _ _ refl

put_partitions_example :
    put_partitions (replicate 0x804 0xff) flash (entry kernel ∷ entry rootfs ∷ no_partition ∷ [])
    ≡ ok (
        codes
          "fwup-ptn os-image base 0x00800 size 0x00003\t\r\nfwup-ptn file-system base 0x00803 size 0x00001\t\r\n"
        ++ ((0 ∷ replicate 1952 0xff) ++ (1 ∷ 2 ∷ 3 ∷ 4 ∷ [])))
unfolding fwup_line hex5 hex_onto hex_digit
put_partitions_example = put_partitions_lem flash kernel (rootfs ∷ []) rooms table_fits []

generate_factory_image_example :
    generate_factory_image checksum heap info (entry kernel ∷ entry rootfs ∷ no_partition ∷ [])
    ≡ ok (factory_image checksum (some (codes "CPE")) (kernel ∷ rootfs ∷ []))
generate_factory_image_example =
    generate_factory_image_lem checksum (λ m. refl) heap info kernel (rootfs ∷ []) []
      (replicate 0x1818 0xaa) rooms table_fits (omega arith) (omega arith) refl
      (length-replicate {A = ℕ} 0x1818 0xaa)

abbrev identity : Named
identity = record { label = codes "identity"; body = 5 ∷ [] }

no_identity : ¬ HasRoom flash identity
unfolding flash_size same_text
no_identity (s, found, fits) = cc

flash-ends : ends flash ≡ true
unfolding ends
flash-ends = refl

one_fits : total (image_lines 0x800 (kernel ∷ [])) < 0x800
unfolding fwup_line hex5 hex_onto hex_digit
one_fits = ltb→lt _ _ refl

put_partitions_refuses_example :
    put_partitions
      (replicate 0x800 0xff ++ replicate 4 0)
      flash
      (entry kernel ∷ entry identity ∷ [])
    ≡ stop aborts
unfolding flash_size same_text
put_partitions_refuses_example =
    put_partitions_refuses flash (kernel ∷ []) identity [] (replicate 4 0) flash-ends (rooms.0, tt)
      one_fits (omega arith) no_identity

-- A layout for an upgrade from os-image to support-list.
abbrev slot : String → ℕ → ℕ → Slot
slot name base size = record { label = codes name; base = base; size = size }

abbrev upgrade_info : DeviceInfo
upgrade_info = record no_board {
  partitions =
      row "fs-uboot" 0 4
      ∷ row "os-image" 4 4
      ∷ row "file-system" 8 2
      ∷ row "support-list" 12 4
      ∷ row "log" 16 4
      ∷ last_row
      ∷ [];
  first_sysupgrade_partition = some (codes "os-image");
  last_sysupgrade_partition = some (codes "support-list");
}

abbrev pub list_part : Named
list_part = record { label = codes "support-list"; body = 9 ∷ [] }

generate_sysupgrade_image_example :
    generate_sysupgrade_image heap upgrade_info (entry list_part ∷ entry kernel ∷ no_partition ∷ [])
    ≡ ok (1 ∷ 2 ∷ 3 ∷ 0xff ∷ 0xff ∷ 0xff ∷ 0xff ∷ 0xff ∷ 9 ∷ [])
unfolding named same_text
generate_sysupgrade_image_example =
    generate_sysupgrade_image_lem (slot "fs-uboot" 0 4 ∷ []) (slot "file-system" 8 2 ∷ [])
      (slot "log" 16 4 ∷ []) (slot "os-image" 4 4) (slot "support-list" 12 4) [] heap upgrade_info
      (list_part ∷ kernel ∷ []) [] list_part (replicate 9 0xaa) refl refl refl refl
      ((refl, refl), tt) ((refl, refl), tt) ((refl, refl), tt) refl
      (omega arith, omega arith, (omega arith, omega arith, (omega arith, omega arith, tt)))
      (omega arith) (omega arith) refl refl
