-- ===== src/Safeloader/Unpack/Found.antt =====
-- The partitions that `convert_firmware` of tools/tplink-safeloader/tplink-safeloader.c looks for.
use safewrt.Common.{
  ℕ, ◌+◌, ◌≤◌, ◌≡◌, refl, ap, ◌∙◌, sym, true, Option, some, List, [], ◌∷◌, All, Bytes, length,
  replicate, arith, Bool-cases, inl, inr,
}
use safewrt.Common.Outcome.{ok}
use safewrt.Common.Text.{codes, same_text, same_text_iff}
use safewrt.Safeloader.Layout.{FlashPartition, Slot, flash_row, flash_array, last_row}
use safewrt.Safeloader.Image.Partitions.{Named, HasRoom, flash_size}
use safewrt.Safeloader.Extract.{read_partition_table}
use safewrt.Safeloader.Unpack.{
  Disk, fresh, contents, fseek, write_partition, write_ff, sub32, convert_firmware,
}
use safewrt.Safeloader.Unpack.Convert.{slot_named, find_partition-slot_named, named_at}

-- The flash has room for a partition that is found by its name.
pub named_at-HasRoom :
    (flash : List FlashPartition) (ns : List Named) (base at : ℕ) (name : Bytes) (n : Named) (s : ℕ)
    → All (HasRoom flash) ns
    → named_at base ns name ≡ some (at, n)
    → flash_size flash name ≡ some s
    → length n.body ≤ s
unfolding named_at
named_at-HasRoom flash [] base at name n s hr hn hs = cc
named_at-HasRoom flash (m ∷ ns) base at name n s hr hn hs =
    elim (Bool-cases (same_text m.label name)) [
      | inl same ↦
          let (size, found, fits) = hr.0 in
          let label : m.label ≡ name = (same_text_iff m.label name).0 same in
          omega (
            arith,
            size_same (sym found ∙ ap (flash_size flash) label ∙ hs),
            ap length (body_same (rw same at hn)),
          )
      | inr other ↦
          named_at-HasRoom flash ns (base + length m.body) at name n s hr.1 (rw other at hn) hs
    ]
  where
    size_same : {x y : ℕ} → some x ≡ some y → x ≡ y
    size_same h = cc

    body_same : ◌≡◌ {A = Option (ℕ × Named)} (some (base, m)) (some (at, n)) → m.body ≡ n.body
    body_same h = cc

-- The place of a partition.
abbrev pub slot : ℕ → Named → Slot
slot at n = record { label = n.label; base = at; size = length n.body }

pub rows_same : {x y : List Slot} → some x ≡ some y → x ≡ y
rows_same h = cc

-- The conversion behind the reading of two tables that have the rows which are looked for.
pub convert_firmware-slots :
    (disk : Disk) (input output image : Bytes) (fwup flash : List Slot)
    (more more' : List FlashPartition) (os fs table fos ffs : Slot)
    → disk.exists input ≡ true
    → disk.open_input input ≡ some image
    → disk.can_create output ≡ true
    → read_partition_table image 0x1014 (disk.stack 0 2048) (replicate 32 last_row) 0
      ≡ ok (0, flash_array fwup more)
    → slot_named fwup (codes "os-image") ≡ some os
    → slot_named fwup (codes "file-system") ≡ some fs
    → slot_named fwup (codes "partition-table") ≡ some table
    → read_partition_table image
        (0x1014 + table.base + 4)
        (disk.stack 1 2048)
        (replicate 32 last_row)
        1
      ≡ ok (0, flash_array flash more')
    → slot_named flash (codes "os-image") ≡ some fos
    → slot_named flash (codes "file-system") ≡ some ffs
    → convert_firmware disk input output
      ≡ ok (
          contents (
            write_ff
              (write_partition (disk.stack 3 4096) image 0x1014 (flash_row fs) (
                fseek
                  (write_ff
                    (write_partition (disk.stack 2 4096) image 0x1014 (flash_row os) fresh)
                    (sub32 fos.size os.size))
                  (sub32 ffs.base fos.base)))
              (sub32 ffs.size fs.size)))
unfolding convert_firmware
convert_firmware-slots disk input output image fwup flash more more' os fs table fos ffs he ho hc r
      hos hfs htable r' hfos hffs =
    rw
      (
        he,
        ho,
        hc,
        r,
        find_partition-slot_named fwup more (codes "os-image") os hos,
        find_partition-slot_named fwup more (codes "file-system") fs hfs,
        find_partition-slot_named fwup more (codes "partition-table") table htable,
        r',
        find_partition-slot_named flash more' (codes "os-image") fos hfos,
        find_partition-slot_named flash more' (codes "file-system") ffs hffs,
      )
      refl
