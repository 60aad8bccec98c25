-- ===== src/Safeloader/Unpack/Extracted.antt =====
-- `extract_firmware` of tools/tplink-safeloader/tplink-safeloader.c on an image that
-- `generate_factory_image` made.
use safewrt.Common.{
  ℕ, zero, suc, ◌+◌, ◌-◌, ◌^◌, ◌≤◌, ◌<◌, ◌≡◌, refl, ap, ◌∙◌, sym, true, Option, List, [], ◌∷◌, ◌++◌,
  All, all, Bytes, length, take, drop, total, joined, replicate, length-append, length-drop,
  drop-drop, drop-append, take-append, length-joined, arith,
}
use safewrt.Common.Outcome.{ok}
use safewrt.Common.Text.{codes}
use safewrt.Safeloader.Layout.{flash_row, flash_array, last_row}
use safewrt.Safeloader.Image.Partitions.{Named, bodies, image_lines}
use safewrt.Safeloader.Image.Blank.{VendorFits}
use safewrt.Safeloader.Image.Factory.{factory_image}
use safewrt.Safeloader.Image.Places.{drop-factory_image}
use safewrt.Safeloader.Extract.{is_free, header_of, read_partition_table}
use safewrt.Safeloader.Extract.Lines.{is_plain}
use safewrt.Safeloader.Extract.Entries.{IsPrintable, slot_lines}
use safewrt.Safeloader.Extract.Table.{read_partition_table-slot_lines}
use safewrt.Safeloader.Extract.Formats.{fwup_format, image_slots, joined-image_lines}
use safewrt.Safeloader.Unpack.{
  OutFile, fresh, contents, fwrite, Disk, write_partition, extract_firmware_partition,
  extract_entries, path_max,
}
use safewrt.Safeloader.Unpack.Chunks.{write_partition_lem}
use mathlib.Core.List.{append-nil}

-- A name that can stand in a table: no space, newline or zero, and 31 bytes at most.
abbrev pub IsName : Named → Type 0
IsName n = (all is_plain n.label ≡ true) × (length n.label ≤ 31)

IsName-IsPrintable :
    (ns : List Named) (base : ℕ)
    → All IsName ns
    → base + total (bodies ns) < 2 ^ 32
    → All IsPrintable (image_slots base ns)
IsName-IsPrintable [] base h hb = tt
IsName-IsPrintable (n ∷ ns) base h hb = (
  (h.0.0, h.0.1, omega arith, omega arith),
  IsName-IsPrintable ns (base + length n.body) h.1 (omega arith),
)

length-image_slots : (ns : List Named) (base : ℕ) → length (image_slots base ns) ≡ length ns
length-image_slots [] base = refl
length-image_slots (n ∷ ns) base = ap suc (length-image_slots ns (base + length n.body))

module _ (md5 : Bytes → Bytes) (md5_length : (m : Bytes) → length (md5 m) ≡ 16)
    (vendor : Option Bytes) (n : Named) (ns : List Named) (hv : VendorFits vendor)
    (hl : total (image_lines 0x800 (n ∷ ns)) < 0x800) (hn : All IsName (n ∷ ns))
    (hw : 0x800 + total (bodies (n ∷ ns)) < 2 ^ 32) where
  -- The table of a factory image is read as the names, places and sizes of its partitions, and the
  -- entries behind them stay free.
  pub read_partition_table-factory_image :
      (stack : Bytes) (entries k : ℕ)
      → length stack ≡ 2048
      → entries ≡ length (n ∷ ns) + k
      → read_partition_table
          (factory_image md5 vendor (n ∷ ns))
          0x1014
          stack
          (replicate entries last_row)
          0
        ≡ ok (0, flash_array (image_slots 0x800 (n ∷ ns)) (replicate k last_row))
  unfolding header_of
  read_partition_table-factory_image stack entries k hs he =
      read_partition_table-slot_lines fwup_format 0 (image_slots (0x800 + length n.body) ns)
        (record { label = n.label; base = 0x800; size = length n.body })
        (factory_image md5 vendor (n ∷ ns)) rest stack 0x1014 entries k refl table
        (IsName-IsPrintable (n ∷ ns) 0x800 hn hw) short hs
        (omega (arith, length-image_slots ns (0x800 + length n.body)))
    where
      rest : Bytes
      rest = replicate (0x7ff - total (image_lines 0x800 (n ∷ ns))) 0xff ++ joined (bodies (n ∷ ns))

      table :
          drop 0x1014 (factory_image md5 vendor (n ∷ ns))
          ≡ slot_lines fwup_format (image_slots 0x800 (n ∷ ns)) ++ (0 ∷ rest)
      table =
          drop-factory_image md5 md5_length vendor (n ∷ ns) hv
          ∙ ap (λ (z : Bytes). z ++ (0 ∷ rest)) (joined-image_lines (n ∷ ns) 0x800)

      short : length (slot_lines fwup_format (image_slots 0x800 (n ∷ ns))) < 2048
      short = omega (
        arith,
        ap length (joined-image_lines (n ∷ ns) 0x800),
        length-joined (image_lines 0x800 (n ∷ ns)),
      )

-- The files of the partitions: each is named after its partition and holds the contents of it.
abbrev pub extracted : Bytes → List Named → List (Bytes × Bytes)
extracted directory [] = []
extracted directory (n ∷ ns) =
    (take (path_max - 1) (directory ++ (codes "/" ++ n.label)), n.body) ∷ extracted directory ns

contents-fresh : (xs : Bytes) → contents (fwrite fresh xs) ≡ xs
unfolding fwrite
contents-fresh [] = refl
contents-fresh (x ∷ xs) = append-nil (x ∷ xs)

free_entries :
    (disk : Disk) (file directory : Bytes) (k call : ℕ)
    → extract_entries disk call file 0x1014 (replicate k last_row) directory ≡ ok []
unfolding extract_entries is_free
free_entries disk file directory zero call = refl
free_entries disk file directory (suc k) call = free_entries disk file directory k (call + 1)

module _ (disk : Disk) (created : (path : Bytes) → disk.can_create path ≡ true)
    (file directory : Bytes) where
  -- One partition that stands at its place in the image.
  extract_firmware_partition-flash_row :
      (n : Named) (base call : ℕ) (behind : Bytes)
      → drop (base + 0x1014) file ≡ n.body ++ behind
      → base + 0x1014 ≤ length file
      → extract_firmware_partition disk call file 0x1014
          (flash_row (record { label = n.label; base = base; size = length n.body }))
          directory
        ≡ ok (take (path_max - 1) (directory ++ (codes "/" ++ n.label)), n.body)
  unfolding extract_firmware_partition
  extract_firmware_partition-flash_row n base call behind hd hf =
      rw (created (take (path_max - 1) (directory ++ (codes "/" ++ n.label)))) (
        ap
          (λ (f : OutFile).
            ok (take (path_max - 1) (directory ++ (codes "/" ++ n.label)), contents f))
          copied
        ∙ ap (λ (z : Bytes). ok (take (path_max - 1) (directory ++ (codes "/" ++ n.label)), z))
            (contents-fresh (take (length n.body) (drop (base + 0x1014) file))
              ∙ ap (take (length n.body)) hd
              ∙ take-append (length n.body) n.body behind refl))
    where
      copied :
          write_partition
            (disk.stack call 4096)
            file
            0x1014
            (flash_row (record { label = n.label; base = base; size = length n.body }))
            fresh
          ≡ fwrite fresh (take (length n.body) (drop (base + 0x1014) file))
      copied =
          write_partition_lem (disk.stack call 4096) file 0x1014
            (flash_row (record { label = n.label; base = base; size = length n.body })) fresh
            (omega
              (arith, ap length hd, length-append n.body behind, length-drop (base + 0x1014) file))

  -- The partitions behind one another, and free entries behind them.
  pub extract_entries-image_slots :
      (ns : List Named) (base call k : ℕ)
      → drop (base + 0x1014) file ≡ joined (bodies ns)
      → base + 0x1014 ≤ length file
      → extract_entries disk call file 0x1014
          (flash_array (image_slots base ns) (replicate k last_row))
          directory
        ≡ ok (extracted directory ns)
  unfolding extract_entries is_free
  extract_entries-image_slots [] base call k hd hf = free_entries disk file directory k call
  extract_entries-image_slots (n ∷ ns) base call k hd hf =
      rw
        (
          extract_firmware_partition-flash_row n base call (joined (bodies ns)) hd hf,
          extract_entries-image_slots ns (base + length n.body) (call + 1) k next room,
        )
        refl
    where
      next : drop (base + length n.body + 0x1014) file ≡ joined (bodies ns)
      next =
          sym (
            drop-drop (base + 0x1014) (length n.body) (base + length n.body + 0x1014) file
              (omega arith))
          ∙ ap (drop (length n.body)) hd
          ∙ drop-append (length n.body) n.body (joined (bodies ns)) refl

      room : base + length n.body + 0x1014 ≤ length file
      room = omega (
        arith,
        ap length hd,
        length-append n.body (joined (bodies ns)),
        length-drop (base + 0x1014) file,
      )
