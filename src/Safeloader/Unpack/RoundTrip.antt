-- ===== src/Safeloader/Unpack/RoundTrip.antt =====
-- `extract_firmware` of tools/tplink-safeloader/tplink-safeloader.c behind `generate_factory_image`.
use safewrt.Common.{
  ℕ, ◌+◌, ◌-◌, ◌^◌, ◌≤◌, ◌<◌, ◌≡◌, ap, ◌∙◌, sym, true, some, List, ◌∷◌, All, Bytes, length, drop,
  total, replicate, arith,
}
use safewrt.Common.Outcome.{ok}
use safewrt.Safeloader.Pieces.{Malloc}
use safewrt.Safeloader.Image.{generate_factory_image}
use safewrt.Safeloader.Layout.{DeviceInfo, ImagePartition, no_partition, last_row}
use safewrt.Safeloader.Image.Partitions.{Named, HasRoom, parts_array, bodies, image_lines}
use safewrt.Safeloader.Image.Blank.{VendorFits}
use safewrt.Safeloader.Image.Factory.{factory_image, generate_factory_image_lem}
use safewrt.Safeloader.Image.Places.{drop_contents-factory_image, factory_image-reaches_contents}
use safewrt.Safeloader.Extract.{read_partition_table}
use safewrt.Safeloader.Unpack.{Disk, extract_firmware}
use safewrt.Safeloader.Unpack.Extracted.{
  IsName, extracted, read_partition_table-factory_image, extract_entries-image_slots,
}

pub ok_same : {x y : Bytes} → ok x ≡ ok y → x ≡ y
ok_same h = cc

module _ (md5 : Bytes → Bytes) (md5_length : (m : Bytes) → length (md5 m) ≡ 16) (malloc : Malloc)
    (info : DeviceInfo) (n : Named) (ns : List Named) (tail : List ImagePartition) (block : Bytes)
    (hs : All (HasRoom info.partitions) (n ∷ ns)) (hl : total (image_lines 0x800 (n ∷ ns)) < 0x800)
    (hv : VendorFits info.vendor) (hw : 0x1814 + total (bodies (n ∷ ns)) < 2 ^ 32)
    (hm : malloc (0x1814 + total (bodies (n ∷ ns))) ≡ some block)
    (hb : length block ≡ 0x1814 + total (bodies (n ∷ ns))) (hn : All IsName (n ∷ ns))
    (h16 : length (n ∷ ns) ≤ 16) (disk : Disk)
    (created : (path : Bytes) → disk.can_create path ≡ true)
    (buffers : (call size : ℕ) → length (disk.stack call size) ≡ size) where
  pub extract_firmware-generate_factory_image :
      (input directory image : Bytes)
      → disk.exists input ≡ true
      → disk.is_directory directory ≡ some true
      → disk.open_input input ≡ some image
      → generate_factory_image md5 malloc info (parts_array (n ∷ ns) (no_partition ∷ tail))
        ≡ ok image
      → extract_firmware disk input directory ≡ ok (extracted directory (n ∷ ns))
  unfolding extract_firmware
  extract_firmware-generate_factory_image input directory image he hd ho hg =
      rw
        (
          he,
          hd,
          ho,
          ap
              (λ (z : Bytes).
                read_partition_table z 0x1014 (disk.stack 0 2048) (replicate 16 last_row) 0)
              made,
          read_partition_table-factory_image md5 md5_length info.vendor n ns hv hl hn (omega arith)
              (disk.stack 0 2048) 16 (16 - length (n ∷ ns)) (buffers 0 2048) (omega arith),
        )
        (extract_entries-image_slots disk created image directory (n ∷ ns) 0x800 1
          (16 - length (n ∷ ns))
          (ap (drop (0x800 + 0x1014)) made
            ∙ drop_contents-factory_image md5 md5_length info.vendor (n ∷ ns) hv hl)
          (omega (
            arith,
            ap length made,
            factory_image-reaches_contents md5 md5_length info.vendor (n ∷ ns) hv hl,
          )))
    where
      made : image ≡ factory_image md5 info.vendor (n ∷ ns)
      made = ok_same (
          sym hg
          ∙ generate_factory_image_lem md5 md5_length malloc info n ns tail block hs hl hv hw hm hb)
