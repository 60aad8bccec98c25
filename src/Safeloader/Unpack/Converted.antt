-- ===== src/Safeloader/Unpack/Converted.antt =====
-- `convert_firmware` of tools/tplink-safeloader/tplink-safeloader.c behind `generate_factory_image`, for
-- the boards that the tool knows.
use safewrt.Common.{
  ℕ, ◌+◌, ◌-◌, ◌^◌, ◌≤◌, ◌<◌, ◌≡◌, refl, ap, ◌∙◌, sym, true, some, List, ◌∷◌, ◌++◌, All, Bytes,
  length, drop, total, joined, replicate, arith,
}
use safewrt.Common.Outcome.{ok}
use safewrt.Common.Text.{codes}
use safewrt.Safeloader.Layout.{
  DeviceInfo, ImagePartition, no_partition, FlashPartition, Slot, flash_row, flash_array, last_row,
}
use safewrt.Safeloader.Pieces.{Malloc, make_partition_table}
use safewrt.Safeloader.Build.{find_board}
use safewrt.Safeloader.Image.{generate_factory_image}
use safewrt.Safeloader.Image.Partitions.{Named, HasRoom, parts_array, bodies, image_lines}
use safewrt.Safeloader.Image.Blank.{VendorFits}
use safewrt.Safeloader.Image.Factory.{factory_image, generate_factory_image_lem}
use safewrt.Safeloader.Image.Places.{drop_contents-factory_image, factory_image-reaches_contents}
use safewrt.Safeloader.Extract.{read_partition_table}
use safewrt.Safeloader.Extract.Formats.{image_slots, slots_of}
use safewrt.Safeloader.Extract.Boards.{read_partition_table-find_board}
use safewrt.Safeloader.Unpack.{Disk, convert_firmware}
use safewrt.Safeloader.Unpack.Extracted.{IsName, read_partition_table-factory_image}
use safewrt.Safeloader.Unpack.RoundTrip.{ok_same}
use safewrt.Safeloader.Unpack.Convert.{
  slot_named, named_at, slot_named-image_slots, named_at-drop, padded, converted,
}
use safewrt.Safeloader.Unpack.Rows.{slots_of-find_board, flash_size-slots_of}
use safewrt.Safeloader.Unpack.Found.{named_at-HasRoom, slot, rows_same, convert_firmware-slots}

module _ (md5 : Bytes → Bytes) (md5_length : (m : Bytes) → length (md5 m) ≡ 16) (malloc : Malloc)
    (id : Bytes) (board : DeviceInfo) (n : Named) (ns : List Named) (tail : List ImagePartition)
    (block : Bytes) (hid : find_board id ≡ some board)
    (hs : All (HasRoom board.partitions) (n ∷ ns)) (hl : total (image_lines 0x800 (n ∷ ns)) < 0x800)
    (hv : VendorFits board.vendor) (hw : 0x1814 + total (bodies (n ∷ ns)) < 2 ^ 32)
    (hm : malloc (0x1814 + total (bodies (n ∷ ns))) ≡ some block)
    (hb : length block ≡ 0x1814 + total (bodies (n ∷ ns))) (hn : All IsName (n ∷ ns))
    (h32 : length (n ∷ ns) ≤ 32) (os_at fs_at table_at : ℕ) (os fs table : Named)
    (hos : named_at 0x800 (n ∷ ns) (codes "os-image") ≡ some (os_at, os))
    (hfs : named_at 0x800 (n ∷ ns) (codes "file-system") ≡ some (fs_at, fs))
    (htable : named_at 0x800 (n ∷ ns) (codes "partition-table") ≡ some (table_at, table))
    (table_malloc : Malloc) (table_block : Bytes) (made : ImagePartition)
    (hmt : table_malloc 0x800 ≡ some table_block) (hbt : length table_block ≡ 0x800)
    (hmade : make_partition_table table_malloc board.partitions ≡ ok made)
    (hbody : table.body ≡ made.content) (disk : Disk)
    (buffers : (call size : ℕ) → length (disk.stack call size) ≡ size) where
  -- For every board that can be found, an image that `generate_factory_image` made of 1 to 32
  -- partitions with plain names, with os-image, file-system and the board's printed
  -- partition-table among them, with room in the flash and in the table, a vendor information
  -- that fits, a size below 4 GiB, a `malloc` that answers, files that can be opened and buffers
  -- of the right length: `convert_firmware` writes the contents of os-image with 0xff up to the
  -- size of its place in the flash, zeros up to the place of file-system, and its contents with
  -- 0xff up to the size of that place.
  pub convert_firmware-generate_factory_image :
      (input output image : Bytes)
      → disk.exists input ≡ true
      → disk.open_input input ≡ some image
      → disk.can_create output ≡ true
      → generate_factory_image md5 malloc board (parts_array (n ∷ ns) (no_partition ∷ tail))
        ≡ ok image
      → (rs : List Slot) × (fos : Slot) × (ffs : Slot) × (slots_of board.partitions ≡ some rs)
        × (slot_named rs (codes "os-image") ≡ some fos)
        × (slot_named rs (codes "file-system") ≡ some ffs)
        × (convert_firmware disk input output
            ≡ ok (
                padded os.body fos.size
                ++ (replicate (ffs.base - fos.base - fos.size) 0 ++ padded fs.body ffs.size)))
  convert_firmware-generate_factory_image input output image he ho hc hg =
      let (rs, fos, ffs, rows, os_row, fs_row, order, room, low) =
        slots_of-find_board id board hid in
      let (os_behind, os_there, os_in) =
        named_at-drop (n ∷ ns) 0x800 os_at 0x1014 (codes "os-image") image os hos contents_at
          reach in
      let (fs_behind, fs_there, fs_in) =
        named_at-drop (n ∷ ns) 0x800 fs_at 0x1014 (codes "file-system") image fs hfs contents_at
          reach in
      let (behind, there, table_in) =
        named_at-drop (n ∷ ns) 0x800 table_at 0x1014 (codes "partition-table") image table htable
          contents_at reach in
      let (rs', rows', few, read) =
        read_partition_table-find_board id board table_malloc table_block made image behind
          (disk.stack 1 2048) (0x1014 + table_at) hid hmt hbt hmade (at_table behind there)
          (buffers 1 2048) in
      let same : rs' ≡ rs = rows_same (sym rows' ∙ rows) in
      (
        rs,
        fos,
        ffs,
        rows,
        os_row,
        fs_row,
        convert_firmware-slots disk input output image (image_slots 0x800 (n ∷ ns)) rs more
              (replicate (32 - length rs) last_row) (slot os_at os) (slot fs_at fs)
              (slot table_at table) fos ffs he ho hc first_table
              (slot_named-image_slots (n ∷ ns) 0x800 os_at (codes "os-image") os hos)
              (slot_named-image_slots (n ∷ ns) 0x800 fs_at (codes "file-system") fs hfs)
              (slot_named-image_slots (n ∷ ns) 0x800 table_at (codes "partition-table") table
                htable)
              (rw same at read) os_row fs_row
            ∙ ap ok (
                converted image (disk.stack 2 4096) (disk.stack 3 4096) (flash_row (slot os_at os))
                  (flash_row (slot fs_at fs)) (flash_row fos) (flash_row ffs) os.body fs.body
                  os_behind fs_behind os_there os_in refl fs_there fs_in refl
                  (named_at-HasRoom board.partitions (n ∷ ns) 0x800 os_at (codes "os-image") os
                    fos.size hs hos
                    (flash_size-slots_of board.partitions rs (codes "os-image") fos rows os_row))
                  order
                  (named_at-HasRoom board.partitions (n ∷ ns) 0x800 fs_at (codes "file-system") fs
                    ffs.size hs hfs
                    (flash_size-slots_of board.partitions rs (codes "file-system") ffs rows fs_row))
                  room low),
      )
    where
      made_image : image ≡ factory_image md5 board.vendor (n ∷ ns)
      made_image = ok_same (
          sym hg
          ∙ generate_factory_image_lem md5 md5_length malloc board n ns tail block hs hl hv hw hm
              hb)

      more : List FlashPartition
      more = replicate (32 - length (n ∷ ns)) last_row

      contents_at : drop (0x800 + 0x1014) image ≡ joined (bodies (n ∷ ns))
      contents_at =
          ap (drop (0x800 + 0x1014)) made_image
          ∙ drop_contents-factory_image md5 md5_length board.vendor (n ∷ ns) hv hl

      reach : 0x800 + 0x1014 ≤ length image
      reach = omega (
        arith,
        ap length made_image,
        factory_image-reaches_contents md5 md5_length board.vendor (n ∷ ns) hv hl,
      )

      first_table :
          read_partition_table image 0x1014 (disk.stack 0 2048) (replicate 32 last_row) 0
          ≡ ok (0, flash_array (image_slots 0x800 (n ∷ ns)) more)
      first_table =
          ap
            (λ (z : Bytes).
              read_partition_table z 0x1014 (disk.stack 0 2048) (replicate 32 last_row) 0)
            made_image
          ∙ read_partition_table-factory_image md5 md5_length board.vendor n ns hv hl hn
              (omega arith) (disk.stack 0 2048) 32 (32 - length (n ∷ ns)) (buffers 0 2048)
              (omega arith)

      at_table :
          (behind : Bytes)
          → drop (table_at + 0x1014) image ≡ table.body ++ behind
          → drop (0x1014 + table_at) image ≡ made.content ++ behind
      at_table behind there =
          ap (λ k. drop k image) (omega arith) ∙ there ∙ ap (λ (z : Bytes). z ++ behind) hbody
