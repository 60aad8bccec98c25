-- ===== src/Safeloader/Image/Factory.antt =====
-- The whole factory image: size, checksum, vendor information, table and contents.
use safewrt.Common.{
  ℕ, ◌+◌, ◌-◌, ◌%◌, ◌^◌, ◌<◌, ◌≡◌, ◌∙◌, sym, Option, some, List, ◌∷◌, ◌++◌, All, Bytes, length,
  drop, total, joined, length-append, drop-append, take-length, replicate, length-replicate, arith,
  length-joined,
}
use safewrt.Common.Outcome.{ok}
use safewrt.Common.Words.{be32, length-be32}
use safewrt.Common.Memory.{write_middle}
use safewrt.Safeloader.Layout.{ImagePartition, DeviceInfo, no_partition}
use safewrt.Safeloader.Pieces.{Malloc}
use safewrt.Safeloader.Image.{put_md5, md5_salt, generate_factory_image}
use safewrt.Safeloader.Image.Partitions.{
  Named, parts_array, bodies, image_lines, HasRoom, laid_out, put_partitions_lem,
}
use mathlib.Core.List.{append_assoc}
use safewrt.Safeloader.Image.Blank.{
  VendorFits, vendor_block, length-vendor_block, head_of, generate_factory_image-put_partitions,
}

-- The image behind the checksum.
abbrev factory_body : Option Bytes → List Named → Bytes
factory_body vendor ns = vendor_block vendor ++ laid_out ns

-- The image of named partitions, `md5` being that of the checksum.
abbrev pub factory_image : (Bytes → Bytes) → Option Bytes → List Named → Bytes
factory_image md5 vendor ns =
    be32 (0x1814 + total (bodies ns))
    ++ (md5 (md5_salt ++ factory_body vendor ns) ++ factory_body vendor ns)

pub length-laid_out :
    (ns : List Named)
    → total (image_lines 0x800 ns) < 0x800
    → length (laid_out ns) ≡ 0x800 + total (bodies ns)
length-laid_out ns h = omega (
  arith,
  length-append (joined (image_lines 0x800 ns))
      ((0 ∷ replicate (0x7ff - total (image_lines 0x800 ns)) 0xff) ++ joined (bodies ns)),
  length-append (replicate (0x7ff - total (image_lines 0x800 ns)) 0xff) (joined (bodies ns)),
  length-replicate {A = ℕ} (0x7ff - total (image_lines 0x800 ns)) 0xff,
  length-joined (image_lines 0x800 ns),
  length-joined (bodies ns),
)

-- The checksum is taken of all that follows it.
put_md5_lem :
    (md5 : Bytes → Bytes) (size_bytes behind : Bytes) (len : ℕ)
    → length (md5 (md5_salt ++ behind)) ≡ 16
    → length size_bytes ≡ 4
    → len ≡ length behind
    → len < 2 ^ 32
    → put_md5 md5 (size_bytes ++ (replicate 16 0xff ++ behind)) len
      ≡ ok (size_bytes ++ (md5 (md5_salt ++ behind) ++ behind))
unfolding put_md5
put_md5_lem md5 size_bytes behind len hm hs hl hw =
    rw (behind_it, take-length (len % 2 ^ 32) behind (omega arith))
      (write_middle size_bytes (replicate 16 0xff) behind (md5 (md5_salt ++ behind)) 4 (sym hs) hm)
  where
    behind_it : drop 0x14 (size_bytes ++ (replicate 16 0xff ++ behind)) ≡ behind
    behind_it = rw (← append_assoc size_bytes (replicate 16 0xff) behind) (
        drop-append 0x14 (size_bytes ++ replicate 16 0xff) behind
          (omega (arith, length-append size_bytes (replicate 16 0xff))))

module _ (md5 : Bytes → Bytes) (md5_length : (m : Bytes) → length (md5 m) ≡ 16) (malloc : Malloc)
    (info : DeviceInfo) (n : Named) (ns : List Named) (tail : List ImagePartition) (block : Bytes)
    (hs : All (HasRoom info.partitions) (n ∷ ns)) (hl : total (image_lines 0x800 (n ∷ ns)) < 0x800)
    (hv : VendorFits info.vendor) (hw : 0x1814 + total (bodies (n ∷ ns)) < 2 ^ 32)
    (hm : malloc (0x1814 + total (bodies (n ∷ ns))) ≡ some block)
    (hb : length block ≡ 0x1814 + total (bodies (n ∷ ns))) where
  -- With at least one partition, room in the flash for each, a table that fits and an image below
  -- 4 GiB, the factory image is its size, the checksum of what follows it, the vendor
  -- information, the table and the contents up to the first entry with no name.
  pub generate_factory_image_lem :
      generate_factory_image md5 malloc info (parts_array (n ∷ ns) (no_partition ∷ tail))
      ≡ ok (factory_image md5 info.vendor (n ∷ ns))
  generate_factory_image_lem =
      generate_factory_image-put_partitions md5 malloc info (n ∷ ns) tail block hv hw hm hb
      ∙ rw (put_partitions_lem info.partitions n ns hs hl tail) (
          rw regroup (
            put_md5_lem md5 (be32 (0x1814 + total (bodies (n ∷ ns))))
              (factory_body info.vendor (n ∷ ns)) (0x1814 + total (bodies (n ∷ ns)) - 0x14)
              (md5_length _) (length-be32 _) body_length (omega arith)))
    where
      body_length :
          0x1814 + total (bodies (n ∷ ns)) - 0x14 ≡ length (factory_body info.vendor (n ∷ ns))
      body_length = omega (
        arith,
        length-append (vendor_block info.vendor) (laid_out (n ∷ ns)),
        length-vendor_block info.vendor hv,
        length-laid_out (n ∷ ns) hl,
      )

      regroup :
          (head_of (total (bodies (n ∷ ns))) ++ vendor_block info.vendor) ++ laid_out (n ∷ ns)
          ≡ be32 (0x1814 + total (bodies (n ∷ ns)))
            ++ (replicate 16 0xff ++ factory_body info.vendor (n ∷ ns))
      regroup = simp append_assoc
