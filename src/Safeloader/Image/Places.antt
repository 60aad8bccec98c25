-- ===== src/Safeloader/Image/Places.antt =====
-- Where the table and the contents stand in a factory image.
use safewrt.Common.{
  ℕ, ◌+◌, ◌-◌, ◌≤◌, ◌<◌, ◌≡◌, refl, ap, ◌∙◌, sym, Option, List, ◌∷◌, ◌++◌, Bytes, length, drop,
  total, joined, length-append, length-drop, length-replicate, replicate, drop-append, drop-drop,
  length-joined, arith,
}
use safewrt.Common.Words.{be32, length-be32}
use safewrt.Safeloader.Image.{md5_salt}
use safewrt.Safeloader.Image.Partitions.{Named, bodies, image_lines, laid_out}
use safewrt.Safeloader.Image.Blank.{VendorFits, vendor_block, length-vendor_block}
use safewrt.Safeloader.Image.Factory.{factory_image, length-laid_out}
use mathlib.Core.List.{append_assoc}

module _ (md5 : Bytes → Bytes) (md5_length : (m : Bytes) → length (md5 m) ≡ 16)
    (vendor : Option Bytes) (ns : List Named) (hv : VendorFits vendor) where
  -- The table begins behind the vendor information.
  pub drop-factory_image : drop 0x1014 (factory_image md5 vendor ns) ≡ laid_out ns
  drop-factory_image =
      ap (drop 0x1014) regroup
      ∙ drop-append 0x1014 (be32 size ++ (sum ++ vendor_block vendor)) (laid_out ns) (
          omega (
            arith,
            length-append (be32 size) (sum ++ vendor_block vendor),
            length-append sum (vendor_block vendor),
            length-be32 size,
            length-vendor_block vendor hv,
            md5_length (md5_salt ++ (vendor_block vendor ++ laid_out ns)),
          ))
    where
      size : ℕ
      size = 0x1814 + total (bodies ns)

      sum : Bytes
      sum = md5 (md5_salt ++ (vendor_block vendor ++ laid_out ns))

      regroup :
          factory_image md5 vendor ns ≡ (be32 size ++ (sum ++ vendor_block vendor)) ++ laid_out ns
      regroup = simp append_assoc

  -- The contents begin behind the table, whose base is 0x800.
  pub drop_contents-factory_image :
      total (image_lines 0x800 ns) < 0x800
      → drop (0x800 + 0x1014) (factory_image md5 vendor ns) ≡ joined (bodies ns)
  drop_contents-factory_image h =
      sym (drop-drop 0x1014 0x800 (0x800 + 0x1014) (factory_image md5 vendor ns) refl)
      ∙ ap (drop 0x800) (drop-factory_image ∙ sym (append_assoc lines pad (joined (bodies ns))))
      ∙ drop-append 0x800 (lines ++ pad) (joined (bodies ns)) (
          omega (
            arith,
            length-append lines pad,
            length-joined (image_lines 0x800 ns),
            length-replicate {A = ℕ} (0x7ff - total (image_lines 0x800 ns)) 0xff,
          ))
    where
      lines : Bytes
      lines = joined (image_lines 0x800 ns)

      pad : Bytes
      pad = 0 ∷ replicate (0x7ff - total (image_lines 0x800 ns)) 0xff

  pub factory_image-reaches_contents :
      total (image_lines 0x800 ns) < 0x800 → 0x800 + 0x1014 ≤ length (factory_image md5 vendor ns)
  factory_image-reaches_contents h = omega (
    arith,
    ap length drop-factory_image,
    length-drop 0x1014 (factory_image md5 vendor ns),
    length-laid_out ns h,
  )
