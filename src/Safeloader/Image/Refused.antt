-- ===== src/Safeloader/Image/Refused.antt =====
-- How `generate_factory_image` of tools/tplink-safeloader/tplink-safeloader.c ends where a partition has
-- no place in the flash.
use safewrt.Common.{
  ℕ, ◌+◌, ◌^◌, ◌<◌, ◌≡◌, refl, ap, ◌∙◌, true, some, List, [], ◌∷◌, ◌++◌, All, Bytes, length, total,
  length-replicate, replicate, replicate-append, arith,
}
use safewrt.Common.Outcome.{stop}
use safewrt.Safeloader.Layout.{ImagePartition, DeviceInfo, no_partition}
use safewrt.Safeloader.Pieces.{Malloc}
use safewrt.Safeloader.Image.{put_partitions, generate_factory_image}
use safewrt.Safeloader.Image.Partitions.{
  Named, entry, parts_array, bodies, image_lines, HasRoom, flash_size, ends, refusal,
  put_partitions_refuses,
}
use safewrt.Safeloader.Image.Blank.{VendorFits, generate_factory_image-put_partitions}

parts_array-append :
    (ns : List Named) (bad : Named) (ms : List Named) (tail : List ImagePartition)
    → parts_array (ns ++ (bad ∷ ms)) tail ≡ parts_array ns (entry bad ∷ parts_array ms tail)
parts_array-append [] bad ms tail = refl
parts_array-append (n ∷ ns) bad ms tail =
    ap (λ (z : List ImagePartition). entry n ∷ z) (parts_array-append ns bad ms tail)

total-bodies :
    (ns ms : List Named) → total (bodies (ns ++ ms)) ≡ total (bodies ns) + total (bodies ms)
total-bodies [] ms = omega arith
total-bodies (n ∷ ns) ms = omega (arith, total-bodies ns ms)

-- Partitions that the flash has room for, then one that it has none for, and any behind that.
pub generate_factory_image_refuses :
    (md5 : Bytes → Bytes) (malloc : Malloc) (info : DeviceInfo) (ns : List Named) (bad : Named)
    (ms : List Named) (tail : List ImagePartition) (block : Bytes)
    → VendorFits info.vendor
    → 0x1814 + total (bodies (ns ++ (bad ∷ ms))) < 2 ^ 32
    → malloc (0x1814 + total (bodies (ns ++ (bad ∷ ms)))) ≡ some block
    → length block ≡ 0x1814 + total (bodies (ns ++ (bad ∷ ms)))
    → ends info.partitions ≡ true
    → All (HasRoom info.partitions) ns
    → total (image_lines 0x800 ns) < 0x800
    → ¬ HasRoom info.partitions bad
    → generate_factory_image md5 malloc info (parts_array (ns ++ (bad ∷ ms)) (no_partition ∷ tail))
      ≡ stop (refusal (flash_size info.partitions bad.label))
generate_factory_image_refuses md5 malloc info ns bad ms tail block hv hw hm hb he hs hl hbad =
    generate_factory_image-put_partitions md5 malloc info (ns ++ (bad ∷ ms)) tail block hv hw hm hb
    ∙ rw refused refl
  where
    size : ℕ
    size = total (bodies (ns ++ (bad ∷ ms)))

    refused :
        put_partitions
          (replicate (0x800 + size) 0xff)
          info.partitions
          (parts_array (ns ++ (bad ∷ ms)) (no_partition ∷ tail))
        ≡ stop (refusal (flash_size info.partitions bad.label))
    refused =
        rw
          (
            ← replicate-append {A = ℕ} 0x800 size (0x800 + size) 0xff refl,
            parts_array-append ns bad ms (no_partition ∷ tail),
          )
          (put_partitions_refuses info.partitions ns bad (parts_array ms (no_partition ∷ tail))
            (replicate size 0xff) he hs hl
            (omega (arith, length-replicate {A = ℕ} size 0xff, total-bodies ns (bad ∷ ms))) hbad)
