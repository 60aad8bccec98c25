-- ===== src/Tests/CommandLine.antt =====
-- A run of `main` of tools/tplink-safeloader/tplink-safeloader.c.
use safewrt.Common.{
  ℕ, ◌≡◌, refl, true, ◌⊎◌, Option, none, List, [], ◌∷◌, Bytes, replicate, length-replicate, arith,
  ap,
}
use safewrt.Common.Outcome.{Outcome, ok, ◌>>=◌}
use safewrt.Common.Text.{codes}
use safewrt.Safeloader.Image.Factory.{generate_factory_image_lem}
use safewrt.Safeloader.Unpack.{extract_firmware}
use safewrt.Safeloader.Unpack.RoundTrip.{extract_firmware-generate_factory_image}
use safewrt.Safeloader.CommandLine.{
  Number, wrote, extract, choose, read_option, run, set_source_date_epoch, main,
}
use safewrt.Safeloader.CommandLine.Letters.{given, usage_status}
use safewrt.Safeloader.CommandLine.Wrote.{ExtractedOf, ConvertedOf, BuiltOf, main-wrote}
use safewrt.Tests.Image.{heap, kernel, rootfs, info, checksum, rooms, table_fits}
use safewrt.Tests.Extract.{disk_with, image, names}
use safewrt.Tests.Build.{host}

abbrev files : List (Bytes × Bytes)
files = (codes "out/os-image", 1 ∷ 2 ∷ 3 ∷ []) ∷ (codes "out/file-system", 4 ∷ []) ∷ []

-- The first -d is overruled by the second one.
abbrev opts : List (ℕ × Bytes)
opts = (b'd', codes "elsewhere") ∷ (b'x', codes "factory.bin") ∷ (b'd', codes "out") ∷ []

abbrev strtoull : Bytes → Number
strtoull text = record { value = 0; rest = []; failed = true }

abbrev sscanf_rev : Bytes → ℕ → ℕ
sscanf_rev text rev = rev

files_made : extract_firmware (disk_with image) (codes "factory.bin") (codes "out") ≡ ok files
files_made =
    extract_firmware-generate_factory_image checksum (λ m. refl) heap info kernel (rootfs ∷ []) []
      (replicate 0x1818 0xaa) rooms table_fits (omega arith) (omega arith) refl
      (length-replicate {A = ℕ} 0x1818 0xaa) names (omega arith) (disk_with image) (λ path. refl)
      (λ call size. length-replicate size call) (codes "factory.bin") (codes "out") image refl refl
      refl
      (generate_factory_image_lem checksum (λ m. refl) heap info kernel (rootfs ∷ []) []
        (replicate 0x1818 0xaa) rooms table_fits (omega arith) (omega arith) refl
        (length-replicate {A = ℕ} 0x1818 0xaa))

read : main strtoull sscanf_rev none host (disk_with image) opts ≡ ok (wrote files)
unfolding main set_source_date_epoch run read_option choose extract
read = ap (λ (made : Outcome (List (Bytes × Bytes))). made >>= λ all. ok (wrote all)) files_made

main-wrote_example :
    (epoch : Option ℕ) × (set_source_date_epoch strtoull none ≡ ok epoch)
    × (usage_status opts ≡ none)
    × (ExtractedOf (disk_with image) opts files
        ⊎ ((given b'x' opts ≡ none)
            × (given b'd' opts ≡ none)
            × (ConvertedOf (disk_with image) opts files
                ⊎ ((given b'z' opts ≡ none)
                    × BuiltOf (record host { source_date_epoch = epoch }) sscanf_rev opts files))))
main-wrote_example = main-wrote strtoull sscanf_rev none host (disk_with image) opts files read
