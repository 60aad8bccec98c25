-- ===== src/Tests/Patch.antt =====
-- A run of tools/patch-cmdline/patch-cmdline.c on an image with its marker at the second place.
use safewrt.Common.{
  ℕ, zero, suc, ◌*◌, ◌<◌, ◌≡◌, refl, false, Option, some, [], ◌∷◌, ◌++◌, Bytes, replicate,
  length-replicate, arith,
}
use safewrt.Common.Outcome.{ok}
use safewrt.Common.Text.{codes, same_text}
use safewrt.PatchCmdline.{marker, marker_at, patch}
use safewrt.PatchCmdline.Patched.{patch_lem}
use safewrt.PatchCmdline.Bounds.{patch-ok}

abbrev head : Bytes
head = 1 ∷ 2 ∷ 3 ∷ 4 ∷ []

abbrev tail : Bytes
tail = 9 ∷ 9 ∷ 9 ∷ 9 ∷ []

abbrev image : Bytes
image = head ++ (marker ++ (replicate 504 0x20 ++ tail))

not_at_start : (j : ℕ) → j < 1 → marker_at image (4 * j) ≡ false
unfolding marker_at same_text
not_at_start zero h = refl
not_at_start (suc j) h = absurd (omega arith)

patch_example :
    patch (λ n. some image) (codes "quiet") 8
    ≡ ok (some (head ++ (marker ++ ((codes "quiet" ++ replicate 499 0) ++ tail))))
patch_example =
    patch_lem (λ n. some image) 8 1 head (replicate 504 0x20) tail (codes "quiet") (omega arith)
      (omega arith) refl (length-replicate {A = ℕ} 504 0x20) refl not_at_start

patch-ok_example :
    (out : Option Bytes) × (patch (λ n. some (replicate 520 0)) (codes "quiet") 8 ≡ ok out)
patch-ok_example =
    patch-ok (λ n. some (replicate 520 0)) (codes "quiet") 8 (replicate 520 0) (omega arith) refl
      (length-replicate {A = ℕ} 520 0)
