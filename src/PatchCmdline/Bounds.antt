-- ===== src/PatchCmdline/Bounds.antt =====
-- The bounds of tools/patch-cmdline/patch-cmdline.c: what it reads and writes is in the mapping.
use safewrt.Common.{
  ℕ, zero, suc, ◌+◌, ◌*◌, ◌/◌, ◌%◌, ◌^◌, ◌≤◌, ◌<◌, ◌≡◌, ◌⊎◌, refl, Option, none, some, [], ◌∷◌,
  ◌++◌, Bytes, length, take, drop, ltb, arith, length-append, replicate, length-replicate, le→leb,
  Bool-cases, inl, inr, ltb_false→le,
}
use safewrt.Common.Outcome.{ok}
use safewrt.Common.Memory.{write, write_inside, length-write}
use safewrt.PatchCmdline.{marker_at, find_marker, put_cmdline, patch}

find_marker-ok :
    (n : ℕ) (ptr : Bytes) (p : ℕ)
    → p + 4 * n + 4 ≤ length ptr
    → (find_marker n ptr p ≡ ok none)
      ⊎ ((q : ℕ) × (find_marker n ptr p ≡ ok (some q)) × (q ≤ p + 4 * n + 4))
unfolding find_marker
find_marker-ok zero ptr p h = inl refl
find_marker-ok (suc n) ptr p h =
    rw (le→leb (p + 8) (length ptr) (omega arith)) (elim (Bool-cases (marker_at ptr p)) [
      | inl here ↦ rw here (inr (p + 8, refl, omega arith))
      | inr other ↦ rw other (elim (find_marker-ok n ptr (p + 4) (omega arith)) [
        | inl nowhere ↦ inl nowhere
        | inr (q, found, below) ↦ inr (q, found, omega arith)
      ])
    ])

put_cmdline-ok :
    (ptr cmdline : Bytes) (p : ℕ)
    → p + 504 ≤ length ptr
    → length cmdline ≤ 503
    → (out : Bytes) × (put_cmdline ptr p cmdline ≡ ok out)
unfolding put_cmdline
put_cmdline-ok ptr cmdline p h hc =
    let cleared : Bytes =
      take p ptr ++ (replicate 504 0 ++ drop (p + length {A = ℕ} (replicate 504 0)) ptr) in
    let clearing : write ptr p (replicate 504 0) ≡ ok cleared =
      write_inside ptr (replicate 504 0) p (omega (arith, length-replicate {A = ℕ} 504 0)) in
    rw clearing (
      _,
      write_inside cleared (cmdline ++ (0 ∷ [])) p (
          omega
            (arith, length-write ptr (replicate 504 0) p clearing, length-append cmdline (0 ∷ []))),
    )

-- With a search space that is below 2^32 - 512, and a mapping of the search space and 512 bytes,
-- as it is asked for, with anything in it: the program ends with a status, and no read and no
-- write is outside of the mapping.
pub patch-ok :
    (mapped : ℕ → Option Bytes) (cmdline : Bytes) (space : ℕ) (ptr : Bytes)
    → space + 512 < 2 ^ 32
    → mapped (space + 512) ≡ some ptr
    → length ptr ≡ space + 512
    → (out : Option Bytes) × (patch mapped cmdline space ≡ ok out)
unfolding patch
patch-ok mapped cmdline space ptr hs hm hl =
    let size : (space + 512) % 2 ^ 32 ≡ space + 512 = omega arith in
    elim (Bool-cases (ltb 512 (length cmdline + 9))) [
      | inl long ↦ (none, rw long)
      | inr fits ↦
          rw (fits, size, hm)
            (elim (find_marker-ok ((space + 3) / 4) ptr 0 (omega arith)) [
              | inl nowhere ↦ (none, rw nowhere)
              | inr (q, found, below) ↦
                  let (out, put) =
                    put_cmdline-ok ptr cmdline q (omega arith)
                      (omega (arith, ltb_false→le 512 (length cmdline + 9) fits)) in
                  (some out, rw (found, put))
            ])
    ]
