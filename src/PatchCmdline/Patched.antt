-- ===== src/PatchCmdline/Patched.antt =====
-- What `main` of tools/patch-cmdline/patch-cmdline.c leaves in the image.
use safewrt.Common.{
  ℕ, zero, suc, ◌+◌, ◌-◌, ◌*◌, ◌/◌, ◌%◌, ◌^◌, ◌≤◌, ◌<◌, ◌≡◌, refl, ap, ◌∙◌, sym, true, false,
  Option, none, some, [], ◌∷◌, ◌++◌, Bytes, length, drop, ltb, if◌then◌else◌, arith, length-append,
  replicate, length-replicate, drop-append, drop-replicate, le→leb, drop-append_left, Bool-cases,
  inl, inr, ltb_false→le,
}
use safewrt.Common.Outcome.{ok}
use safewrt.Common.Memory.{write_middle, write_next}
use safewrt.Common.Text.{same_text}
use safewrt.PatchCmdline.{marker, marker_at, find_marker, put_cmdline, patch}
use mathlib.Core.List.{append_assoc}

-- The search passes over `k` places with no marker.
find_marker-skip :
    (k rounds n : ℕ) (ptr : Bytes) (p : ℕ)
    → n ≡ k + rounds
    → ((j : ℕ) → j < k → marker_at ptr (p + 4 * j) ≡ false)
    → p + 4 * k + 4 ≤ length ptr
    → find_marker n ptr p ≡ find_marker rounds ptr (p + 4 * k)
unfolding find_marker
find_marker-skip zero rounds n ptr p hn h hl =
    ap (λ (m : ℕ). find_marker m ptr p) count ∙ ap (find_marker rounds ptr) place
  where
    count : n ≡ rounds
    count = omega arith

    place : p ≡ p + 4 * 0
    place = omega arith
find_marker-skip (suc k) rounds zero ptr p hn h hl = absurd (omega arith)
find_marker-skip (suc k) rounds (suc n) ptr p hn h hl =
    rw (le→leb (p + 8) (length ptr) (omega arith), here)
      (find_marker-skip k rounds n ptr (p + 4) (omega arith) further (omega arith)
        ∙ ap (find_marker rounds ptr) place)
  where
    start : p ≡ p + 4 * 0
    start = omega arith

    here : marker_at ptr p ≡ false
    here = ap (marker_at ptr) start ∙ h 0 (omega arith)

    shift : (j : ℕ) → p + 4 + 4 * j ≡ p + 4 * suc j
    shift j = omega arith

    further : (j : ℕ) → j < k → marker_at ptr (p + 4 + 4 * j) ≡ false
    further j hj = ap (marker_at ptr) (shift j) ∙ h (suc j) (omega arith)

    place : p + 4 + 4 * k ≡ p + 4 * suc k
    place = omega arith

put_cmdline_lem :
    (front old post cmdline : Bytes) (at : ℕ)
    → at ≡ length front
    → length old ≡ 504
    → length cmdline ≤ 503
    → put_cmdline (front ++ (old ++ post)) at cmdline
      ≡ ok (front ++ ((cmdline ++ replicate (504 - length cmdline) 0) ++ post))
unfolding put_cmdline
put_cmdline_lem front old post cmdline at ha ho hc =
    rw
      (write_middle front old post (replicate 504 0) at ha
        (omega (arith, length-replicate {A = ℕ} 504 0)))
      (write_next front (replicate 504 0 ++ post) text at ha (
          omega (
            arith,
            text_length,
            length-append (replicate {A = ℕ} 504 0) post,
            length-replicate {A = ℕ} 504 0,
          ))
        ∙ ap ok (rw (left, one_zero) (simp append_assoc)))
  where
    text : Bytes
    text = cmdline ++ (0 ∷ [])

    text_length : length text ≡ length cmdline + 1
    text_length = omega (arith, length-append cmdline (0 ∷ []))

    left : drop (length text) (replicate 504 0 ++ post) ≡ replicate (503 - length cmdline) 0 ++ post
    left =
        drop-append_left (length text) (replicate 504 0) post
          (omega (arith, text_length, length-replicate {A = ℕ} 504 0))
        ∙ ap (λ (z : Bytes). z ++ post)
            (drop-replicate {A = ℕ} (length text) 504 (503 - length cmdline) 0
              (omega (arith, text_length)))

    one_zero : 504 - length cmdline ≡ suc (503 - length cmdline)
    one_zero = omega arith

marker_at_lem :
    (pre rest : Bytes) (at : ℕ) → at ≡ length pre → marker_at (pre ++ (marker ++ rest)) at ≡ true
unfolding marker_at same_text
marker_at_lem pre rest at h = rw (drop-append at pre (marker ++ rest) h) refl

module _ (mapped : ℕ → Option Bytes) (space k : ℕ) (pre old post cmdline : Bytes)
    (hs : space + 512 < 2 ^ 32) (hk : 4 * k < space) (hp : length pre ≡ 4 * k)
    (ho : length old ≡ 504) (hm : mapped (space + 512) ≡ some (pre ++ (marker ++ (old ++ post))))
    (hn : (j : ℕ) → j < k → marker_at (pre ++ (marker ++ (old ++ post))) (4 * j) ≡ false) where
  -- A file that can be mapped, with a marker at a multiple of 4 in the search space and none at an
  -- earlier one, and 504 bytes behind it: a command line of up to 503 bytes takes the place of
  -- these, with zeros behind it, and all else stays; a longer one is refused.
  pub patch_lem :
      patch mapped cmdline space
      ≡ ok (
          if ltb 512 (length cmdline + 9)
          then none
          else some (pre ++ (marker ++ ((cmdline ++ replicate (504 - length cmdline) 0) ++ post))))
  unfolding patch find_marker
  patch_lem = elim (Bool-cases (ltb 512 (length cmdline + 9))) [
    | inl long ↦ rw long
    | inr fits ↦
        rw (fits, size, hm) (rw (found, placed (ltb_false→le 512 (length cmdline + 9) fits)))
  ]
    where
      size : (space + 512) % 2 ^ 32 ≡ space + 512
      size = omega arith

      ptr : Bytes
      ptr = pre ++ (marker ++ (old ++ post))

      ptr_length : length ptr ≡ 4 * k + 512 + length post
      ptr_length =
          omega (arith, length-append pre (marker ++ (old ++ post)), length-append old post)

      zero_plus : (n : ℕ) → 0 + n ≡ n
      zero_plus n = omega arith

      there : 0 + 4 * k + 8 ≡ length pre + 8
      there = omega arith

      placed :
          length cmdline + 9 ≤ 512
          → put_cmdline ptr (length pre + 8) cmdline
            ≡ ok (pre ++ (marker ++ ((cmdline ++ replicate (504 - length cmdline) 0) ++ post)))
      placed h =
          ap (λ (z : Bytes). put_cmdline z (length pre + 8) cmdline)
            (sym (append_assoc pre marker (old ++ post)))
          ∙ put_cmdline_lem (pre ++ marker) old post cmdline (length pre + 8)
              (omega (arith, length-append pre marker)) ho (omega arith)
          ∙ ap ok
              (append_assoc pre marker ((cmdline ++ replicate (504 - length cmdline) 0) ++ post))

      left : ℕ
      left = (space + 3) / 4 - suc k

      found : find_marker ((space + 3) / 4) ptr 0 ≡ ok (some (length pre + 8))
      found =
          find_marker-skip k (suc left) ((space + 3) / 4) ptr 0 (omega arith)
            (λ j hj. ap (marker_at ptr) (zero_plus (4 * j)) ∙ hn j hj) (omega (arith, ptr_length))
          ∙ rw
              (
                le→leb (0 + 4 * k + 8) (length ptr) (omega (arith, ptr_length)),
                marker_at_lem pre (old ++ post) (0 + 4 * k) (omega arith),
              )
              (ap (λ (i : ℕ). ok (some i)) there)
