-- ===== src/Safeloader/Image/Copying.antt =====
-- The copying of `generate_sysupgrade_image` in tools/tplink-safeloader/tplink-safeloader.c.
use safewrt.Common.{
  ℕ, ◌+◌, ◌-◌, ◌≤◌, ◌≡◌, refl, ap, ◌∙◌, sym, List, [], ◌∷◌, ◌++◌, Bool-cases, inl, inr, Bytes,
  length, length-append, drop-length, drop-replicate, replicate-append, replicate, length-replicate,
  arith, le→ltb_false, le→leb,
}
use safewrt.Common.Outcome.{ok}
use safewrt.Common.Text.{same_text}
use safewrt.Common.Memory.{write, write_next}
use safewrt.Safeloader.Layout.{
  Slot, flash_row, flash_array, FlashPartition, ImagePartition, no_partition,
}
use safewrt.Safeloader.Image.{copy_part, copy_matching, copy_range}
use safewrt.Safeloader.Image.Partitions.{Named, entry, parts_array, copy_part_lem}
use safewrt.Safeloader.Image.Sysupgrade.{named, content_of, slots, Fits, same_text_comm}
use mathlib.Core.List.{append_assoc, append-nil}

pub blank_block :
    (block : Bytes) (k : ℕ)
    → length block ≡ k
    → write block 0 (replicate k 0xff) ≡ ok (replicate k 0xff)
blank_block block k h =
    write_next [] block (replicate k 0xff) 0 refl (omega (arith, length-replicate {A = ℕ} k 0xff))
    ∙ rw
        (drop-length {A = ℕ} (length {A = ℕ} (replicate k 0xff)) block
          (omega (arith, length-replicate {A = ℕ} k 0xff)))
        (ap ok (append-nil (replicate k 0xff)))

-- A blank rest of the image, with a text put into it behind a gap.
abbrev filled : Bytes → ℕ → ℕ → Bytes → Bytes
filled pre k gap body =
    pre ++ (replicate gap 0xff ++ (body ++ replicate (k - gap - length body) 0xff))

filled_nil : (pre : Bytes) (k gap : ℕ) → gap ≤ k → filled pre k gap [] ≡ pre ++ replicate k 0xff
filled_nil pre k gap h =
    ap (λ (z : Bytes). pre ++ z) (replicate-append {A = ℕ} gap (k - gap - 0) k 0xff (omega arith))

copy_part-filled :
    (n : Named) (pre : Bytes) (k gap at : ℕ)
    → at ≡ length pre + gap
    → gap + length n.body ≤ k
    → copy_part (pre ++ replicate k 0xff) at (entry n) ≡ ok (filled pre k gap n.body)
copy_part-filled n pre k gap at ha h = rw split (
    copy_part_lem n (pre ++ replicate gap 0xff) (replicate (k - gap) 0xff) at
      (omega
        (arith, length-append pre (replicate {A = ℕ} gap 0xff), length-replicate {A = ℕ} gap 0xff))
      (omega (arith, length-replicate {A = ℕ} (k - gap) 0xff))
    ∙ rw (drop-replicate {A = ℕ} (length n.body) (k - gap) (k - gap - length n.body) 0xff refl)
        (ap ok (simp append_assoc)))
  where
    split :
        ◌≡◌ {A = Bytes}
          (pre ++ replicate k 0xff)
          ((pre ++ replicate gap 0xff) ++ replicate (k - gap) 0xff)
    split =
        ap (λ (z : Bytes). pre ++ z)
          (sym (replicate-append {A = ℕ} gap (k - gap) k 0xff (omega arith)))
        ∙ sym (append_assoc pre (replicate gap 0xff) (replicate (k - gap) 0xff))

copy_matching-filled :
    (ns : List Named) (tail : List ImagePartition) (r : Slot) (pre : Bytes) (k from first_base : ℕ)
    → from ≡ first_base + length pre
    → from ≤ r.base
    → length (content_of ns r) ≤ r.size
    → r.base - from + length (content_of ns r) ≤ k
    → copy_matching
        (parts_array ns (no_partition ∷ tail))
        (flash_row r)
        r.label
        first_base
        (pre ++ replicate k 0xff)
      ≡ ok (filled pre k (r.base - from) (content_of ns r))
unfolding copy_matching named
copy_matching-filled [] tail r pre k from first_base hf hb hs hk =
    ap ok (sym (filled_nil pre k (r.base - from) (omega arith)))
copy_matching-filled (n ∷ ns) tail r pre k from first_base hf hb hs hk =
    rw (same_text_comm r.label n.label) (elim (Bool-cases (same_text n.label r.label)) [
      | inl same ↦
          let fits : length n.body ≤ r.size = rw same at hs in
          let room : r.base - from + length n.body ≤ k = rw same at hk in
          rw
            (same, le→ltb_false r.size (length n.body) fits, le→leb first_base r.base (omega arith))
            (copy_part-filled n pre k (r.base - from) (r.base - first_base) (omega arith) room)
      | inr other ↦ rw other (
          copy_matching-filled ns tail r pre k from first_base hf hb (rw other at hs)
            (rw other at hk))
    ])

-- The copying over some rows of the layout.
pub copy_range-slots :
    (rs : List Slot) (more : List FlashPartition) (ns : List Named) (tail : List ImagePartition)
    (pre : Bytes) (k from first_base : ℕ)
    → from ≡ first_base + length pre
    → Fits ns from rs
    → length (slots ns from rs) ≤ k
    → copy_range
        (length rs)
        (flash_array rs more)
        (parts_array ns (no_partition ∷ tail))
        first_base
        (pre ++ replicate k 0xff)
      ≡ ok (pre ++ (slots ns from rs ++ replicate (k - length (slots ns from rs)) 0xff))
unfolding copy_range
copy_range-slots [] more ns tail pre k from first_base hf hs hk =
    ap (λ j. ok (pre ++ replicate {A = ℕ} j 0xff)) (omega arith)
copy_range-slots (r ∷ rs) more ns tail pre k from first_base hf hs hk =
    rw (copy_matching-filled ns tail r pre k from first_base hf hs.0 hs.1 (omega (arith, sizes))) (
      ap
        (λ (z : Bytes).
          copy_range (length rs) (flash_array rs more) (parts_array ns (no_partition ∷ tail))
            first_base z)
        (sym (append_assoc pre gap (content ++ replicate left 0xff))
          ∙ sym (append_assoc (pre ++ gap) content (replicate left 0xff)))
      ∙ copy_range-slots rs more ns tail ((pre ++ gap) ++ content) left (r.base + length content)
          first_base
          (omega (arith, length-append (pre ++ gap) content, length-append pre gap, gap_length))
          hs.2 (omega (arith, sizes))
      ∙ rw shrunk (ap ok (simp append_assoc)))
  where
    content : Bytes
    content = content_of ns r

    gap : Bytes
    gap = replicate (r.base - from) 0xff

    gap_length : length gap ≡ r.base - from
    gap_length = length-replicate {A = ℕ} (r.base - from) 0xff

    left : ℕ
    left = k - (r.base - from) - length content

    after : Bytes
    after = slots ns (r.base + length content) rs

    sizes : length (slots ns from (r ∷ rs)) ≡ r.base - from + length content + length after
    sizes =
        omega (arith, length-append gap (content ++ after), length-append content after, gap_length)

    shrunk : k - length (slots ns from (r ∷ rs)) ≡ left - length after
    shrunk = omega (arith, sizes)

-- The flash that is laid out ends behind the content of its last row.
pub length-slots :
    (ns : List Named) (rs : List Slot) (r : Slot) (from : ℕ)
    → Fits ns from (rs ++ (r ∷ []))
    → (from ≤ r.base)
      × (from + length (slots ns from (rs ++ (r ∷ []))) ≡ r.base + length (content_of ns r))
length-slots ns [] r from h = (
  h.0,
  omega (
    arith,
    h.0,
    length-append (replicate {A = ℕ} (r.base - from) 0xff) (content_of ns r ++ []),
    length-append (content_of ns r) [],
    length-replicate {A = ℕ} (r.base - from) 0xff,
  ),
)
length-slots ns (q ∷ rs) r from h =
    let (below, ends) = length-slots ns rs r (q.base + length (content_of ns q)) h.2 in
    let after : Bytes = slots ns (q.base + length (content_of ns q)) (rs ++ (r ∷ [])) in
    (
      omega (arith, h.0, below),
      omega (
        arith,
        h.0,
        ends,
        length-append (replicate {A = ℕ} (q.base - from) 0xff) (content_of ns q ++ after),
        length-append (content_of ns q) after,
        length-replicate {A = ℕ} (q.base - from) 0xff,
      ),
    )
