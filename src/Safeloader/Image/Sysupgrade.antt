-- ===== src/Safeloader/Image/Sysupgrade.antt =====
-- The searches of `generate_sysupgrade_image` in tools/tplink-safeloader/tplink-safeloader.c, and
-- the flash that it lays out: from the first partition of the upgrade to the last, with the contents
-- at their places.
use safewrt.Common.{
  ℕ, ◌+◌, ◌-◌, ◌≤◌, ◌≡◌, refl, ap, ◌∙◌, false, Option, none, some, List, [], ◌∷◌, ◌++◌, All,
  Bool-cases, inl, inr, Bytes, length, drop, replicate, arith, if◌then◌else◌,
}
use safewrt.Common.Outcome.{ok}
use safewrt.Common.Text.{same_text}
use safewrt.Safeloader.Layout.{Slot, flash_row, flash_array, FlashPartition, ImagePartition}
use safewrt.Safeloader.Image.{Ends, find_ends, find_image}
use safewrt.Safeloader.Image.Partitions.{Named, entry, parts_array}

-- The first partition of a name.
unfoldable pub named : List Named → Bytes → Option Named
named [] wanted = none
named (n ∷ ns) wanted = if same_text n.label wanted then some n else named ns wanted

abbrev body_of : Option Named → Bytes
body_of none = []
body_of (some n) = n.body

-- What the image holds for a row of the layout.
abbrev pub content_of : List Named → Slot → Bytes
content_of ns r = body_of (named ns r.label)

-- The flash from `from` on: each content at the base of its row, and 0xff between them.
abbrev pub slots : List Named → ℕ → List Slot → Bytes
slots ns from [] = []
slots ns from (r ∷ rs) =
    replicate (r.base - from) 0xff
    ++ (content_of ns r ++ slots ns (r.base + length (content_of ns r)) rs)

-- The contents fit their rows and do not reach into the next row.
abbrev pub Fits : List Named → ℕ → List Slot → Type 0
Fits ns from [] = Unit
Fits ns from (r ∷ rs) =
    (from ≤ r.base)
    × (length (content_of ns r) ≤ r.size)
    × Fits ns (r.base + length (content_of ns r)) rs

-- The row has neither of the two names.
abbrev pub IsOther : Bytes → Bytes → Slot → Type 0
IsOther first_name last_name r =
    (same_text r.label first_name ≡ false) × (same_text r.label last_name ≡ false)

pub same_text_comm : (a b : Bytes) → same_text a b ≡ same_text b a
unfolding same_text
same_text_comm [] [] = refl
same_text_comm [] (y ∷ b) = refl
same_text_comm (x ∷ a) [] = refl
same_text_comm (x ∷ a) (y ∷ b) = ground (arith, same_text_comm a b)

pub find_ends_other :
    (rs : List Slot) (more : List FlashPartition) (first_name last_name : Bytes) (i : ℕ)
    (ends : Ends)
    → All (IsOther first_name last_name) rs
    → find_ends (flash_array rs more) first_name last_name i ends
      ≡ find_ends more first_name last_name (i + length rs) ends
unfolding find_ends
find_ends_other [] more first_name last_name i ends h =
    ap (λ k. find_ends more first_name last_name k ends) (omega arith)
find_ends_other (r ∷ rs) more first_name last_name i ends h =
    rw (h.0.0, h.0.1)
      (find_ends_other rs more first_name last_name (i + 1) ends h.1
        ∙ ap (λ k. find_ends more first_name last_name k ends) (omega arith))

pub find_image_lem :
    (ns : List Named) (more : List ImagePartition) (wanted : Bytes) (n : Named)
    → named ns wanted ≡ some n
    → find_image (parts_array ns more) wanted ≡ ok (entry n)
unfolding find_image named
find_image_lem [] more wanted n h = cc
find_image_lem (m ∷ ns) more wanted n h = elim (Bool-cases (same_text m.label wanted)) [
  | inl same ↦ ground arith
  | inr other ↦ rw other (find_image_lem ns more wanted n (rw other at h))
]

pub drop-flash_array :
    (rs : List Slot) (more : List FlashPartition) → drop (length rs) (flash_array rs more) ≡ more
drop-flash_array [] more = refl
drop-flash_array (r ∷ rs) more = drop-flash_array rs more

pub flash_array-append :
    (rs qs : List Slot) (more : List FlashPartition)
    → flash_array (rs ++ qs) more ≡ flash_array rs (flash_array qs more)
flash_array-append [] qs more = refl
flash_array-append (r ∷ rs) qs more = ap (◌∷◌ (flash_row r)) (flash_array-append rs qs more)
