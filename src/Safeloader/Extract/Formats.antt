-- ===== src/Safeloader/Extract/Formats.antt =====
-- The two forms of tables in tools/tplink-safeloader/tplink-safeloader.c: that of an image, which
-- `put_partitions` prints, and that of the flash, which `make_partition_table` prints.
use safewrt.Common.{
  ℕ, ◌+◌, ◌≡◌, refl, ap, ◌∙◌, false, Option, none, some, List, [], ◌∷◌, ◌++◌, Bytes, length, joined,
  arith, Option-cases, inl, inr,
}
use safewrt.Common.Outcome.{ok}
use safewrt.Common.Text.{codes, same_text}
use safewrt.Common.Hex.{hex_value}
use safewrt.Safeloader.Layout.{FlashPartition, Slot}
use safewrt.Safeloader.Pieces.{fwup_line, flash_line}
use safewrt.Safeloader.Image.Partitions.{Named, image_lines}
use safewrt.Safeloader.Tables.Flash.{flash_lines}
use safewrt.Safeloader.Extract.{compare, line_follows, hex_front}
use safewrt.Safeloader.Extract.Lines.{EndsNumber}
use safewrt.Safeloader.Extract.Entries.{Format, slot_line, slot_lines}
use mathlib.Core.List.{append_assoc, append-nil}
use mathlib.Core.Path.{ap₂}

pub fwup_number_ends : (rest : Bytes) → EndsNumber (codes "\t\r" ++ (0x0a ∷ rest))
unfolding hex_front hex_value
fwup_number_ends rest n = refl

pub flash_number_ends : (rest : Bytes) → EndsNumber (0x0a ∷ rest)
unfolding hex_front hex_value
flash_number_ends rest n = refl

pub fwup_no_header : (rest : Bytes) → line_follows (codes "fwup-ptn") (0 ∷ rest) ≡ ok false
unfolding line_follows compare same_text
fwup_no_header rest = ground arith

pub flash_no_header : (rest : Bytes) → line_follows (codes "partition") (0 ∷ rest) ≡ ok false
unfolding line_follows compare same_text
flash_no_header rest = ground arith

abbrev pub fwup_format : Format
fwup_format = record {
  header = codes "fwup-ptn";
  tail = codes "\t\r";
  plain_header = refl;
  tail_in_line = refl;
  ends_number = fwup_number_ends;
  no_header = fwup_no_header;
}

abbrev pub flash_format : Format
flash_format = record {
  header = codes "partition";
  tail = [];
  plain_header = refl;
  tail_in_line = refl;
  ends_number = flash_number_ends;
  no_header = flash_no_header;
}

fwup_line-slot_line : (r : Slot) → fwup_line r.label r.base r.size ≡ slot_line fwup_format r
unfolding fwup_line
fwup_line-slot_line r = simp append_assoc

flash_line-slot_line : (r : Slot) → flash_line r.label r.base r.size ≡ slot_line flash_format r
unfolding flash_line
flash_line-slot_line r = simp (append_assoc, append-nil)

-- The places of partitions in an image, behind one another from `base` on.
abbrev pub image_slots : ℕ → List Named → List Slot
image_slots base [] = []
image_slots base (n ∷ ns) =
    record { label = n.label; base = base; size = length n.body }
    ∷ image_slots (base + length n.body) ns

pub joined-image_lines :
    (ns : List Named) (base : ℕ)
    → joined (image_lines base ns) ≡ slot_lines fwup_format (image_slots base ns)
joined-image_lines [] base = refl
joined-image_lines (n ∷ ns) base =
    ap₂ (λ (x y : Bytes). x ++ y)
      (fwup_line-slot_line (record { label = n.label; base = base; size = length n.body }))
      (joined-image_lines ns (base + length n.body))

-- The rows of a flash table up to the entry that ends it.
unfoldable pub slots_of : List FlashPartition → Option (List Slot)
slots_of [] = none
slots_of (p ∷ ps) = elim p.name [
  | none ↦ some []
  | some name ↦ elim (slots_of ps) [
    | none ↦ none
    | some rs ↦ some (record { label = name; base = p.base; size = p.size } ∷ rs)
  ]
]

-- The lines of a flash table are those of its rows.
pub flash_lines-slots_of :
    (p : List FlashPartition) (rs : List Slot)
    → slots_of p ≡ some rs
    → (ls : List Bytes) × (flash_lines p ≡ some ls) × (joined ls ≡ slot_lines flash_format rs)
unfolding flash_lines slots_of
flash_lines-slots_of [] rs h = cc
flash_lines-slots_of (p ∷ ps) rs h = elim (Option-cases p.name) [
  | inl e ↦ rw e ([], refl, ap (slot_lines flash_format) (nothing e))
  | inr (name, e) ↦ elim (Option-cases (slots_of ps)) [
    | inl e' ↦ absurd (stuck name e e')
    | inr (qs, e') ↦
        let r : Slot = record { label = name; base = p.base; size = p.size } in
        let (ls, printed, same) = flash_lines-slots_of ps qs e' in
        (
          flash_line name p.base p.size ∷ ls,
          rw (e, printed),
          ap₂ (λ (x y : Bytes). x ++ y) (flash_line-slot_line r) same
              ∙ ap (slot_lines flash_format) (rows name qs e e'),
        )
  ]
]
  where
    nothing : p.name ≡ none → ◌≡◌ {A = List Slot} [] rs
    nothing e = ground arith

    stuck : (name : Bytes) → p.name ≡ some name → slots_of ps ≡ none → ⊥
    stuck name e e' = ground arith

    rows :
        (name : Bytes) (qs : List Slot)
        → p.name ≡ some name
        → slots_of ps ≡ some qs
        → record { label = name; base = p.base; size = p.size } ∷ qs ≡ rs
    rows name qs e e' = ground arith
