-- ===== src/Safeloader/Image/Partitions.antt =====
-- What `put_partitions` makes of a buffer: the table of the partitions, and their contents behind
-- one another.
use safewrt.Common.{
  ℕ, suc, ◌+◌, ◌-◌, ◌≤◌, ◌<◌, ◌≡◌, refl, ap, ◌∙◌, sym, Bool, true, false, Option, none, some, List,
  [], ◌∷◌, ◌++◌, All, Option-cases, Bool-cases, inl, inr, Bytes, length, drop, total, joined,
  length-append, length-drop, drop-length, drop-drop, drop-replicate, replicate-append, take-length,
  replicate, length-replicate, arith, if◌then◌else◌, le→leb, ltb, lt→ltb,
}
use safewrt.Common.Outcome.{Outcome, Stop, ok, stop, exits, aborts}
use safewrt.Common.Text.{same_text}
use safewrt.Common.Memory.{write_next}
use safewrt.Safeloader.Layout.{FlashPartition, ImagePartition, no_partition}
use safewrt.Safeloader.Pieces.{fwup_line}
use safewrt.Safeloader.Image.{check_flash, copy_part, put_loop, put_partitions}
use safewrt.Safeloader.Tables.Printed.{area, area-joined, print_line_fits}
use mathlib.Core.List.{append_assoc, append-nil}
use mathlib.Core.Path.{ap₂}
use native.Mathlib.Decide.{dec_lt}
use native.Mathlib.Nat.{add_assoc}

-- A partition as it is made: its size is the length of its content.
pub record Named : Type 0 where
  pub label : Bytes
  pub body : Bytes

abbrev pub entry : Named → ImagePartition
entry n = record { name = some n.label; size = length n.body; content = n.body }

-- An array that begins with these partitions.
abbrev pub parts_array : List Named → List ImagePartition → List ImagePartition
parts_array [] more = more
parts_array (n ∷ ns) more = entry n ∷ parts_array ns more

abbrev pub bodies : List Named → List Bytes
bodies [] = []
bodies (n ∷ ns) = n.body ∷ bodies ns

-- The lines of the table, for contents that stand behind one another from `base` on.
abbrev pub image_lines : ℕ → List Named → List Bytes
image_lines base [] = []
image_lines base (n ∷ ns) =
    fwup_line n.label base (length n.body) ∷ image_lines (base + length n.body) ns

-- The size of the flash partition of a name: that of the first row with this name.
unfoldable pub flash_size : List FlashPartition → Bytes → Option ℕ
flash_size [] name = none
flash_size (p ∷ ps) name = elim p.name [
  | none ↦ none
  | some n ↦ if same_text n name then some p.size else flash_size ps name
]

-- The flash has a partition of this name, with room for the content.
abbrev pub HasRoom : List FlashPartition → Named → Type 0
HasRoom flash n = (s : ℕ) × (flash_size flash n.label ≡ some s) × (length n.body ≤ s)

check_flash_lem :
    (flash : List FlashPartition) (name : Bytes) (size s : ℕ)
    → flash_size flash name ≡ some s
    → size ≤ s
    → check_flash flash name size ≡ ok tt
unfolding check_flash flash_size
check_flash_lem [] name size s h hs = cc
check_flash_lem (p ∷ ps) name size s h hs = elim (Option-cases p.name) [
  | inl e ↦ ground arith
  | inr (n, e) ↦ ground (arith, check_flash_lem ps name size s)
]

pub copy_part_lem :
    (n : Named) (pre room : Bytes) (at : ℕ)
    → at ≡ length pre
    → length n.body ≤ length room
    → copy_part (pre ++ room) at (entry n) ≡ ok ((pre ++ n.body) ++ drop (length n.body) room)
unfolding copy_part
copy_part_lem n pre room at ha h = rw (
  le→leb (length n.body) (length n.body) (omega arith),
  take-length (length n.body) n.body (omega arith),
  write_next pre room n.body at ha h,
)

regroup :
    (pre pad placed room : Bytes)
    → pre ++ (pad ++ (placed ++ room)) ≡ (pre ++ (pad ++ placed)) ++ room
regroup pre pad placed room = simp append_assoc

-- The loop over partitions that the flash has room for: it goes on behind them, with their lines
-- printed and their contents placed.
put_loop_run :
    (flash : List FlashPartition) (more : List ImagePartition) (ns : List Named)
    (pre pad placed room : Bytes) (pt base : ℕ)
    → All (HasRoom flash) ns
    → pt ≡ length pre
    → pt + length pad ≡ 0x800
    → base ≡ 0x800 + length placed
    → total (image_lines base ns) < length pad
    → total (bodies ns) ≤ length room
    → put_loop (parts_array ns more) flash (pre ++ (pad ++ (placed ++ room))) pt base
      ≡ put_loop more flash
          (pre
            ++ (area pad (image_lines base ns)
                ++ (placed ++ (joined (bodies ns) ++ drop (total (bodies ns)) room))))
          (pt + total (image_lines base ns))
          (base + total (bodies ns))
unfolding put_loop area
put_loop_run flash more [] pre pad placed room pt base hs hp he hb hl hr =
    ap₂ (put_loop more flash (pre ++ (pad ++ (placed ++ room)))) (omega arith) (omega arith)
put_loop_run flash more (n ∷ ns) pre pad placed room pt base hs hp he hb hl hr =
    rw (check_flash_lem flash n.label (length n.body) hs.0.0 hs.0.1 hs.0.2, copied)
      (rw
        (print_line_fits pre pad ((placed ++ n.body) ++ drop (length n.body) room) line pt 0x800 hp
          he (omega arith) (omega arith))
        (put_loop_run flash more ns (pre ++ line) (0 ∷ drop (suc (length line)) pad)
            (placed ++ n.body) (drop (length n.body) room) (pt + length line) (base + length n.body)
            hs.1 (omega (arith, length-append pre line))
            (omega (arith, length-drop (suc (length line)) pad))
            (omega (arith, length-append placed n.body))
            (omega (arith, length-drop (suc (length line)) pad))
            (omega (arith, length-drop (length n.body) room))
          ∙ rw
              (
                drop-drop (length n.body) (total (bodies ns)) (total (bodies (n ∷ ns))) room refl,
                add_assoc pt (length line) (total (image_lines (base + length n.body) ns)),
                add_assoc base (length n.body) (total (bodies ns)),
              )
              (simp append_assoc)))
  where
    line : Bytes
    line = fwup_line n.label base (length n.body)

    copied :
        copy_part (pre ++ (pad ++ (placed ++ room))) base (entry n)
        ≡ ok (pre ++ (pad ++ ((placed ++ n.body) ++ drop (length n.body) room)))
    copied = rw (regroup pre pad placed room) (
        copy_part_lem n (pre ++ (pad ++ placed)) room base
          (omega (arith, length-append pre (pad ++ placed), length-append pad placed)) (omega arith)
        ∙ ap ok (simp append_assoc))

-- What stands behind the vendor information: the table, padded to 0x800 bytes, and the contents.
abbrev pub laid_out : List Named → Bytes
laid_out ns =
    joined (image_lines 0x800 ns)
    ++ ((0 ∷ replicate (0x7ff - total (image_lines 0x800 ns)) 0xff) ++ joined (bodies ns))

blank_split :
    (k : ℕ)
    → ◌≡◌ {A = Bytes}
        (replicate (0x800 + k) 0xff)
        (replicate 0x800 0xff ++ ([] ++ replicate k 0xff))
blank_split k = sym (replicate-append {A = ℕ} 0x800 k (0x800 + k) 0xff refl)

module _ (flash : List FlashPartition) (n : Named) (ns : List Named)
    (hs : All (HasRoom flash) (n ∷ ns)) (hl : total (image_lines 0x800 (n ∷ ns)) < 0x800) where
  -- At least one partition, each with room in the flash, and a table that fits its 0x800 bytes:
  -- a blank buffer of the right length becomes the table, a zero, 0xff up to 0x800 bytes, and the
  -- contents in order. What stands behind the first entry with no name is not looked at.
  pub put_partitions_lem :
      (tail : List ImagePartition)
      → put_partitions
          (replicate (0x800 + total (bodies (n ∷ ns))) 0xff)
          flash
          (parts_array (n ∷ ns) (no_partition ∷ tail))
        ≡ ok (laid_out (n ∷ ns))
  unfolding put_partitions put_loop
  put_partitions_lem tail =
      rw
        (
          blank_split (total (bodies (n ∷ ns))),
          put_loop_run flash (no_partition ∷ tail) (n ∷ ns) [] (replicate 0x800 0xff) []
              (replicate (total (bodies (n ∷ ns))) 0xff) 0 0x800 hs refl refl refl hl
              (omega (arith, length-replicate {A = ℕ} (total (bodies (n ∷ ns))) 0xff)),
          area-joined (fwup_line n.label 0x800 (length n.body))
              (image_lines (0x800 + length n.body) ns) (replicate 0x800 0xff),
          drop-replicate {A = ℕ} (suc (total (image_lines 0x800 (n ∷ ns)))) 0x800
              (0x7ff - total (image_lines 0x800 (n ∷ ns))) 0xff (omega arith),
          drop-length {A = ℕ} (total (bodies (n ∷ ns))) (replicate (total (bodies (n ∷ ns))) 0xff)
              (omega (arith, length-replicate {A = ℕ} (total (bodies (n ∷ ns))) 0xff)),
        )
        (simp (append_assoc, append-nil))

-- The table has an entry that ends it.
unfoldable pub ends : List FlashPartition → Bool
ends [] = false
ends (p ∷ ps) = elim p.name [ none ↦ true | some _ ↦ ends ps ]

-- What the search answers, by the size of the flash partition that it finds.
abbrev verdict : Option ℕ → ℕ → Outcome (Unit {0})
verdict none size = stop aborts
verdict (some s) size = if ltb s size then stop (exits 1) else ok tt

check_flash-verdict :
    (flash : List FlashPartition) (name : Bytes) (size : ℕ)
    → ends flash ≡ true
    → check_flash flash name size ≡ verdict (flash_size flash name) size
unfolding check_flash flash_size ends
check_flash-verdict [] name size h = cc
check_flash-verdict (p ∷ ps) name size h = elim (Option-cases p.name) [
  | inl e ↦ rw e
  | inr (n, e) ↦ rw e (elim (Bool-cases (same_text n name)) [
    | inl same ↦
        rw same (elim (Bool-cases (ltb p.size size)) [ inl big ↦ rw big | inr fits ↦ rw fits ])
    | inr other ↦ rw other (check_flash-verdict ps name size (rw e at h))
  ])
]

-- The reason to refuse a partition that the flash has no room for.
abbrev pub refusal : Option ℕ → Stop
refusal none = aborts
refusal (some s) = exits 1

-- A partition that the flash has no room for, behind some that it has room for, ends the program:
-- by the failed assertion where the flash has no partition of this name, and by `exits 1` where it
-- is too small.
pub put_partitions_refuses :
    (flash : List FlashPartition) (ns : List Named) (bad : Named) (more : List ImagePartition)
    (room : Bytes)
    → ends flash ≡ true
    → All (HasRoom flash) ns
    → total (image_lines 0x800 ns) < 0x800
    → total (bodies ns) ≤ length room
    → ¬ HasRoom flash bad
    → put_partitions (replicate 0x800 0xff ++ room) flash (parts_array ns (entry bad ∷ more))
      ≡ stop (refusal (flash_size flash bad.label))
unfolding put_partitions put_loop
put_partitions_refuses flash ns bad more room he hs hl hr hbad =
    rw
      (
        put_loop_run flash (entry bad ∷ more) ns [] (replicate 0x800 0xff) [] room 0 0x800 hs refl
            refl refl hl hr,
        check_flash-verdict flash bad.label (length bad.body) he,
      )
      (elim (Option-cases (flash_size flash bad.label)) [
        | inl missing ↦ rw missing
        | inr (s, found) ↦ rw (found, lt→ltb s (length bad.body) (small s found))
      ])
  where
    small : (s : ℕ) → flash_size flash bad.label ≡ some s → s < length bad.body
    small s found = elim (dec_lt s (length bad.body)) [
      | yes h ↦ h
      | no h ↦ absurd (hbad (s, found, omega arith))
    ]
