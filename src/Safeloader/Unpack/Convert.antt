-- ===== src/Safeloader/Unpack/Convert.antt =====
-- `convert_firmware` of tools/tplink-safeloader/tplink-safeloader.c, behind the reading of the tables.
use safewrt.Common.{
  ℕ, ◌+◌, ◌-◌, ◌^◌, ◌≤◌, ◌<◌, ◌≡◌, refl, ap, ◌∙◌, sym, Option, none, some, List, [], ◌∷◌, ◌++◌,
  Bytes, length, take, drop, joined, replicate, length-append, length-drop, length-replicate,
  drop-drop, drop-append, drop-length, take-append, take-length, arith, if◌then◌else◌, Bool-cases,
  inl, inr,
}
use safewrt.Common.Outcome.{ok}
use safewrt.Common.Text.{same_text}
use safewrt.Safeloader.Layout.{FlashPartition, Slot, flash_row, flash_array}
use safewrt.Safeloader.Image.Partitions.{Named, bodies}
use safewrt.Safeloader.Extract.Formats.{image_slots}
use safewrt.Safeloader.Unpack.{
  OutFile, fresh, contents, fwrite, fseek, write_partition, write_ff, find_partition, sub32,
}
use safewrt.Safeloader.Unpack.Chunks.{write_partition_lem, write_ff_lem, fwrite-fwrite}
use mathlib.Core.List.{append-nil}
use mathlib.Core.Path.{ap₂}

-- The first row of a name.
unfoldable pub slot_named : List Slot → Bytes → Option Slot
slot_named [] name = none
slot_named (r ∷ rs) name = if same_text r.label name then some r else slot_named rs name

pub find_partition-slot_named :
    (rs : List Slot) (more : List FlashPartition) (name : Bytes) (r : Slot)
    → slot_named rs name ≡ some r
    → find_partition (flash_array rs more) name ≡ ok (flash_row r)
unfolding slot_named find_partition
find_partition-slot_named [] more name r h = cc
find_partition-slot_named (q ∷ rs) more name r h = elim (Bool-cases (same_text q.label name)) [
  | inl same ↦ rw same (ap (λ (z : Slot). ok (flash_row z)) (ground arith))
  | inr other ↦ rw other (find_partition-slot_named rs more name r (ground arith))
]

-- The first partition of a name and its place, behind one another from `base` on.
unfoldable pub named_at : ℕ → List Named → Bytes → Option (ℕ × Named)
named_at base [] name = none
named_at base (n ∷ ns) name =
    if same_text n.label name then some (base, n) else named_at (base + length n.body) ns name

same_place :
    {x y : ℕ} {m n : Named}
    → ◌≡◌ {A = Option (ℕ × Named)} (some (x, m)) (some (y, n))
    → (x ≡ y) × (m ≡ n)
same_place h = (cc, cc)

pub slot_named-image_slots :
    (ns : List Named) (base at : ℕ) (name : Bytes) (n : Named)
    → named_at base ns name ≡ some (at, n)
    → slot_named (image_slots base ns) name
      ≡ some (record { label = n.label; base = at; size = length n.body })
unfolding slot_named named_at
slot_named-image_slots [] base at name n h = cc
slot_named-image_slots (m ∷ ns) base at name n h = elim (Bool-cases (same_text m.label name)) [
  | inl same ↦
      let (place, part) = same_place (rw same at h) in
      rw same (
        ap₂
          (λ (k : ℕ) (z : Named). some (record { label = z.label; base = k; size = length z.body }))
          place part)
  | inr other ↦
      rw other (slot_named-image_slots ns (base + length m.body) at name n (rw other at h))
]

-- The contents of the partition stand there.
pub named_at-drop :
    (ns : List Named) (base at off : ℕ) (name file : Bytes) (n : Named)
    → named_at base ns name ≡ some (at, n)
    → drop (base + off) file ≡ joined (bodies ns)
    → base + off ≤ length file
    → (behind : Bytes) × (drop (at + off) file ≡ n.body ++ behind) × (at + off ≤ length file)
unfolding named_at
named_at-drop [] base at off name file n h hd hf = cc
named_at-drop (m ∷ ns) base at off name file n h hd hf =
    elim (Bool-cases (same_text m.label name)) [
      | inl same ↦
          let (place, part) = same_place (rw same at h) in
          (
            joined (bodies ns),
            ap (λ k. drop (k + off) file) (sym place)
                ∙ hd
                ∙ ap (λ (z : Named). z.body ++ joined (bodies ns)) part,
            omega (arith, place),
          )
      | inr other ↦
          named_at-drop ns (base + length m.body) at off name file n (rw other at h) next room
    ]
  where
    next : drop (base + length m.body + off) file ≡ joined (bodies ns)
    next =
        sym (drop-drop (base + off) (length m.body) (base + length m.body + off) file (omega arith))
        ∙ ap (drop (length m.body)) hd
        ∙ drop-append (length m.body) m.body (joined (bodies ns)) refl

    room : base + length m.body + off ≤ length file
    room = omega (
      arith,
      ap length hd,
      length-append m.body (joined (bodies ns)),
      length-drop (base + off) file,
    )

-- The output after the first partition and its 0xff, from an empty file.
filled_part :
    (xs : Bytes) (k : ℕ)
    → fwrite (fwrite fresh xs) (replicate k 0xff) ≡ fwrite fresh (xs ++ replicate k 0xff)
filled_part xs k = fwrite-fwrite fresh xs (replicate k 0xff)

before-fwrite : (xs : Bytes) → (fwrite fresh xs).before ≡ xs
unfolding fwrite
before-fwrite [] = refl
before-fwrite (x ∷ xs) = refl

after-fwrite : (xs : Bytes) → (fwrite fresh xs).after ≡ []
unfolding fwrite
after-fwrite [] = refl
after-fwrite (x ∷ xs) = refl

contents-fwrite : (xs : Bytes) → contents (fwrite fresh xs) ≡ xs
contents-fwrite xs = rw (before-fwrite xs, after-fwrite xs, append-nil) refl

-- What is written at a place behind the end of a file comes behind zeros.
contents-fseek :
    (xs ys : Bytes) (offset : ℕ)
    → length xs ≤ offset
    → 0 < length ys
    → contents (fwrite (fseek (fwrite fresh xs) offset) ys)
      ≡ xs ++ (replicate (offset - length xs) 0 ++ ys)
unfolding fwrite fseek
contents-fseek xs [] offset h hy = absurd (omega arith)
contents-fseek xs (y ∷ ys) offset h hy =
    rw (contents-fwrite xs, take-length offset xs h, drop-length offset xs h)
      (append-nil (xs ++ (replicate (offset - length xs) 0 ++ (y ∷ ys))))

sub32_lem : (a b : ℕ) → b ≤ a → a < 2 ^ 32 → sub32 a b ≡ a - b
unfolding sub32
sub32_lem a b h ha = omega arith

-- The bytes of an entry, and 0xff up to the size of its place in the flash.
abbrev pub padded : Bytes → ℕ → Bytes
padded body size = body ++ replicate (size - length body) 0xff

module _ (file stack stack' : Bytes) (os fs fos ffs : FlashPartition)
    (os_body fs_body behind behind' : Bytes)
    (hos : drop (os.base + 0x1014) file ≡ os_body ++ behind)
    (hos_in : os.base + 0x1014 ≤ length file) (hos_size : os.size ≡ length os_body)
    (hfs : drop (fs.base + 0x1014) file ≡ fs_body ++ behind')
    (hfs_in : fs.base + 0x1014 ≤ length file) (hfs_size : fs.size ≡ length fs_body)
    (h1 : os.size ≤ fos.size) (h2 : fos.base + fos.size ≤ ffs.base) (h3 : fs.size ≤ ffs.size)
    (h4 : 0 < ffs.size) (h5 : ffs.base + ffs.size < 2 ^ 31) where
  os_written :
      write_ff (write_partition stack file 0x1014 os fresh) (sub32 fos.size os.size)
      ≡ fwrite fresh (padded os_body fos.size)
  os_written =
      ap₂ write_ff
        (write_partition_lem stack file 0x1014 os fresh (
          omega (
            arith,
            ap length hos,
            length-append os_body behind,
            length-drop (os.base + 0x1014) file,
          )))
        (sub32_lem fos.size os.size h1 (omega arith))
      ∙ ap (λ (z : Bytes). write_ff (fwrite fresh z) (fos.size - os.size))
          (ap₂ take hos_size hos ∙ take-append (length os_body) os_body behind refl)
      ∙ write_ff_lem (fwrite fresh os_body) (fos.size - os.size) (omega arith)
      ∙ ap (λ k. fwrite (fwrite fresh os_body) (replicate (fos.size - k) 0xff)) hos_size
      ∙ fwrite-fwrite fresh os_body (replicate (fos.size - length os_body) 0xff)

  fs_written :
      (out : OutFile)
      → write_ff (write_partition stack' file 0x1014 fs out) (sub32 ffs.size fs.size)
        ≡ fwrite out (padded fs_body ffs.size)
  fs_written out =
      ap₂ write_ff
        (write_partition_lem stack' file 0x1014 fs out (
          omega (
            arith,
            ap length hfs,
            length-append fs_body behind',
            length-drop (fs.base + 0x1014) file,
          )))
        (sub32_lem ffs.size fs.size h3 (omega arith))
      ∙ ap (λ (z : Bytes). write_ff (fwrite out z) (ffs.size - fs.size))
          (ap₂ take hfs_size hfs ∙ take-append (length fs_body) fs_body behind' refl)
      ∙ write_ff_lem (fwrite out fs_body) (ffs.size - fs.size) (omega arith)
      ∙ ap (λ k. fwrite (fwrite out fs_body) (replicate (ffs.size - k) 0xff)) hfs_size
      ∙ fwrite-fwrite out fs_body (replicate (ffs.size - length fs_body) 0xff)

  -- Both partitions at their places of the flash.
  pub converted :
      contents (
        write_ff
          (write_partition stack' file 0x1014 fs (
            fseek
              (write_ff (write_partition stack file 0x1014 os fresh) (sub32 fos.size os.size))
              (sub32 ffs.base fos.base)))
          (sub32 ffs.size fs.size))
      ≡ padded os_body fos.size
        ++ (replicate (ffs.base - fos.base - fos.size) 0 ++ padded fs_body ffs.size)
  converted =
      ap contents (fs_written _)
      ∙ ap₂ (λ (f : OutFile) k. contents (fwrite (fseek f k) (padded fs_body ffs.size))) os_written
          (sub32_lem ffs.base fos.base (omega arith) (omega arith))
      ∙ contents-fseek (padded os_body fos.size) (padded fs_body ffs.size) (ffs.base - fos.base)
          (omega (arith, os_length))
          (omega (
            arith,
            length-append fs_body (replicate (ffs.size - length fs_body) 0xff),
            length-replicate {A = ℕ} (ffs.size - length fs_body) 0xff,
          ))
      ∙ ap
          (λ k.
            padded os_body fos.size
            ++ (replicate (ffs.base - fos.base - k) 0 ++ padded fs_body ffs.size))
          os_length
    where
      os_length : length (padded os_body fos.size) ≡ fos.size
      os_length = omega (
        arith,
        length-append os_body (replicate (fos.size - length os_body) 0xff),
        length-replicate {A = ℕ} (fos.size - length os_body) 0xff,
      )
