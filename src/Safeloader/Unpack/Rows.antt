-- ===== src/Safeloader/Unpack/Rows.antt =====
-- The rows of the boards in tools/tplink-safeloader/tplink-safeloader.c that `convert_firmware` looks
-- for.
use safewrt.Common.{
  ℕ, ◌+◌, ◌^◌, ◌≤◌, ◌<◌, ◌≡◌, refl, ap, ◌∙◌, Bool, true, false, ◌&&◌, Option, none, some, List, [],
  ◌∷◌, Bytes, ltb, leb, ltb→lt, leb→le, &&-split, if◌then◌else◌, Bool-cases, Option-cases, inl, inr,
}
use safewrt.Common.Text.{codes, same_text}
use safewrt.Safeloader.Layout.{FlashPartition, DeviceInfo, Slot}
use safewrt.Safeloader.Boards.{boards}
use safewrt.Safeloader.Build.{find_board}
use safewrt.Safeloader.Build.Boards.{on_boards, on_boards_lem}
use safewrt.Safeloader.Image.Partitions.{flash_size}
use safewrt.Safeloader.Extract.Formats.{slots_of}
use safewrt.Safeloader.Unpack.Convert.{slot_named}

-- Two rows that stand behind one another, the second of which has some room, below 2 GiB.
in_order : Option Slot → Option Slot → Bool
in_order none ffs = false
in_order (some fos) none = false
in_order (some fos) (some ffs) =
    leb (fos.base + fos.size) ffs.base && (ltb 0 ffs.size && ltb (ffs.base + ffs.size) (2 ^ 31))

convertible : Option (List Slot) → Bool
convertible none = false
convertible (some rs) =
    in_order (slot_named rs (codes "os-image")) (slot_named rs (codes "file-system"))

boards-convertible : on_boards (λ b. convertible (slots_of b.partitions)) boards ≡ true
unfolding on_boards convertible in_order slot_named slots_of same_text
boards-convertible = refl

in_order_lem :
    (os fs : Option Slot)
    → in_order os fs ≡ true
    → (fos : Slot) × (ffs : Slot) × (os ≡ some fos)
      × (fs ≡ some ffs)
      × (fos.base + fos.size ≤ ffs.base)
      × (0 < ffs.size)
      × (ffs.base + ffs.size < 2 ^ 31)
unfolding in_order
in_order_lem none fs h = cc
in_order_lem (some fos) none h = cc
in_order_lem (some fos) (some ffs) h =
    let (order, h') = &&-split (leb (fos.base + fos.size) ffs.base) _ h in
    let (room, low) = &&-split (ltb 0 ffs.size) _ h' in
    (fos, ffs, refl, refl, leb→le _ _ order, ltb→lt 0 ffs.size room, ltb→lt _ _ low)

convertible_lem :
    (rows : Option (List Slot))
    → convertible rows ≡ true
    → (rs : List Slot) × (fos : Slot) × (ffs : Slot) × (rows ≡ some rs)
      × (slot_named rs (codes "os-image") ≡ some fos)
      × (slot_named rs (codes "file-system") ≡ some ffs)
      × (fos.base + fos.size ≤ ffs.base)
      × (0 < ffs.size)
      × (ffs.base + ffs.size < 2 ^ 31)
unfolding convertible
convertible_lem none h = cc
convertible_lem (some rs) h =
    let (fos, ffs, os, fs, order, room, low) =
      in_order_lem (slot_named rs (codes "os-image")) (slot_named rs (codes "file-system")) h in
    (rs, fos, ffs, refl, os, fs, order, room, low)

-- Every board that can be found has a place for the kernel and one for the file system behind it.
pub slots_of-find_board :
    (id : Bytes) (board : DeviceInfo)
    → find_board id ≡ some board
    → (rs : List Slot) × (fos : Slot) × (ffs : Slot) × (slots_of board.partitions ≡ some rs)
      × (slot_named rs (codes "os-image") ≡ some fos)
      × (slot_named rs (codes "file-system") ≡ some ffs)
      × (fos.base + fos.size ≤ ffs.base)
      × (0 < ffs.size)
      × (ffs.base + ffs.size < 2 ^ 31)
unfolding find_board
slots_of-find_board id board h =
    convertible_lem (slots_of board.partitions) (
      on_boards_lem (λ b. convertible (slots_of b.partitions)) boards id board boards-convertible h)

same_row :
    (label : Bytes) (base size : ℕ) (rest : List Slot) (name : Bytes) (r : Slot) (later : Option ℕ)
    → slot_named (record { label = label; base = base; size = size } ∷ rest) name ≡ some r
    → (slot_named rest name ≡ some r → later ≡ some r.size)
    → (if same_text label name then some size else later) ≡ some r.size
unfolding slot_named
same_row label base size rest name r later h next = elim (Bool-cases (same_text label name)) [
  | inl this ↦ rw this (size_of (rw this at h))
  | inr other ↦ rw other (next (rw other at h))
]
  where
    size_of :
        some (record { label = label; base = base; size = size }) ≡ some r → some size ≡ some r.size
    size_of h = cc

-- The size that `put_partitions` tests against is that of the first row of the name.
pub flash_size-slots_of :
    (ps : List FlashPartition) (rs : List Slot) (name : Bytes) (r : Slot)
    → slots_of ps ≡ some rs
    → slot_named rs name ≡ some r
    → flash_size ps name ≡ some r.size
unfolding slots_of slot_named flash_size
flash_size-slots_of [] rs name r h hr = cc
flash_size-slots_of (p ∷ ps) rs name r h hr = elim (Option-cases p.name) [
  | inl e ↦ absurd (nothing rs r (rw e at h) hr)
  | inr (label, e) ↦ elim (Option-cases (slots_of ps)) [
    | inl e' ↦ absurd (stuck (rw (e, e') at h))
    | inr (rest, e') ↦ rw e (
        same_row label p.base p.size rest name r (flash_size ps name)
          (ap (λ (z : List Slot). slot_named z name) (same (rw (e, e') at h)) ∙ hr)
          (flash_size-slots_of ps rest name r e'))
  ]
]
  where
    nothing :
        (rs : List Slot) (r : Slot)
        → ◌≡◌ {A = Option (List Slot)} (some []) (some rs)
        → slot_named rs name ≡ some r
        → ⊥
    nothing [] r h hr = cc
    nothing (q ∷ qs) r h hr = cc

    stuck : ◌≡◌ {A = Option (List Slot)} none (some rs) → ⊥
    stuck h = cc

    same : {qs : List Slot} → some qs ≡ some rs → qs ≡ rs
    same h = cc
