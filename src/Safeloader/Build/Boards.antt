-- ===== src/Safeloader/Build/Boards.antt =====
-- What holds of every board that `find_board` of tools/tplink-safeloader/tplink-safeloader.c can
-- answer, by evaluation over the array `boards`.
use safewrt.Common.{
  ℕ, ◌+◌, ◌≤◌, ◌<◌, ◌≡◌, refl, ◌∙◌, Bool, true, false, ◌&&◌, Option, none, some, List, [], ◌∷◌,
  Option-cases, Bool-cases, inl, inr, &&-split, Bytes, length, total, arith, leb, ltb, leb→le,
  ltb→lt, lt→ltb,
}
use safewrt.Common.Outcome.{ok}
use safewrt.Common.Text.{codes, same_text, same_caseless}
use safewrt.Common.Hex.{hex5, hex_onto, hex_digit}
use safewrt.Safeloader.Layout.{FlashPartition, DeviceInfo}
use safewrt.Safeloader.Boards.{boards}
use safewrt.Safeloader.Pieces.{Malloc, make_partition_table, flash_line}
use safewrt.Safeloader.Image.Partitions.{flash_size}
use safewrt.Safeloader.Tables.Flash.{flash_lines, make_partition_table_lem, table_text}
use safewrt.Safeloader.Build.{find_in, find_board}

-- A test holds of each board up to the entry that ends the array.
unfoldable pub on_boards : (DeviceInfo → Bool) → List DeviceInfo → Bool
on_boards test [] = true
on_boards test (b ∷ bs) = elim b.id [ none ↦ true | some _ ↦ test b && on_boards test bs ]

pub on_boards_lem :
    (test : DeviceInfo → Bool) (bs : List DeviceInfo) (id : Bytes) (board : DeviceInfo)
    → on_boards test bs ≡ true
    → find_in bs id ≡ some board
    → test board ≡ true
unfolding on_boards find_in
on_boards_lem test [] id board h e = cc
on_boards_lem test (b ∷ bs) id board h e = elim (Option-cases b.id) [
  | inl n ↦ ground arith
  | inr (name, n) ↦ elim (Bool-cases (same_caseless id name)) [
    | inl same ↦ ground arith
    | inr other ↦ ground (arith, on_boards_lem test bs id board)
  ]
]

-- The partitions follow one another from `from` on with no overlap, up to `limit`.
abbrev pub Separate : ℕ → ℕ → List FlashPartition → Type 0
Separate limit from [] = ⊥
Separate limit from (p ∷ ps) = elim p.name [
  | none ↦ from ≤ limit
  | some _ ↦ (from ≤ p.base) × Separate limit (p.base + p.size) ps
]

separate : ℕ → ℕ → List FlashPartition → Bool
separate limit from [] = false
separate limit from (p ∷ ps) = elim p.name [
  | none ↦ leb from limit
  | some _ ↦ leb from p.base && separate limit (p.base + p.size) ps
]

separate_lem :
    (limit from : ℕ) (ps : List FlashPartition)
    → separate limit from ps ≡ true
    → Separate limit from ps
unfolding separate
separate_lem limit from [] h = cc
separate_lem limit from (p ∷ ps) h = elim (Option-cases p.name) [
  | inl n ↦ rw n (leb→le from limit (rw n at h))
  | inr (name, n) ↦
      let (here, rest) = &&-split (leb from p.base) _ (rw n at h) in
      rw n (leb→le from p.base here, separate_lem limit (p.base + p.size) ps rest)
]

abbrev flash_limit : ℕ
flash_limit = 0x2000000

boards-separate : on_boards (λ b. separate flash_limit 0 b.partitions) boards ≡ true
unfolding on_boards separate
boards-separate = refl

-- No two partitions of a board that can be found overlap, they stand in the order of their bases, and they end
-- within the 32 MiB of the largest flash.
pub find_board-Separate :
    (id : Bytes) (board : DeviceInfo)
    → find_board id ≡ some board
    → Separate flash_limit 0 board.partitions
unfolding find_board
find_board-Separate id board h =
    separate_lem flash_limit 0 board.partitions
      (on_boards_lem (λ b. separate flash_limit 0 b.partitions) boards id board boards-separate h)

-- The table has a row at least, and its text leaves room for a zero in 0x7fc bytes.
lines_fit : Option (List Bytes) → Bool
lines_fit none = false
lines_fit (some []) = false
lines_fit (some (l ∷ ls)) = ltb (total (l ∷ ls)) 0x7fc

boards-lines_fit : on_boards (λ b. lines_fit (flash_lines b.partitions)) boards ≡ true
unfolding on_boards lines_fit flash_lines flash_line hex5 hex_onto hex_digit
boards-lines_fit = refl

lines_fit_lem :
    (lines : Option (List Bytes))
    → lines_fit lines ≡ true
    → (l : Bytes) × (ls : List Bytes) × (lines ≡ some (l ∷ ls)) × (total (l ∷ ls) < 0x7fc)
unfolding lines_fit
lines_fit_lem none h = cc
lines_fit_lem (some []) h = cc
lines_fit_lem (some (l ∷ ls)) h = (l, ls, refl, ltb→lt (total (l ∷ ls)) 0x7fc h)

-- A flash partition of this name has room for so many bytes.
has_room : Option ℕ → ℕ → Bool
has_room none need = false
has_room (some s) need = leb need s

has_room_lem :
    (o : Option ℕ) (need : ℕ) → has_room o need ≡ true → (s : ℕ) × (o ≡ some s) × (need ≤ s)
unfolding has_room
has_room_lem none need h = cc
has_room_lem (some s) need h = (s, refl, leb→le need s h)

boards_table_room :
    on_boards (λ b. has_room (flash_size b.partitions (codes "partition-table")) 0x800) boards
    ≡ true
unfolding on_boards has_room flash_size same_text
boards_table_room = refl

-- The partition-table partition of every board that can be found is made, and fits its place in
-- the flash, for any block of the right length that `malloc` gives.
pub make_partition_table-find_board :
    (id : Bytes) (board : DeviceInfo) (malloc : Malloc) (block : Bytes)
    → find_board id ≡ some board
    → malloc 0x800 ≡ some block
    → length block ≡ 0x800
    → (ls : List Bytes) × (flash_lines board.partitions ≡ some ls)
      × (make_partition_table malloc board.partitions
          ≡ ok (record {
            name = some (codes "partition-table");
            size = 0x800;
            content = table_text ls;
          }))
      × (s : ℕ) × (flash_size board.partitions (codes "partition-table") ≡ some s)
      × (0x800 ≤ s)
unfolding find_board
make_partition_table-find_board id board malloc block h hm hb =
    let (l, ls, lines, fits) = lines_fit_lem (flash_lines board.partitions) (
      on_boards_lem (λ b. lines_fit (flash_lines b.partitions)) boards id board boards-lines_fit
        h) in
    let (s, found, room) =
      has_room_lem (flash_size board.partitions (codes "partition-table")) 0x800 (
        on_boards_lem (λ b. has_room (flash_size b.partitions (codes "partition-table")) 0x800)
          boards id board boards_table_room h) in
    (
      l ∷ ls,
      lines,
      make_partition_table_lem malloc board.partitions block l ls hm hb lines
          ∙ rw (lt→ltb (total (l ∷ ls)) 0x7fc fits),
      s,
      found,
      room,
    )
