-- ===== src/Safeloader/Extract.antt =====
-- The reading of existing images in tools/tplink-safeloader/tplink-safeloader.c:
-- `add_flash_partition` and `read_partition_table`.
--
-- A pointer into the line or the buffer is the list of the bytes from it on, to the end of the line
-- or the buffer; a read behind the end is `faults`. `fread` fails by a short count only, which the
-- source does not look at: a short read leaves what stood in the buffer. The `calloc` for a name is
-- taken to answer: the source uses its answer without a test.
pub mod Lines
pub mod Entries
pub mod Table
pub mod Formats
pub mod Printed
pub mod Boards
pub mod Rounds
pub mod Answers
use safewrt.Common.{
  ℕ, zero, suc, ◌+◌, ◌-◌, ◌*◌, ◌/◌, ◌%◌, ◌^◌, Bool, true, false, not, ◌&&◌, ◌||◌, Option, none,
  some, List, [], ◌∷◌, ◌++◌, map, Bytes, length, take, drop, replicate, ltb, leb, ◌==◌,
  if◌then◌else◌,
}
use safewrt.Common.Outcome.{Outcome, ok, stop, exits, faults, ◌>>=◌, ◌>>◌, guard, need}
use safewrt.Common.Memory.{write}
use safewrt.Common.Text.{codes, same_text, skip_space, c_string}
use safewrt.Common.Hex.{hex_value}
use safewrt.Safeloader.Layout.{FlashPartition}

-- An entry that is not in use.
unfoldable pub is_free : FlashPartition → Bool
is_free p = elim p.name [ some _ ↦ false | none ↦ p.base == 0 && p.size == 0 ]

-- The first free entry is filled; `base` and `size` are stored into 32 bits.
unfoldable pub add_flash_partition :
    List FlashPartition → Bytes → ℕ → ℕ → Outcome (List FlashPartition)
add_flash_partition [] name base size = stop (exits 1)
add_flash_partition (p ∷ ps) name base size =
    let later = add_flash_partition ps name base size >>= λ qs. ok (p ∷ qs) in
    if is_free p
    then ok (record { name = some name; base = base % 2 ^ 32; size = size % 2 ^ 32 } ∷ ps)
    else later

-- `memchr`: what stands in front of the first such byte, and what begins with it.
unfoldable pub memchr : ℕ → Bytes → Option (Bytes × Bytes)
memchr c [] = none
memchr c (b ∷ bs) =
    if b == c
    then some ([], b ∷ bs)
    else elim (memchr c bs) [ none ↦ none | some (front, found) ↦ some (b ∷ front, found) ]

-- The value of the hexadecimal digits at the front, behind `acc`.
unfoldable pub hex_front : ℕ → Bytes → ℕ
hex_front acc [] = acc
hex_front acc (c ∷ cs) = elim (hex_value c) [ none ↦ acc | some d ↦ hex_front (acc * 16 + d) cs ]

-- A prefix `0x`, which may stand in front of the digits. With no digit behind it the value is 0 as
-- well.
unfoldable pub skip_0x : Bytes → Bytes
skip_0x (z ∷ (x ∷ cs)) = if z == b'0' && (x == b'x' || x == b'X') then cs else z ∷ (x ∷ cs)
skip_0x cs = cs

-- A value that does not fit an `unsigned long` is the largest one.
unfoldable pub saturate : ℕ → ℕ
saturate n = if ltb n (2 ^ 64) then n else 2 ^ 64 - 1

-- The digits of a `strtoul` with no sign, and behind a minus sign.
unfoldable pub strtoul_positive : Bytes → ℕ
strtoul_positive s = saturate (hex_front 0 (skip_0x s))

unfoldable pub strtoul_negative : Bytes → ℕ
strtoul_negative s =
    let n = hex_front 0 (skip_0x s) in if ltb n (2 ^ 64) then (2 ^ 64 - n) % 2 ^ 64 else 2 ^ 64 - 1

unfoldable pub strtoul_signed : Bytes → ℕ
strtoul_signed [] = 0
strtoul_signed (c ∷ cs) =
    if c == b'-'
    then strtoul_negative cs
    else if c == b'+'
    then strtoul_positive cs
    else strtoul_positive (c ∷ cs)

-- A zero ends the text within these bytes.
unfoldable pub has_zero : Bytes → Bool
has_zero [] = false
has_zero (c ∷ cs) = c == 0 || has_zero cs

-- `strtoul(s, NULL, 16)`, whose argument has to be a text that a zero ends.
unfoldable pub strtoul16 : Bytes → Outcome ℕ
strtoul16 s = guard (has_zero s) faults >> ok (strtoul_signed (skip_space s))

-- One round of the loop over the elements of a line. At the end of the line the loop is left; a line
-- with no further space ends the program; else the element and what follows its space are used.
unfoldable pub with_element {ℓ} : {A : Type ℓ} → Bytes → A → (Bytes → Bytes → Outcome A) → Outcome A
with_element [] left use_element = ok left
with_element (c ∷ cs) left use_element = elim (memchr 0x20 (c ∷ cs)) [
  | none ↦ stop (exits 1)
  | some (element, found) ↦ use_element element (drop 1 found)
]

-- A line of the table: `line` up to its newline, and `behind` from the newline on. The answer is the
-- place where the next line is looked for, and the entries.
unfoldable pub read_entry :
    Bytes → Bytes → List FlashPartition → Outcome (Bytes × List FlashPartition)
read_entry line behind entries =
    with_element line (behind, entries)
      λ header at_name.
        with_element at_name (behind, entries)
          λ name at_base.
            with_element at_base (behind, entries)
              λ word_base at_number.
                with_element at_number (behind, entries)
                  λ number at_size. strtoul16 (at_number ++ behind) >>= λ base.
                    with_element at_size (behind, entries)
                      λ word_size at_last. strtoul16 (at_last ++ behind) >>= λ size.
                        add_flash_partition entries (c_string (take 31 name)) base size >>= λ added.
                        ok (drop 1 behind, added)

-- `memcmp(ptr, parthdr, strlen(parthdr)) == 0`, which reads all these bytes from `ptr` on.
unfoldable pub compare : Bytes → Bytes → Outcome Bool
compare parthdr ptr =
    guard (leb (length parthdr) (length ptr)) faults
    >> ok (same_text (take (length parthdr) ptr) parthdr)

-- The test of the loop over the lines: there is more than a header, and it is one.
unfoldable pub line_follows : Bytes → Bytes → Outcome Bool
line_follows parthdr ptr =
    if ltb (length parthdr) (length ptr) then compare parthdr ptr else ok false

-- The loop over the lines, from `ptr` on. Each round goes on by a byte at least, so as many rounds as
-- there are bytes are enough.
unfoldable pub read_entries :
    ℕ → Bytes → Bytes → List FlashPartition → Outcome (List FlashPartition)
read_entries zero parthdr ptr entries = stop faults
read_entries (suc fuel) parthdr ptr entries = elim (line_follows parthdr ptr) [
  | stop why ↦ stop why
  | ok false ↦ ok entries
  | ok true ↦ elim (memchr 0x0a ptr) [
    | none ↦ ok entries
    | some (line, behind) ↦
        read_entry line behind entries >>= λ (next, added). read_entries fuel parthdr next added
  ]
]

unfoldable pub header_of : ℕ → Option Bytes
header_of type =
    if type == 0
    then some (codes "fwup-ptn")
    else if type == 1
    then some (codes "partition")
    else none

-- `fread(buf, …)` at the front of a buffer: what is there of so many bytes, and what stood behind.
unfoldable pub fread_front : Bytes → ℕ → Bytes → Bytes
fread_front buf count input = take count input ++ drop (length (take count input)) buf

-- Read the partition table at `offset` of the file. `stack` is what stood in `buf`, which has 2048
-- bytes. The answer is the status and the entries.
unfoldable pub read_partition_table :
    Bytes → ℕ → Bytes → List FlashPartition → ℕ → Outcome (ℕ × List FlashPartition)
read_partition_table file offset stack entries type = do
  parthdr ← need (header_of type) (exits 1)
  buf ← write (fread_front stack 2048 (drop offset file)) 2047 (0 ∷ [])
  same ← compare parthdr buf
  if same
      then (do added ← read_entries (suc (length buf)) parthdr buf entries; ok (0, added))
      else ok (1, entries)
