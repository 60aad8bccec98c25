-- ===== src/Safeloader/Pieces.antt =====
-- The functions of tools/tplink-safeloader/tplink-safeloader.c that make one image partition each.
-- `malloc` and the files are parameters: a block has the length that was asked for and any
-- content, and a missing file is `none`. `error(1, …)` is `exits 1`.
pub mod Contents
use safewrt.Common.{
  ℕ, ◌+◌, ◌-◌, ◌*◌, ◌/◌, ◌%◌, ◌^◌, not, Option, none, some, List, [], ◌∷◌, ◌++◌, Bytes, length,
  take, ltb, leb, ◌==◌, if◌then◌else◌,
}
use safewrt.Common.Outcome.{Outcome, ok, stop, exits, faults, ◌>>=◌, ◌>>◌, guard, need}
use safewrt.Common.Memory.{write, fill}
use safewrt.Common.Text.{codes}
use safewrt.Common.Words.{be32}
use safewrt.Common.Hex.{hex5}
use safewrt.Safeloader.Layout.{ImagePartition, FlashPartition, DeviceInfo}

-- `ALIGN(x, a)`: the mask is `~(a - 1)` on a 64-bit `size_t`, for `a` a power of two.
unfoldable pub align : ℕ → ℕ → ℕ
align x a = (x + a - 1) % 2 ^ 64 / a * a

-- `put32(buf + at, val)`, with `val` a `uint32_t`
unfoldable pub put32 : Bytes → ℕ → ℕ → Outcome Bytes
put32 buf at val = write buf at (be32 val)

-- Binary-coded decimal, in a `uint8_t`
unfoldable pub bcd : ℕ → ℕ
bcd v = (0x10 * (v / 10) + v % 10) % 2 ^ 8

abbrev pub jffs2_eof_mark : Bytes
jffs2_eof_mark = 0xde ∷ 0xad ∷ 0xc0 ∷ 0xde ∷ []

-- `snprintf(buf + at, len, "…")` of a text that is written out: at most `len - 1` bytes and a zero.
unfoldable pub snprintf : Bytes → ℕ → ℕ → Bytes → Outcome Bytes
snprintf buf at len text =
    if len == 0 then ok buf else write buf at (take (len - 1) text ++ (0 ∷ []))

-- Print a line at `at`, and answer the place behind it. `w > len - 1` is a test on `size_t`, where
-- `len - 1` wraps at zero.
unfoldable pub print_line : Bytes → ℕ → ℕ → Bytes → Outcome (Bytes × ℕ)
print_line buf at end line = do
  let len = (end + 2 ^ 64 - at) % 2 ^ 64
  buf' ← snprintf buf at len line
  let overflow = ltb ((len + 2 ^ 64 - 1) % 2 ^ 64) (length line)
  guard (not overflow) (exits 1)
  ok (buf', at + length line)

-- The two formats of partition tables.
unfoldable pub flash_line : Bytes → ℕ → ℕ → Bytes
flash_line name base size =
    codes "partition "
    ++ (name
        ++ (codes " base 0x" ++ (hex5 base ++ (codes " size 0x" ++ (hex5 size ++ codes "\n")))))

unfoldable pub fwup_line : Bytes → ℕ → ℕ → Bytes
fwup_line name base size =
    codes "fwup-ptn "
    ++ (name
        ++ (codes " base 0x" ++ (hex5 base ++ (codes " size 0x" ++ (hex5 size ++ codes "\t\r\n")))))

abbrev pub Malloc : Type 0
Malloc = ℕ → Option Bytes

-- Allocates a new image partition
unfoldable pub alloc_image_partition : Malloc → Bytes → ℕ → Outcome ImagePartition
alloc_image_partition malloc name len = do
  block ← need (malloc len) (exits 1)
  ok (record { name = some name; size = len; content = block })

-- `for (i = 0; p[i].name; i++)`: an array with no entry that ends it is read out of bounds.
unfoldable pub print_flash : List FlashPartition → Bytes → ℕ → ℕ → Outcome (Bytes × ℕ)
print_flash [] buf at end = stop faults
print_flash (p ∷ ps) buf at end = elim p.name [
  | none ↦ ok (buf, at)
  | some name ↦
      print_line buf at end (flash_line name p.base p.size) >>= λ (b, s). print_flash ps b s end
]

-- Generates the partition-table partition
unfoldable pub make_partition_table : Malloc → List FlashPartition → Outcome ImagePartition
make_partition_table malloc p = do
  entry ← alloc_image_partition malloc (codes "partition-table") 0x800
  head ← write entry.content 0 (0x00 ∷ 0x04 ∷ 0x00 ∷ 0x00 ∷ [])
  (lines, s) ← print_flash p head 4 entry.size
  filled ← fill lines (s + 1) 0xff (entry.size - (s + 1))
  ok (record entry { content = filled })

-- `struct tm`, as far as it is read, of a year from 1900 on.
pub record Tm : Type 0 where
  pub tm_year : ℕ
  pub tm_mon : ℕ
  pub tm_mday : ℕ

-- Generates the soft-version partition: every field of the packed `struct soft_version` is stored.
-- `time` is the clock's answer, and `source_date_epoch` is there if the variable was set. A null
-- pointer from `localtime` is read through.
unfoldable pub make_soft_version :
    Malloc → (ℕ → Option Tm) → Option ℕ → Option ℕ → ℕ → Outcome ImagePartition
make_soft_version malloc localtime source_date_epoch time rev = do
  entry ← alloc_image_partition malloc (codes "soft-version") 21
  t ← (elim source_date_epoch [ some t ↦ ok t | none ↦ need time (exits 1) ])
  tm ← need (localtime t) faults
  magic ← write entry.content 0 (be32 0x0000_000c ++ be32 0)
  version ← write magic 8 (0xff ∷ 0 ∷ 0 ∷ 0 ∷ [])
  date ← write version 12 (
      bcd ((1900 + tm.tm_year) / 100 % 256)
      ∷ bcd (tm.tm_year % 100)
      ∷ bcd ((tm.tm_mon + 1) % 256)
      ∷ bcd (tm.tm_mday % 256)
      ∷ [])
  whole ← write date 16 (be32 rev ++ (0xff ∷ []))
  ok (record entry { content = whole })

unfoldable pub make_soft_version_from_string : Malloc → Bytes → Outcome ImagePartition
make_soft_version_from_string malloc soft_ver = do
  let ver_len = (length soft_ver + 1) % 2 ^ 32
  let partition_len = (2 * 4 + ver_len + 1) % 2 ^ 64
  entry ← alloc_image_partition malloc (codes "soft-version") partition_len
  head ← write entry.content 0 (be32 ver_len ++ be32 0)
  text ← write head 8 (take ver_len (soft_ver ++ (0 ∷ [])))
  whole ← write text (partition_len - 1) (0 ∷ [])
  ok (record entry { content = whole })

-- Generates the support-list partition
unfoldable pub make_support_list : Malloc → DeviceInfo → Outcome ImagePartition
make_support_list malloc info = do
  support_list ← need info.support_list faults
  let len = length support_list
  entry ← alloc_image_partition malloc (codes "support-list") (len + 9)
  size ← put32 entry.content 0 len
  gap ← fill size 4 0 4
  text ← write gap 8 support_list
  whole ← write text (len + 8) (info.support_trail ∷ [])
  ok (record entry { content = whole })

-- Creates a new image partition from arbitrary data
unfoldable pub put_data : Malloc → Bytes → Bytes → ℕ → Outcome ImagePartition
put_data malloc part_name datain len = do
  entry ← alloc_image_partition malloc part_name len
  guard (leb len (length datain)) faults
  whole ← write entry.content 0 (take len datain)
  ok (record entry { content = whole })
