-- ===== src/Safeloader/Pieces/Contents.antt =====
-- What the small partitions of tools/tplink-safeloader/tplink-safeloader.c hold, for any block
-- that `malloc` gives.
use safewrt.Common.{
  ℕ, ◌+◌, ◌-◌, ◌*◌, ◌/◌, ◌%◌, ◌^◌, ◌≤◌, ◌<◌, ◌≡◌, ◌∙◌, Option, none, some, [], ◌∷◌, ◌++◌, Bytes,
  length, take, map, length-append, length-take, take-length, replicate, le→leb, arith,
}
use safewrt.Common.Outcome.{Outcome, ok, exits, need}
use safewrt.Common.Text.{codes}
use safewrt.Common.Words.{be32}
use safewrt.Common.Memory.{write_pieces_whole}
use safewrt.Safeloader.Layout.{DeviceInfo}
use safewrt.Safeloader.Pieces.{
  Malloc, alloc_image_partition, put32, bcd, Tm, make_soft_version, make_soft_version_from_string,
  make_support_list, put_data,
}
use mathlib.Core.List.{append_assoc, append-nil}
use native.Mathlib.Nat.{add_comm}

-- The support list: its length, four zeros, its bytes, and the byte that the board asks for. No
-- byte of the block that `malloc` gave is left.
pub make_support_list_lem :
    (malloc : Malloc) (info : DeviceInfo) (text block : Bytes)
    → info.support_list ≡ some text
    → malloc (length text + 9) ≡ some block
    → length block ≡ length text + 9
    → make_support_list malloc info
      ≡ ok (record {
        name = some (codes "support-list");
        size = length text + 9;
        content = be32 (length text) ++ (replicate 4 0 ++ (text ++ (info.support_trail ∷ [])));
      })
unfolding make_support_list alloc_image_partition put32 be32
make_support_list_lem malloc info text block hs hm hb =
    rw (hs, hm, add_comm (length text) 8)
      (write_pieces_whole
        (be32 (length text) ∷ replicate 4 0 ∷ text ∷ (info.support_trail ∷ []) ∷ []) block
        (λ whole.
          ok (record {
            name = some (codes "support-list");
            size = length text + 9;
            content = whole;
          }))
        (omega arith))

-- The soft version that a board names: the length of the text with its zero, a zero word, the
-- text, its zero and one more.
pub make_soft_version_from_string_lem :
    (malloc : Malloc) (soft_ver block : Bytes)
    → length soft_ver + 1 < 2 ^ 32
    → malloc (length soft_ver + 10) ≡ some block
    → length block ≡ length soft_ver + 10
    → make_soft_version_from_string malloc soft_ver
      ≡ ok (record {
        name = some (codes "soft-version");
        size = length soft_ver + 10;
        content = be32 (length soft_ver + 1) ++ (be32 0 ++ (soft_ver ++ (0 ∷ 0 ∷ [])));
      })
unfolding make_soft_version_from_string alloc_image_partition be32
make_soft_version_from_string_lem malloc soft_ver block hw hm hb =
    rw
      (
        ver_len,
        partition_len,
        hm,
        take-length (length soft_ver + 1) (soft_ver ++ (0 ∷ []))
            (omega (arith, length-append soft_ver (0 ∷ []))),
        last_place,
      )
      (write_pieces_whole
          ((be32 (length soft_ver + 1) ++ be32 0) ∷ (soft_ver ++ (0 ∷ [])) ∷ (0 ∷ []) ∷ []) block
          (λ whole. ok (record {
            name = some (codes "soft-version");
            size = length soft_ver + 10;
            content = whole;
          }))
          (omega (arith, length-append soft_ver (0 ∷ [])))
        ∙ simp append_assoc)
  where
    ver_len : (length soft_ver + 1) % 2 ^ 32 ≡ length soft_ver + 1
    ver_len = omega arith

    partition_len : (2 * 4 + (length soft_ver + 1) + 1) % 2 ^ 64 ≡ length soft_ver + 10
    partition_len = omega arith

    last_place : length soft_ver + 10 - 1 ≡ 8 + length (soft_ver ++ (0 ∷ []))
    last_place = omega (arith, length-append soft_ver (0 ∷ []))

-- The time that counts: the variable's, or the clock's where it is not set.
abbrev pub time_used : Option ℕ → Option ℕ → Option ℕ
time_used (some t) now = some t
time_used none now = now

-- The date as it is stored.
abbrev pub date_bytes : Tm → Bytes
date_bytes tm =
    bcd ((1900 + tm.tm_year) / 100 % 256)
    ∷ bcd (tm.tm_year % 100)
    ∷ bcd ((tm.tm_mon + 1) % 256)
    ∷ bcd (tm.tm_mday % 256)
    ∷ []

-- The soft version that is made up of a date, where `localtime` answers: every field of the
-- packed struct, in its order. No byte of the block that `malloc` gave is left.
pub make_soft_version_lem :
    (malloc : Malloc) (localtime : ℕ → Option Tm) (epoch now : Option ℕ) (t rev : ℕ) (tm : Tm)
    (block : Bytes)
    → time_used epoch now ≡ some t
    → localtime t ≡ some tm
    → malloc 21 ≡ some block
    → length block ≡ 21
    → make_soft_version malloc localtime epoch now rev
      ≡ ok (record {
        name = some (codes "soft-version");
        size = 21;
        content =
            be32 0xc
            ++ (be32 0
                ++ ((0xff ∷ 0 ∷ 0 ∷ 0 ∷ []) ++ (date_bytes tm ++ (be32 rev ++ (0xff ∷ [])))));
      })
unfolding make_soft_version alloc_image_partition be32
make_soft_version_lem malloc localtime epoch now t rev tm block ht hl hm hb =
    rw (hm, time_read epoch now ht, hl)
      (write_pieces_whole
        ((be32 0xc ++ be32 0)
          ∷ (0xff ∷ 0 ∷ 0 ∷ 0 ∷ [])
          ∷ date_bytes tm
          ∷ (be32 rev ++ (0xff ∷ []))
          ∷ [])
        block
        (λ whole. ok (record { name = some (codes "soft-version"); size = 21; content = whole }))
        (omega arith))
  where
    time_read :
        (epoch now : Option ℕ)
        → time_used epoch now ≡ some t
        → ◌≡◌ {A = Outcome ℕ} (elim epoch [ some s ↦ ok s | none ↦ need now (exits 1) ]) (ok t)
    time_read (some s) now h = ground arith
    time_read none now h = rw h

-- The number that two decimal digits in one byte stand for.
unfoldable pub from_bcd : ℕ → ℕ
from_bcd b = b / 16 * 10 + b % 16

-- The stored date stands for the date of the years 1900 to 9999 that `localtime` gave.
pub date_reads_back :
    (tm : Tm)
    → tm.tm_year < 8100
    → tm.tm_mon < 12
    → tm.tm_mday < 32
    → map from_bcd (date_bytes tm)
      ≡ ((1900 + tm.tm_year) / 100)
        ∷ ((1900 + tm.tm_year) % 100)
        ∷ (tm.tm_mon + 1)
        ∷ tm.tm_mday
        ∷ []
unfolding from_bcd bcd
date_reads_back tm hy hm hd = ground arith

-- A partition from data holds the first `len` bytes of the data that is given, and its size is
-- `len`.
pub put_data_lem :
    (malloc : Malloc) (part_name datain block : Bytes) (len : ℕ)
    → malloc len ≡ some block
    → length block ≡ len
    → len ≤ length datain
    → put_data malloc part_name datain len
      ≡ ok (record { name = some part_name; size = len; content = take len datain })
unfolding put_data alloc_image_partition
put_data_lem malloc part_name datain block len hm hb hl =
    rw (hm, le→leb len (length datain) hl)
      (write_pieces_whole (take len datain ∷ []) block
          (λ whole. ok (record { name = some part_name; size = len; content = whole }))
          (omega (arith, length-take len datain))
        ∙ rw append-nil)
