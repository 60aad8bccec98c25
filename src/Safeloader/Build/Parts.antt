-- ===== src/Safeloader/Build/Parts.antt =====
-- The array `parts` of `build_image` in tools/tplink-safeloader/tplink-safeloader.c, on a machine
-- whose `malloc` answers every call and whose three input files can be read.
use safewrt.Common.{
  ℕ, ◌+◌, ◌-◌, ◌^◌, ◌≤◌, ◌<◌, ◌≡◌, refl, ap, ◌∙◌, sym, false, none, some, List, [], ◌∷◌, ◌++◌,
  Bytes, length, take, drop, total, replicate, length-append, length-take, length-drop,
  length-replicate, arith, lt→ltb, length-joined, joined,
}
use safewrt.Common.Outcome.{Outcome, ok}
use safewrt.Common.Memory.{write, write_next}
use safewrt.Common.Text.{codes}
use safewrt.Common.Words.{be32, length-be32}
use safewrt.Safeloader.Layout.{ImagePartition, DeviceInfo}
use safewrt.Safeloader.Pieces.{Tm, align, make_partition_table, make_support_list, put_data}
use safewrt.Safeloader.Pieces.Contents.{
  make_support_list_lem, make_soft_version_lem, make_soft_version_from_string_lem, put_data_lem,
  time_used, date_bytes,
}
use safewrt.Safeloader.Files.{read_file, read_file_split2}
use safewrt.Safeloader.Files.Contents.{read_file_lem, read_file_split2_lem, align_lem}
use safewrt.Safeloader.Tables.Flash.{flash_lines, table_text, make_partition_table_lem}
use safewrt.Safeloader.Image.Partitions.{Named, entry}
use safewrt.Safeloader.Build.{Host, soft_version_part}
use mathlib.Core.List.{append-nil}

-- A partition whose size is the length of its content.
entry_of :
    (label body : Bytes) (n : ℕ)
    → length body ≡ n
    → ◌≡◌ {A = Outcome ImagePartition}
        (ok (record { name = some label; size = n; content = body }))
        (ok (entry (record { label = label; body = body })))
entry_of label body n h =
    ap (λ k. ok (record { name = some label; size = k; content = body })) (sym h)

-- A buffer with a text at its start.
abbrev pub over : Bytes → Bytes → Bytes
over buf text = text ++ drop (length text) buf

pub write-over :
    (buf text : Bytes) → length text ≤ length buf → write buf 0 text ≡ ok (over buf text)
write-over buf text h = write_next [] buf text 0 refl h

pub length-over :
    (buf text : Bytes) → length text ≤ length buf → length (over buf text) ≡ length buf
length-over buf text h =
    omega (arith, length-append text (drop (length text) buf), length-drop (length text) buf)

abbrev pub table_part : List Bytes → Named
table_part lines = record { label = codes "partition-table"; body = table_text lines }

abbrev pub version_part : Tm → ℕ → Named
version_part tm rev = record {
  label = codes "soft-version";
  body =
      be32 0xc
      ++ (be32 0 ++ ((0xff ∷ 0 ∷ 0 ∷ 0 ∷ []) ++ (date_bytes tm ++ (be32 rev ++ (0xff ∷ [])))));
}

abbrev pub named_version_part : Bytes → Named
named_version_part soft_ver = record {
  label = codes "soft-version";
  body = be32 (length soft_ver + 1) ++ (be32 0 ++ (soft_ver ++ (0 ∷ 0 ∷ [])));
}

abbrev pub support_part : Bytes → ℕ → Named
support_part text trail = record {
  label = codes "support-list";
  body = be32 (length text) ++ (replicate 4 0 ++ (text ++ (trail ∷ [])));
}

-- The kernel and the root file system behind one another, and what is left of the block.
abbrev pub os_part : Bytes → Bytes → Bytes → Named
os_part kernel rootfs block = record {
  label = codes "os-image";
  body = kernel ++ (rootfs ++ drop (length kernel + length rootfs) block);
}

abbrev pub random_text : Bytes
random_text = codes "here should be lots of high quality randomness" ++ (0 ∷ [])

abbrev pub system_text : Bytes
system_text = codes "here should be a file system? no idea what to use this for yet" ++ (0 ∷ [])

abbrev pub identity_part : Bytes → Named
identity_part mdat = record { label = codes "identity"; body = take 4096 (over mdat random_text) }

abbrev pub sysconf_part : Bytes → Named
sysconf_part mdat = record {
  label = codes "sysconf";
  body = take 1024 (over (over (over mdat random_text) (replicate 1024 0)) system_text);
}

abbrev pub file_part : Bytes → Named
file_part contents = record { label = codes "file-system"; body = contents }

module _ (host : Host) (heap : ℕ → ℕ → Bytes)
    (gives : (k n : ℕ) → host.malloc k n ≡ some (heap k n))
    (heap_length : (k n : ℕ) → length (heap k n) ≡ n) where
  pub table_made :
      (info : DeviceInfo) (l : Bytes) (ls : List Bytes)
      → flash_lines info.partitions ≡ some (l ∷ ls)
      → total (l ∷ ls) < 0x7fc
      → make_partition_table (host.malloc 0) info.partitions ≡ ok (entry (table_part (l ∷ ls)))
  table_made info l ls h fits =
      make_partition_table_lem (host.malloc 0) info.partitions (heap 0 0x800) l ls (gives 0 0x800)
        (heap_length 0 0x800) h
      ∙ (rw (lt→ltb (total (l ∷ ls)) 0x7fc fits)
          (entry_of (codes "partition-table") (table_text (l ∷ ls)) 0x800 whole))
    where
      whole : length (table_text (l ∷ ls)) ≡ 0x800
      whole = omega (
        arith,
        length-append (joined (l ∷ ls)) (0 ∷ replicate {A = ℕ} (0x7fb - total (l ∷ ls)) 0xff),
        length-joined (l ∷ ls),
        length-replicate {A = ℕ} (0x7fb - total (l ∷ ls)) 0xff,
      )

  pub version_made :
      (info : DeviceInfo) (t rev : ℕ) (tm : Tm)
      → info.soft_ver ≡ none
      → time_used host.source_date_epoch host.time ≡ some t
      → host.localtime t ≡ some tm
      → soft_version_part host info rev ≡ ok (entry (version_part tm rev))
  unfolding soft_version_part
  version_made info t rev tm h ht hl = rw h (
      make_soft_version_lem (host.malloc 1) host.localtime host.source_date_epoch host.time t rev tm
        (heap 1 21) ht hl (gives 1 21) (heap_length 1 21)
      ∙ entry_of (codes "soft-version") (version_part tm rev).body 21 whole)
    where
      whole : length (version_part tm rev).body ≡ 21
      whole = omega (
        arith,
        length-append (be32 0xc) _,
        length-append (be32 0) _,
        length-append (be32 rev) (0xff ∷ []),
        length-be32 0xc,
        length-be32 0,
        length-be32 rev,
      )

  pub named_version_made :
      (info : DeviceInfo) (soft_ver : Bytes) (rev : ℕ)
      → info.soft_ver ≡ some soft_ver
      → length soft_ver + 1 < 2 ^ 32
      → soft_version_part host info rev ≡ ok (entry (named_version_part soft_ver))
  unfolding soft_version_part
  named_version_made info soft_ver rev h hw = rw h (
      make_soft_version_from_string_lem (host.malloc 1) soft_ver (heap 1 (length soft_ver + 10)) hw
        (gives 1 (length soft_ver + 10)) (heap_length 1 (length soft_ver + 10))
      ∙ entry_of (codes "soft-version") (named_version_part soft_ver).body (length soft_ver + 10)
          whole)
    where
      whole : length (named_version_part soft_ver).body ≡ length soft_ver + 10
      whole = omega (
        arith,
        length-append (be32 (length soft_ver + 1)) _,
        length-append (be32 0) _,
        length-append soft_ver (0 ∷ 0 ∷ []),
        length-be32 (length soft_ver + 1),
        length-be32 0,
      )

  pub support_made :
      (info : DeviceInfo) (text : Bytes)
      → info.support_list ≡ some text
      → make_support_list (host.malloc 2) info ≡ ok (entry (support_part text info.support_trail))
  support_made info text h =
      make_support_list_lem (host.malloc 2) info text (heap 2 (length text + 9)) h
        (gives 2 (length text + 9)) (heap_length 2 (length text + 9))
      ∙ entry_of (codes "support-list") (support_part text info.support_trail).body
          (length text + 9) whole
    where
      whole : length (support_part text info.support_trail).body ≡ length text + 9
      whole = omega (
        arith,
        length-append (be32 (length text)) _,
        length-be32 (length text),
        length-append text (info.support_trail ∷ []),
      )

  pub os_made :
      (kernel_image rootfs_image kernel rootfs : Bytes)
      → host.files kernel_image ≡ some kernel
      → host.files rootfs_image ≡ some rootfs
      → 0 < length kernel
      → 0 < length rootfs
      → length kernel < 2 ^ 63
      → read_file_split2 host.files
          (host.malloc 3)
          (codes "os-image")
          kernel_image
          rootfs_image
          false
        ≡ ok
            (entry (os_part kernel rootfs (heap 3 (align (length kernel) 0x10000 + length rootfs))))
  os_made kernel_image rootfs_image kernel rootfs hk hr pk pr hw =
      read_file_split2_lem host.files (host.malloc 3) (codes "os-image") kernel_image rootfs_image
        kernel rootfs block hk hr pk pr hw (gives 3 size) (heap_length 3 size)
      ∙ entry_of (codes "os-image") (os_part kernel rootfs block).body size whole
    where
      size : ℕ
      size = align (length kernel) 0x10000 + length rootfs

      block : Bytes
      block = heap 3 size

      whole : length (os_part kernel rootfs block).body ≡ size
      whole = omega (
        arith,
        length-append kernel (rootfs ++ drop (length kernel + length rootfs) block),
        length-append rootfs (drop (length kernel + length rootfs) block),
        length-drop (length kernel + length rootfs) block,
        heap_length 3 size,
        align_lem (length kernel) hw,
      )

  pub data_made :
      (k n : ℕ) (label datain : Bytes)
      → n ≤ length datain
      → put_data (host.malloc k) label datain n
        ≡ ok (entry (record { label = label; body = take n datain }))
  data_made k n label datain h =
      put_data_lem (host.malloc k) label datain (heap k n) n (gives k n) (heap_length k n) h
      ∙ entry_of label (take n datain) n (omega (arith, length-take n datain))

  pub file_made :
      (path contents : Bytes)
      → host.files path ≡ some contents
      → 0 < length contents
      → length contents < 2 ^ 63
      → read_file host.files (host.malloc 7) (codes "file-system") path false
        ≡ ok (entry (file_part contents))
  file_made path contents h hp hw =
      read_file_lem host.files (host.malloc 7) (codes "file-system") path contents
        (heap 7 (length contents)) false h hp hw (gives 7 (length contents))
        (heap_length 7 (length contents))
      ∙ rw append-nil
