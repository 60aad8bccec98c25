-- ===== src/Safeloader/Files.antt =====
-- `read_file` and `read_file_split2` of tools/tplink-safeloader/tplink-safeloader.c. The file
-- system is a parameter: the content of each file that can be read. It does not change between
-- `stat` and `fread`.
pub mod Contents
use safewrt.Common.{ℕ, ◌+◌, ◌-◌, Bool, Option, Bytes, length, ◌==◌, if◌then◌else◌}
use safewrt.Common.Outcome.{Outcome, ok, stop, exits, ◌>>=◌, need}
use safewrt.Common.Memory.{write, fill}
use safewrt.Safeloader.Layout.{ImagePartition}
use safewrt.Safeloader.Pieces.{Malloc, alloc_image_partition, align, jffs2_eof_mark}

abbrev pub FileSystem : Type 0
FileSystem = Bytes → Option Bytes

-- `fread(buf + at, length contents, 1, file) != 1` ends the program. `fread` answers 0 where the
-- size is 0.
unfoldable pub fread : Bytes → ℕ → Bytes → Outcome Bytes
fread buf at contents = if length contents == 0 then stop (exits 1) else write buf at contents

-- The bytes from `eof` to `end`: 0xff, and the mark at the end.
unfoldable pub put_eof : Bytes → ℕ → ℕ → Outcome Bytes
put_eof buf eof end = do
  padded ← fill buf eof 0xff (end - eof - 4)
  write padded (end - 4) jffs2_eof_mark

-- Creates a new image partition with an arbitrary name from a file
unfoldable pub read_file : FileSystem → Malloc → Bytes → Bytes → Bool → Outcome ImagePartition
read_file files malloc part_name filename add_jffs2_eof = do
  contents ← need (files filename) (exits 1)
  let st_size = length contents
  let len = if add_jffs2_eof then align st_size 0x10000 + 4 else st_size
  entry ← alloc_image_partition malloc part_name len
  body ← fread entry.content 0 contents
  whole ← (if add_jffs2_eof then put_eof body st_size entry.size else ok body)
  ok (record entry { content = whole })

-- Creates an image partition from kernel+rootfs
unfoldable pub read_file_split2 :
    FileSystem → Malloc → Bytes → Bytes → Bytes → Bool → Outcome ImagePartition
read_file_split2 files malloc part_name rootfn kernelfn add_jffs2_eof = do
  contents1 ← need (files rootfn) (exits 1)
  let st_size1 = length contents1
  contents2 ← need (files kernelfn) (exits 1)
  let st_size2 = length contents2
  let both = align st_size1 0x10000 + st_size2
  let len = if add_jffs2_eof then align both 0x10000 + 4 else both
  entry ← alloc_image_partition malloc part_name len
  first ← fread entry.content 0 contents1
  body ← fread first st_size1 contents2
  whole ← (if add_jffs2_eof then put_eof body (st_size1 + st_size2) entry.size else ok body)
  ok (record entry { content = whole })
