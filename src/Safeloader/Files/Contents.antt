-- ===== src/Safeloader/Files/Contents.antt =====
-- What `read_file` and `read_file_split2` put into a partition.
use safewrt.Common.{
  ℕ, ◌+◌, ◌-◌, ◌%◌, ◌^◌, ◌≤◌, ◌<◌, ◌≡◌, refl, ap, ◌∙◌, Bool, true, false, some, [], ◌∷◌, ◌++◌,
  Bytes, length, drop, length-append, length-drop, drop-drop, drop-length, replicate,
  length-replicate, arith,
}
use safewrt.Common.Outcome.{ok, stop, exits}
use safewrt.Common.Memory.{write, write_next, write_pieces_whole}
use safewrt.Safeloader.Pieces.{Malloc, alloc_image_partition, align, jffs2_eof_mark}
use safewrt.Safeloader.Files.{FileSystem, fread, put_eof, read_file, read_file_split2}
use mathlib.Core.List.{append_assoc, append-nil}

-- `ALIGN` by 0x10000 answers the least multiple that is not below `x`.
pub align_lem :
    (x : ℕ)
    → x < 2 ^ 63
    → (align x 0x10000 % 0x10000 ≡ 0) × (x ≤ align x 0x10000) × (align x 0x10000 < x + 0x10000)
unfolding align
align_lem x h = omega arith

-- `fread` of a file that is not empty.
fread_lem :
    (buf contents : Bytes) (at : ℕ)
    → 0 < length contents
    → fread buf at contents ≡ write buf at contents
unfolding fread
fread_lem buf contents at h = ground arith

-- The bytes behind a file are replaced, up to the end of the block.
put_eof_lem :
    (pre rest : Bytes) (gap end : ℕ)
    → length rest ≡ gap + 4
    → end ≡ length pre + gap + 4
    → put_eof (pre ++ rest) (length pre) end ≡ ok (pre ++ (replicate gap 0xff ++ jffs2_eof_mark))
unfolding put_eof
put_eof_lem pre rest gap end hr he =
    rw (padding, write_next pre rest fillers (length pre) refl (omega (arith, filled)))
      (write_next (pre ++ fillers) (drop (length fillers) rest) jffs2_eof_mark (end - 4)
          (omega (arith, length-append pre fillers, filled))
          (omega (arith, length-drop (length fillers) rest, filled))
        ∙ ap ok (rw nothing_left (simp (append_assoc, append-nil))))
  where
    fillers : Bytes
    fillers = replicate gap 0xff

    filled : length fillers ≡ gap
    filled = length-replicate gap 0xff

    padding : end - length pre - 4 ≡ gap
    padding = omega arith

    nothing_left : drop 4 (drop (length fillers) rest) ≡ []
    nothing_left =
        drop-length 4 (drop (length fillers) rest)
          (omega (arith, length-drop (length fillers) rest, filled))

-- The size of the partition of a file of `n` bytes.
abbrev file_size : Bool → ℕ → ℕ
file_size true n = align n 0x10000 + 4
file_size false n = n

-- What follows the file, up to the end of the partition.
abbrev file_end : Bool → ℕ → Bytes
file_end true n = replicate (align n 0x10000 - n) 0xff ++ jffs2_eof_mark
file_end false n = []

-- `read_file` of a file that is not empty: the file, and where a mark is asked for 0xff up to the
-- next multiple of 0x10000 and the mark behind it.
pub read_file_lem :
    (files : FileSystem) (malloc : Malloc) (part_name filename contents block : Bytes) (eof : Bool)
    → files filename ≡ some contents
    → 0 < length contents
    → length contents < 2 ^ 63
    → malloc (file_size eof (length contents)) ≡ some block
    → length block ≡ file_size eof (length contents)
    → read_file files malloc part_name filename eof
      ≡ ok (record {
        name = some part_name;
        size = file_size eof (length contents);
        content = contents ++ file_end eof (length contents);
      })
unfolding read_file alloc_image_partition
read_file_lem files malloc part_name filename contents block true hf hp hw hm hb = rw (
  hf,
  hm,
  fread_lem block contents 0 hp,
  write_next [] block contents 0 refl (omega (arith, align_lem (length contents) hw)),
  put_eof_lem contents (drop (length contents) block)
      (align (length contents) 0x10000 - length contents) (align (length contents) 0x10000 + 4)
      (omega (arith, align_lem (length contents) hw, length-drop (length contents) block))
      (omega (arith, align_lem (length contents) hw)),
)
read_file_lem files malloc part_name filename contents block false hf hp hw hm hb =
    rw (hf, hm, fread_lem block contents 0 hp)
      (write_pieces_whole (contents ∷ []) block
        (λ whole. ok (record { name = some part_name; size = length contents; content = whole }))
        (omega arith))

-- An empty file ends the program by `exits 1`, since `fread` of no bytes answers 0.
pub read_file_empty :
    (files : FileSystem) (malloc : Malloc) (part_name filename block : Bytes) (eof : Bool)
    → files filename ≡ some []
    → malloc (file_size eof 0) ≡ some block
    → read_file files malloc part_name filename eof ≡ stop (exits 1)
unfolding read_file alloc_image_partition fread
read_file_empty files malloc part_name filename block true hf hm = rw (hf, hm)
read_file_empty files malloc part_name filename block false hf hm = rw (hf, hm)

-- `read_file_split2` of two files that are not empty, with no mark: they stand behind one another.
-- The block has room for the first file's length rounded up, and what the files do not fill is left
-- as `malloc` gave it.
pub read_file_split2_lem :
    (files : FileSystem) (malloc : Malloc) (part_name rootfn kernelfn first second block : Bytes)
    → files rootfn ≡ some first
    → files kernelfn ≡ some second
    → 0 < length first
    → 0 < length second
    → length first < 2 ^ 63
    → malloc (align (length first) 0x10000 + length second) ≡ some block
    → length block ≡ align (length first) 0x10000 + length second
    → read_file_split2 files malloc part_name rootfn kernelfn false
      ≡ ok (record {
        name = some part_name;
        size = align (length first) 0x10000 + length second;
        content = first ++ (second ++ drop (length first + length second) block);
      })
unfolding read_file_split2 alloc_image_partition
read_file_split2_lem files malloc part_name rootfn kernelfn first second block hr hk hp1 hp2 hw hm
      hb =
    rw (hr, hk, hm, fread_lem block first 0 hp1)
      (rw (
        write_next [] block first 0 refl (omega (arith, align_lem (length first) hw)),
        fread_lem (first ++ drop (length first) block) second (length first) hp2,
        write_next first (drop (length first) block) second (length first) refl
            (omega (arith, align_lem (length first) hw, length-drop (length first) block)),
        drop-drop (length first) (length second) (length first + length second) block refl,
        append_assoc,
      ))
