-- ===== src/Safeloader/Unpack.antt =====
-- The copying of partitions out of an image in tools/tplink-safeloader/tplink-safeloader.c:
-- `write_partition`, `extract_firmware_partition`, `extract_firmware`, `find_partition`, `write_ff` and
-- `convert_firmware`.
--
-- `fread` and `fwrite` fail by a short count only, which the source does not look at: a short read leaves
-- what stood in the buffer, and writing succeeds. The output of `convert_firmware` is another file than
-- its input, which `fopen(output, "wb")` would have emptied.
pub mod Chunks
pub mod Extracted
pub mod RoundTrip
pub mod Convert
pub mod Rows
pub mod Missing
pub mod Found
pub mod Converted
use safewrt.Common.{
  ℕ, zero, suc, ◌+◌, ◌-◌, ◌*◌, ◌/◌, ◌%◌, ◌^◌, min, Bool, true, false, not, ◌&&◌, Option, none, some,
  List, [], ◌∷◌, ◌++◌, Bytes, length, take, drop, replicate, ltb, leb, ◌==◌, if◌then◌else◌,
}
use safewrt.Common.Outcome.{Outcome, ok, stop, exits, faults, ◌>>=◌, ◌>>◌, guard, need}
use safewrt.Common.Text.{codes, same_text}
use safewrt.Safeloader.Layout.{FlashPartition, last_row}
use safewrt.Safeloader.Extract.{is_free, fread_front, read_partition_table}

-- An open output file: what stands in front of the position and behind it. Where the position is past
-- the end, `gap` zeros come in front of what is written next.
pub record OutFile : Type 0 where
  pub before : Bytes
  pub gap : ℕ
  pub after : Bytes

abbrev pub fresh : OutFile
fresh = record { before = []; gap = 0; after = [] }

-- What the file holds when it is closed.
abbrev pub contents : OutFile → Bytes
contents f = f.before ++ f.after

unfoldable pub fwrite : OutFile → Bytes → OutFile
fwrite f [] = f
fwrite f (b ∷ bs) = record {
  before = f.before ++ (replicate f.gap 0 ++ (b ∷ bs));
  gap = 0;
  after = drop (length (b ∷ bs)) f.after;
}

unfoldable pub fseek : OutFile → ℕ → OutFile
fseek f offset = record {
  before = take offset (contents f);
  gap = offset - length (contents f);
  after = drop offset (contents f);
}

-- The state of the copying: the buffer, the input from the position on, and the output.
pub record Copying : Type 0 where
  pub buf : Bytes
  pub input : Bytes
  pub out : OutFile

-- `fread(buf, count, 1, input_file)` and `fwrite(buf, count, 1, output_file)`
unfoldable pub copy_chunk : ℕ → Copying → Copying
copy_chunk count s =
    let buf' = fread_front s.buf count s.input in
    record { buf = buf'; input = drop count s.input; out = fwrite s.out (take count buf') }

-- The loop over whole chunks of 4096 bytes, for the rounds that are left.
unfoldable pub copy_chunks : ℕ → Copying → Copying
copy_chunks zero s = s
copy_chunks (suc rounds) s = copy_chunks rounds (copy_chunk 4096 s)

-- `stack` is what stood in `buf`. The loop runs while 4096 bytes or more are left.
unfoldable pub write_partition : Bytes → Bytes → ℕ → FlashPartition → OutFile → OutFile
write_partition stack input_file firmware_offset entry output_file =
    let input = drop (entry.base + firmware_offset) input_file in
    let rounds = entry.size / 4096 in
    let s = copy_chunks rounds (record { buf = stack; input = input; out = output_file }) in
    let offset = 4096 * rounds in
    if ltb offset entry.size then (copy_chunk (entry.size - offset) s).out else s.out

-- The loop over whole chunks of 0xff.
unfoldable pub write_ff_chunks : ℕ → OutFile → OutFile
write_ff_chunks zero out = out
write_ff_chunks (suc rounds) out = write_ff_chunks rounds (fwrite out (replicate 4096 0xff))

-- The loop runs while more than 4096 bytes are left. `offset` is an `int`: at 2 ^ 31 it becomes
-- negative, which ends the loop, and nothing more is written.
unfoldable pub write_ff : OutFile → ℕ → OutFile
write_ff output_file size =
    let rounds = min ((size - 1) / 4096) (2 ^ 19) in
    let out = write_ff_chunks rounds output_file in
    let offset = 4096 * rounds in
    if ltb offset (2 ^ 31) && ltb offset size
    then fwrite out (replicate (size - offset) 0xff)
    else out

-- The machine that the tool runs on: `stat` of the input, whether a path is a directory (none where
-- `stat` fails), `fopen` for reading and for writing, and what stood in the local buffers, by a number
-- for the call and by the size.
pub record Disk : Type 0 where
  pub exists : Bytes → Bool
  pub is_directory : Bytes → Option Bool
  pub open_input : Bytes → Option Bytes
  pub can_create : Bytes → Bool
  pub stack : ℕ → ℕ → Bytes

abbrev pub path_max : ℕ
path_max = 4096

-- The path of the file that is made, and its content.
unfoldable pub extract_firmware_partition :
    Disk → ℕ → Bytes → ℕ → FlashPartition → Bytes → Outcome (Bytes × Bytes)
extract_firmware_partition disk call input_file firmware_offset entry output_directory = do
  name ← need entry.name faults
  let output = take (path_max - 1) (output_directory ++ (codes "/" ++ name))
  guard (disk.can_create output) (exits 1)
  ok (
    output,
    contents (write_partition (disk.stack call 4096) input_file firmware_offset entry fresh),
  )

-- The loop over the entries, from one on: the files that are made.
unfoldable pub extract_entries :
    Disk → ℕ → Bytes → ℕ → List FlashPartition → Bytes → Outcome (List (Bytes × Bytes))
extract_entries disk call input_file firmware_offset [] output_directory = ok []
extract_entries disk call input_file firmware_offset (entry ∷ entries) output_directory =
    let rest =
      extract_entries disk (call + 1) input_file firmware_offset entries output_directory in
    let this =
      extract_firmware_partition disk call input_file firmware_offset entry output_directory in
    if is_free entry then rest else this >>= λ made. rest >>= λ more. ok (made ∷ more)

-- Extract all partitions from the firmware file. The answer of `fopen` is used as it is.
unfoldable pub extract_firmware : Disk → Bytes → Bytes → Outcome (List (Bytes × Bytes))
extract_firmware disk input output_directory = do
  guard (disk.exists input) (exits 1)
  directory ← need (disk.is_directory output_directory) (exits 1)
  guard directory (exits 1)
  input_file ← need (disk.open_input input) faults
  (status, entries) ←
      read_partition_table input_file 0x1014 (disk.stack 0 2048) (replicate 16 last_row) 0
  guard (status == 0) (exits 1)
  extract_entries disk 1 input_file 0x1014 entries output_directory

-- `strcmp` of an entry with no name is undefined.
unfoldable pub find_partition : List FlashPartition → Bytes → Outcome FlashPartition
find_partition [] name = stop (exits 1)
find_partition (entry ∷ entries) name = do
  n ← need entry.name faults
  if same_text n name then ok entry else find_partition entries name

-- A difference of two `uint32_t`.
unfoldable pub sub32 : ℕ → ℕ → ℕ
sub32 a b = (a + 2 ^ 32 - b) % 2 ^ 32

-- The bytes that are written to `output`.
unfoldable pub convert_firmware : Disk → Bytes → Bytes → Outcome Bytes
convert_firmware disk input output = do
  guard (disk.exists input) (exits 1)
  input_file ← need (disk.open_input input) (exits 1)
  guard (disk.can_create output) (exits 1)
  (status, fwup) ←
      read_partition_table input_file 0x1014 (disk.stack 0 2048) (replicate 32 last_row) 0
  guard (status == 0) (exits 1)
  fwup_os_image ← find_partition fwup (codes "os-image")
  fwup_file_system ← find_partition fwup (codes "file-system")
  fwup_partition_table ← find_partition fwup (codes "partition-table")
  (status', flash) ←
      read_partition_table input_file (0x1014 + fwup_partition_table.base + 4) (disk.stack 1 2048)
        (replicate 32 last_row) 1
  guard (status' == 0) (exits 1)
  flash_os_image ← find_partition flash (codes "os-image")
  flash_file_system ← find_partition flash (codes "file-system")
  let os = write_partition (disk.stack 2 4096) input_file 0x1014 fwup_os_image fresh
  let os_ff = write_ff os (sub32 flash_os_image.size fwup_os_image.size)
  let placed = fseek os_ff (sub32 flash_file_system.base flash_os_image.base)
  let fs = write_partition (disk.stack 3 4096) input_file 0x1014 fwup_file_system placed
  ok (contents (write_ff fs (sub32 flash_file_system.size fwup_file_system.size)))
