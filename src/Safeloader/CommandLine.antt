-- ===== src/Safeloader/CommandLine.antt =====
-- `set_source_date_epoch` and `main` of tools/tplink-safeloader/tplink-safeloader.c.
--
-- `getopt` is a parameter by its answers: each option's letter with its argument, in order. `strtoull` and
-- `sscanf` are parameters, too.
pub mod Letters
pub mod Wrote
use safewrt.Common.{
  ℕ, zero, suc, ◌+◌, ◌-◌, ◌^◌, ◌≡◌, refl, ap, Bool, true, false, not, ◌&&◌, ◌||◌, Option, none,
  some, List, [], ◌∷◌, Bytes, length, ◌==◌, if◌then◌else◌, Bool-cases, Option-cases, inl, inr,
}
use safewrt.Common.Outcome.{Outcome, ok, stop, exits, ◌>>=◌, need, >>=-eq-ok}
use safewrt.Safeloader.Layout.{DeviceInfo}
use safewrt.Safeloader.Build.{Host, build_image, find_board}
use safewrt.Safeloader.Unpack.{Disk, extract_firmware, convert_firmware}

-- The answer of `strtoull`: the value, what is behind it, and whether `errno` was set.
pub record Number : Type 0 where
  pub value : ℕ
  pub rest : Bytes
  pub failed : Bool

-- `source_date_epoch`, none for -1. `env` is the answer of `getenv`.
unfoldable pub set_source_date_epoch : (Bytes → Number) → Option Bytes → Outcome (Option ℕ)
set_source_date_epoch strtoull none = ok none
set_source_date_epoch strtoull (some []) = ok none
set_source_date_epoch strtoull (some (c ∷ cs)) =
    let n = strtoull (c ∷ cs) in
    if n.failed || not (length n.rest == 0)
    then stop (exits 1)
    else ok (if n.value == 2 ^ 64 - 1 then none else some n.value)

-- The locals of `main`.
pub record Options : Type 0 where
  pub board : Option Bytes
  pub kernel_image : Option Bytes
  pub rootfs_image : Option Bytes
  pub genesis_image : Option Bytes
  pub output : Option Bytes
  pub extract_image : Option Bytes
  pub output_directory : Option Bytes
  pub convert_image : Option Bytes
  pub add_jffs2_eof : Bool
  pub sysupgrade : Bool
  pub rev : ℕ

abbrev pub no_options : Options
no_options = record {
  board = none;
  kernel_image = none;
  rootfs_image = none;
  genesis_image = none;
  output = none;
  extract_image = none;
  output_directory = none;
  convert_image = none;
  add_jffs2_eof = false;
  sysupgrade = false;
  rev = 0;
}

-- One option; none where `main` returns. `sscanf_rev` is what `sscanf(optarg, "r%u", &rev)` leaves in
-- `rev`.
unfoldable pub read_option : (Bytes → ℕ → ℕ) → ℕ → Bytes → Options → Option Options
read_option sscanf_rev c optarg o =
    if c == b'B'
    then some (record o { board = some optarg })
    else if c == b'k'
    then some (record o { kernel_image = some optarg })
    else if c == b'r'
    then some (record o { rootfs_image = some optarg })
    else if c == b'g'
    then some (record o { genesis_image = some optarg })
    else if c == b'o'
    then some (record o { output = some optarg })
    else if c == b'V'
    then some (record o { rev = sscanf_rev optarg o.rev })
    else if c == b'j'
    then some (record o { add_jffs2_eof = true })
    else if c == b'S'
    then some (record o { sysupgrade = true })
    else if c == b'd'
    then some (record o { output_directory = some optarg })
    else if c == b'x'
    then some (record o { extract_image = some optarg })
    else if c == b'z'
    then some (record o { convert_image = some optarg })
    else none

-- What the program has done: the usage and a status, or the files that it wrote, by path and content.
pub data Done : Type 0 where
  usage : ℕ → Done
  wrote : List (Bytes × Bytes) → Done

-- `main` behind the options.
unfoldable pub build : Host → Options → Outcome Done
build host o = do
  board ← need o.board (exits 1)
  kernel_image ← need o.kernel_image (exits 1)
  rootfs_image ← need o.rootfs_image (exits 1)
  genesis_image ← need o.genesis_image (exits 1)
  output ← need o.output (exits 1)
  info ← need (find_board board) (exits 1)
  image ←
      build_image host output kernel_image rootfs_image genesis_image o.rev o.add_jffs2_eof
        o.sysupgrade info
  ok (wrote ((output, image) ∷ []))

unfoldable pub extract : Disk → Options → Outcome Done
extract disk o = do
  extract_image ← need o.extract_image (exits 1)
  output_directory ← need o.output_directory (exits 1)
  files ← extract_firmware disk extract_image output_directory
  ok (wrote files)

unfoldable pub convert : Disk → Options → Bytes → Outcome Done
convert disk o convert_image = do
  output ← need o.output (exits 1)
  image ← convert_firmware disk convert_image output
  ok (wrote ((output, image) ∷ []))

abbrev is_given : Option Bytes → Bool
is_given none = false
is_given (some _) = true

unfoldable pub choose : Host → Disk → Options → Outcome Done
choose host disk o =
    if is_given o.extract_image || is_given o.output_directory
    then extract disk o
    else elim o.convert_image [ some image ↦ convert disk o image | none ↦ build host o ]

-- The loop over the options. The help ends with 0, an unknown option with 1.
unfoldable pub run : (Bytes → ℕ → ℕ) → Host → Disk → List (ℕ × Bytes) → Options → Outcome Done
run sscanf_rev host disk [] o = choose host disk o
run sscanf_rev host disk (opt ∷ opts) o =
    if opt.0 == b'h' then ok (usage 0) else elim (read_option sscanf_rev opt.0 opt.1 o) [
      | none ↦ ok (usage 1)
      | some o' ↦ run sscanf_rev host disk opts o'
    ]

unfoldable pub main :
    (Bytes → Number)
    → (Bytes → ℕ → ℕ)
    → Option Bytes
    → Host
    → Disk
    → List (ℕ × Bytes)
    → Outcome Done
main strtoull sscanf_rev env host disk opts = do
  epoch ← set_source_date_epoch strtoull env
  run sscanf_rev (record host { source_date_epoch = epoch }) disk opts no_options
