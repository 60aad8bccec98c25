-- ===== src/Safeloader/CommandLine/Letters.antt =====
-- What the letters on the command line of tools/tplink-safeloader/tplink-safeloader.c are for: the loop
-- over the options in `main`.
use safewrt.Common.{
  ℕ, ◌≡◌, refl, Bool, true, false, ◌||◌, Option, none, some, List, [], ◌∷◌, Bytes, arith, ◌==◌,
  if◌then◌else◌, Bool-cases, inl, inr,
}
use safewrt.Common.Outcome.{Outcome, ok}
use safewrt.Common.Text.{codes}
use safewrt.Safeloader.Build.{Host}
use safewrt.Safeloader.Unpack.{Disk}
use safewrt.Safeloader.CommandLine.{Options, no_options, read_option, Done, usage, choose, run}

is_among : ℕ → Bytes → Bool
is_among c [] = false
is_among c (d ∷ ds) = c == d || is_among c ds

-- A letter that the program knows, but for that of the help.
unfoldable pub is_letter : ℕ → Bool
unfolding is_among
is_letter c = is_among c (codes "BkrgoVjSdxz")

-- The argument of the last option of a letter, `before` where there is none.
unfoldable pub last_argument : ℕ → Option Bytes → List (ℕ × Bytes) → Option Bytes
last_argument c before [] = before
last_argument c before (opt ∷ opts) =
    last_argument c (if opt.0 == c then some opt.1 else before) opts

abbrev pub given : ℕ → List (ℕ × Bytes) → Option Bytes
given c opts = last_argument c none opts

-- Whether there is an option of a letter.
unfoldable pub is_there : ℕ → Bool → List (ℕ × Bytes) → Bool
is_there c before [] = before
is_there c before (opt ∷ opts) = is_there c (if opt.0 == c then true else before) opts

abbrev pub is_flag : ℕ → List (ℕ × Bytes) → Bool
is_flag c opts = is_there c false opts

-- The revision behind all options `-V`.
unfoldable pub revision : (Bytes → ℕ → ℕ) → ℕ → List (ℕ × Bytes) → ℕ
revision sscanf_rev rev [] = rev
revision sscanf_rev rev (opt ∷ opts) =
    revision sscanf_rev (if opt.0 == b'V' then sscanf_rev opt.1 rev else rev) opts

-- The status behind the usage, where an option asks for it or is not known.
unfoldable pub usage_status : List (ℕ × Bytes) → Option ℕ
usage_status [] = none
usage_status (opt ∷ opts) =
    let rest = usage_status opts in
    if opt.0 == b'h' then some 0 else if is_letter opt.0 then rest else some 1

-- The options behind those in `o`, each by its letter.
abbrev behind : (Bytes → ℕ → ℕ) → List (ℕ × Bytes) → Options → Options
behind sscanf_rev opts o = record {
  board = last_argument b'B' o.board opts;
  kernel_image = last_argument b'k' o.kernel_image opts;
  rootfs_image = last_argument b'r' o.rootfs_image opts;
  genesis_image = last_argument b'g' o.genesis_image opts;
  output = last_argument b'o' o.output opts;
  extract_image = last_argument b'x' o.extract_image opts;
  output_directory = last_argument b'd' o.output_directory opts;
  convert_image = last_argument b'z' o.convert_image opts;
  add_jffs2_eof = is_there b'j' o.add_jffs2_eof opts;
  sysupgrade = is_there b'S' o.sysupgrade opts;
  rev = revision sscanf_rev o.rev opts;
}

abbrev pub by_letters : (Bytes → ℕ → ℕ) → List (ℕ × Bytes) → Options
by_letters sscanf_rev opts = record {
  board = given b'B' opts;
  kernel_image = given b'k' opts;
  rootfs_image = given b'r' opts;
  genesis_image = given b'g' opts;
  output = given b'o' opts;
  extract_image = given b'x' opts;
  output_directory = given b'd' opts;
  convert_image = given b'z' opts;
  add_jffs2_eof = is_flag b'j' opts;
  sysupgrade = is_flag b'S' opts;
  rev = revision sscanf_rev 0 opts;
}

-- One option stores into the place of its letter.
read_option-behind :
    (sscanf_rev : Bytes → ℕ → ℕ) (c : ℕ) (optarg : Bytes) (o : Options)
    → read_option sscanf_rev c optarg o
      ≡ (if is_letter c then some (behind sscanf_rev ((c, optarg) ∷ []) o) else none)
unfolding read_option is_letter is_among last_argument is_there revision
read_option-behind sscanf_rev c optarg o = ground arith

module _ (sscanf_rev : Bytes → ℕ → ℕ) (host : Host) (disk : Disk) where
  run-behind :
      (opts : List (ℕ × Bytes)) (o : Options)
      → run sscanf_rev host disk opts o ≡ elim (usage_status opts) as (λ z. Outcome Done) [
        | some status ↦ ok (usage status)
        | none ↦ choose host disk (behind sscanf_rev opts o)
      ]
  unfolding run usage_status last_argument is_there revision
  run-behind [] o = refl
  run-behind (opt ∷ opts) o = elim (Bool-cases (opt.0 == b'h')) [
    | inl help ↦ rw help refl
    | inr other ↦ elim (Bool-cases (is_letter opt.0)) [
      | inl known ↦
          rw (other, read_option-behind sscanf_rev opt.0 opt.1 o, known)
            (run-behind opts (behind sscanf_rev (opt ∷ []) o))
      | inr unknown ↦ rw (other, read_option-behind sscanf_rev opt.0 opt.1 o, unknown) refl
    ]
  ]

  pub run_lem :
      (opts : List (ℕ × Bytes))
      → run sscanf_rev host disk opts no_options ≡ elim (usage_status opts) as (λ z. Outcome Done) [
        | some status ↦ ok (usage status)
        | none ↦ choose host disk (by_letters sscanf_rev opts)
      ]
  run_lem opts = run-behind opts no_options
