-- ===== src/Safeloader/CommandLine/Wrote.antt =====
-- What it takes that `main` of tools/tplink-safeloader/tplink-safeloader.c writes files.
use safewrt.Common.{
  ℕ, ◌≡◌, refl, ap, ◌∙◌, sym, false, ◌||◌, ◌⊎◌, Option, none, some, List, [], ◌∷◌, Bytes,
  Bool-cases, Option-cases, inl, inr,
}
use safewrt.Common.Outcome.{Outcome, Stop, ok, exits, need, >>=-eq-ok}
use safewrt.Safeloader.Layout.{DeviceInfo}
use safewrt.Safeloader.Build.{Host, build_image, find_board}
use safewrt.Safeloader.Unpack.{Disk, extract_firmware, convert_firmware}
use safewrt.Safeloader.CommandLine.{
  Options, no_options, Done, usage, wrote, build, extract, convert, choose, is_given, run, Number,
  set_source_date_epoch, main,
}
use safewrt.Safeloader.CommandLine.Letters.{
  given, is_flag, revision, usage_status, by_letters, run_lem,
}

-- An image was built of the files that all options give, for a board of the table.
abbrev Built : Host → Options → List (Bytes × Bytes) → Type 0
Built host o files =
    (board : Bytes) × (kernel : Bytes) × (rootfs : Bytes) × (genesis : Bytes) × (output : Bytes)
    × (info : DeviceInfo) × (image : Bytes) × (o.board ≡ some board)
    × (o.kernel_image ≡ some kernel)
    × (o.rootfs_image ≡ some rootfs)
    × (o.genesis_image ≡ some genesis)
    × (o.output ≡ some output)
    × (find_board board ≡ some info)
    × (build_image host output kernel rootfs genesis o.rev o.add_jffs2_eof o.sysupgrade info
        ≡ ok image)
    × (files ≡ (output, image) ∷ [])

abbrev Extracted : Disk → Options → List (Bytes × Bytes) → Type 0
Extracted disk o files =
    (input : Bytes) × (directory : Bytes) × (o.extract_image ≡ some input)
    × (o.output_directory ≡ some directory)
    × (extract_firmware disk input directory ≡ ok files)

abbrev Converted : Disk → Options → List (Bytes × Bytes) → Type 0
Converted disk o files =
    (input : Bytes) × (output : Bytes) × (image : Bytes) × (o.convert_image ≡ some input)
    × (o.output ≡ some output)
    × (convert_firmware disk input output ≡ ok image)
    × (files ≡ (output, image) ∷ [])

needed :
    {A : Type 0} (o : Option A) (why : Stop) (value : A) → need o why ≡ ok value → o ≡ some value
needed none why value h = cc
needed (some x) why value h = cc

files_same :
    {files more : List (Bytes × Bytes)}
    → ◌≡◌ {A = Outcome Done} (ok (wrote files)) (ok (wrote more))
    → more ≡ files
files_same h = cc

build-Built :
    (host : Host) (o : Options) (files : List (Bytes × Bytes))
    → build host o ≡ ok (wrote files)
    → Built host o files
unfolding build
build-Built host o files h =
    let (board, h1, t1) = >>=-eq-ok (need o.board (exits 1)) _ h in
    let (kernel, h2, t2) = >>=-eq-ok (need o.kernel_image (exits 1)) _ t1 in
    let (rootfs, h3, t3) = >>=-eq-ok (need o.rootfs_image (exits 1)) _ t2 in
    let (genesis, h4, t4) = >>=-eq-ok (need o.genesis_image (exits 1)) _ t3 in
    let (output, h5, t5) = >>=-eq-ok (need o.output (exits 1)) _ t4 in
    let (info, h6, t6) = >>=-eq-ok (need (find_board board) (exits 1)) _ t5 in
    let (image, h7, t7) =
      >>=-eq-ok
        (build_image host output kernel rootfs genesis o.rev o.add_jffs2_eof o.sysupgrade info) _
        t6 in
    (
      board,
      kernel,
      rootfs,
      genesis,
      output,
      info,
      image,
      needed o.board (exits 1) board h1,
      needed o.kernel_image (exits 1) kernel h2,
      needed o.rootfs_image (exits 1) rootfs h3,
      needed o.genesis_image (exits 1) genesis h4,
      needed o.output (exits 1) output h5,
      needed (find_board board) (exits 1) info h6,
      h7,
      files_same t7,
    )

extract-Extracted :
    (disk : Disk) (o : Options) (files : List (Bytes × Bytes))
    → extract disk o ≡ ok (wrote files)
    → Extracted disk o files
unfolding extract
extract-Extracted disk o files h =
    let (input, h1, t1) = >>=-eq-ok (need o.extract_image (exits 1)) _ h in
    let (directory, h2, t2) = >>=-eq-ok (need o.output_directory (exits 1)) _ t1 in
    let (made, h3, t3) = >>=-eq-ok (extract_firmware disk input directory) _ t2 in
    (
      input,
      directory,
      needed o.extract_image (exits 1) input h1,
      needed o.output_directory (exits 1) directory h2,
      h3 ∙ ap ok (sym (files_same t3)),
    )

convert-Converted :
    (disk : Disk) (o : Options) (input : Bytes) (files : List (Bytes × Bytes))
    → o.convert_image ≡ some input
    → convert disk o input ≡ ok (wrote files)
    → Converted disk o files
unfolding convert
convert-Converted disk o input files hc h =
    let (output, h1, t1) = >>=-eq-ok (need o.output (exits 1)) _ h in
    let (image, h2, t2) = >>=-eq-ok (convert_firmware disk input output) _ t1 in
    (input, output, image, hc, needed o.output (exits 1) output h1, h2, files_same t2)

neither : (a b : Option Bytes) → (is_given a || is_given b) ≡ false → (a ≡ none) × (b ≡ none)
neither none none h = (refl, refl)
neither none (some y) h = cc
neither (some x) b h = cc

choose-wrote :
    (host : Host) (disk : Disk) (o : Options) (files : List (Bytes × Bytes))
    → choose host disk o ≡ ok (wrote files)
    → Extracted disk o files
      ⊎ ((o.extract_image ≡ none)
          × (o.output_directory ≡ none)
          × (Converted disk o files ⊎ ((o.convert_image ≡ none) × Built host o files)))
unfolding choose
choose-wrote host disk o files h =
    elim (Bool-cases (is_given o.extract_image || is_given o.output_directory)) [
      | inl given ↦ inl (extract-Extracted disk o files (rw given at h))
      | inr absent ↦ elim (Option-cases o.convert_image) [
        | inl e ↦ inr (
          (neither o.extract_image o.output_directory absent).0,
          (neither o.extract_image o.output_directory absent).1,
          inr (e, build-Built host o files (rw (absent, e) at h)),
        )
        | inr (input, e) ↦ inr (
          (neither o.extract_image o.output_directory absent).0,
          (neither o.extract_image o.output_directory absent).1,
          inl (convert-Converted disk o input files e (rw (absent, e) at h)),
        )
      ]
    ]

-- The same by the letters of the options.
abbrev pub BuiltOf : Host → (Bytes → ℕ → ℕ) → List (ℕ × Bytes) → List (Bytes × Bytes) → Type 0
BuiltOf host sscanf_rev opts files =
    (board : Bytes) × (kernel : Bytes) × (rootfs : Bytes) × (genesis : Bytes) × (output : Bytes)
    × (info : DeviceInfo) × (image : Bytes) × (given b'B' opts ≡ some board)
    × (given b'k' opts ≡ some kernel)
    × (given b'r' opts ≡ some rootfs)
    × (given b'g' opts ≡ some genesis)
    × (given b'o' opts ≡ some output)
    × (find_board board ≡ some info)
    × (build_image host output kernel rootfs genesis (revision sscanf_rev 0 opts)
          (is_flag b'j' opts) (is_flag b'S' opts) info
        ≡ ok image)
    × (files ≡ (output, image) ∷ [])

abbrev pub ExtractedOf : Disk → List (ℕ × Bytes) → List (Bytes × Bytes) → Type 0
ExtractedOf disk opts files =
    (input : Bytes) × (directory : Bytes) × (given b'x' opts ≡ some input)
    × (given b'd' opts ≡ some directory)
    × (extract_firmware disk input directory ≡ ok files)

abbrev pub ConvertedOf : Disk → List (ℕ × Bytes) → List (Bytes × Bytes) → Type 0
ConvertedOf disk opts files =
    (input : Bytes) × (output : Bytes) × (image : Bytes) × (given b'z' opts ≡ some input)
    × (given b'o' opts ≡ some output)
    × (convert_firmware disk input output ≡ ok image)
    × (files ≡ (output, image) ∷ [])

run-wrote :
    (sscanf_rev : Bytes → ℕ → ℕ) (host : Host) (disk : Disk) (opts : List (ℕ × Bytes))
    (files : List (Bytes × Bytes))
    → run sscanf_rev host disk opts no_options ≡ ok (wrote files)
    → (usage_status opts ≡ none)
      × (ExtractedOf disk opts files
          ⊎ ((given b'x' opts ≡ none)
              × (given b'd' opts ≡ none)
              × (ConvertedOf disk opts files
                  ⊎ ((given b'z' opts ≡ none) × BuiltOf host sscanf_rev opts files))))
run-wrote sscanf_rev host disk opts files h = elim (Option-cases (usage_status opts)) [
  | inr (status, e) ↦ absurd (shown status (rw (run_lem sscanf_rev host disk opts, e) at h))
  | inl e ↦ (
    e,
    choose-wrote host disk (by_letters sscanf_rev opts) files
        (rw (run_lem sscanf_rev host disk opts, e) at h),
  )
]
  where
    shown : (status : ℕ) → ◌≡◌ {A = Outcome Done} (ok (usage status)) (ok (wrote files)) → ⊥
    shown status h = cc

-- If `main` writes files, SOURCE_DATE_EPOCH is not set or could be read, and all options are
-- known ones, none of them -h. Then both -x and -d were given, and the files are those of
-- `extract_firmware`; or neither, and with -z and -o the file is that of `convert_firmware`; or
-- none of -x, -d and -z, all of -B, -k, -r, -g and -o were given, the board is in the table, and
-- the file is the image of `build_image`, for an upgrade where there is -S. An option given
-- several times counts by its last argument.
pub main-wrote :
    (strtoull : Bytes → Number) (sscanf_rev : Bytes → ℕ → ℕ) (env : Option Bytes) (host : Host)
    (disk : Disk) (opts : List (ℕ × Bytes)) (files : List (Bytes × Bytes))
    → main strtoull sscanf_rev env host disk opts ≡ ok (wrote files)
    → (epoch : Option ℕ) × (set_source_date_epoch strtoull env ≡ ok epoch)
      × (usage_status opts ≡ none)
      × (ExtractedOf disk opts files
          ⊎ ((given b'x' opts ≡ none)
              × (given b'd' opts ≡ none)
              × (ConvertedOf disk opts files
                  ⊎ ((given b'z' opts ≡ none)
                      × BuiltOf
                          (record host { source_date_epoch = epoch })
                          sscanf_rev
                          opts
                          files))))
unfolding main
main-wrote strtoull sscanf_rev env host disk opts files h =
    let (epoch, set, rest) = >>=-eq-ok (set_source_date_epoch strtoull env) _ h in
    let (known, made) =
      run-wrote sscanf_rev (record host { source_date_epoch = epoch }) disk opts files rest in
    (epoch, set, known, made)
