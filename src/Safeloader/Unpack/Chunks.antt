-- ===== src/Safeloader/Unpack/Chunks.antt =====
-- `write_partition` and `write_ff` of tools/tplink-safeloader/tplink-safeloader.c: the chunks that they
-- write are one write.
use safewrt.Common.{
  ℕ, zero, suc, ◌+◌, ◌-◌, ◌*◌, ◌/◌, ◌^◌, ◌≤◌, ◌≡◌, min, refl, ap, ◌∙◌, sym, true, false, ◌&&◌, [],
  ◌∷◌, ◌++◌, Bytes, length, take, drop, replicate, length-append, length-take, length-drop,
  drop-drop, take-append, replicate-append, arith, ltb, Bool-cases, inl, inr, ltb_false→le,
}
use safewrt.Safeloader.Layout.{FlashPartition}
use safewrt.Safeloader.Extract.{fread_front}
use safewrt.Safeloader.Unpack.{
  OutFile, fwrite, Copying, copy_chunk, copy_chunks, write_partition, write_ff_chunks, write_ff,
}
use mathlib.Core.List.{append_assoc, append-nil}
use mathlib.Core.Path.{ap₂}

-- Two writes behind one another are one.
pub fwrite-fwrite : (f : OutFile) (xs ys : Bytes) → fwrite (fwrite f xs) ys ≡ fwrite f (xs ++ ys)
unfolding fwrite
fwrite-fwrite f [] ys = refl
fwrite-fwrite f (x ∷ xs) [] = ap (fwrite f) (sym (append-nil (x ∷ xs)))
fwrite-fwrite f (x ∷ xs) (y ∷ ys) =
    ap₂ (λ (b a : Bytes). record { before = b; gap = 0; after = a })
      (append_assoc f.before (replicate f.gap 0 ++ (x ∷ xs)) (y ∷ ys)
        ∙ ap (λ (z : Bytes). f.before ++ z) (append_assoc (replicate f.gap 0) (x ∷ xs) (y ∷ ys)))
      (drop-drop (suc (length xs)) (suc (length ys)) (suc (length (xs ++ (y ∷ ys)))) f.after
        (omega (arith, length-append xs (y ∷ ys))))

take-add : (m n k : ℕ) (xs : Bytes) → m + n ≡ k → take m xs ++ take n (drop m xs) ≡ take k xs
take-add zero n k xs h = ap (λ j. take j xs) (omega arith)
take-add (suc m) n zero xs h = absurd (omega arith)
take-add (suc m) zero (suc k) [] h = refl
take-add (suc m) (suc n) (suc k) [] h = refl
take-add (suc m) n (suc k) (x ∷ xs) h = ap (◌∷◌ x) (take-add m n k xs (omega arith))

copy_chunk-fwrite :
    (n : ℕ) (s : Copying)
    → n ≤ length s.input
    → (copy_chunk n s).out ≡ fwrite s.out (take n s.input)
unfolding copy_chunk fread_front
copy_chunk-fwrite n s h = ap (fwrite s.out) (
    take-append n (take n s.input) (drop (length (take n s.input)) s.buf)
      (omega (arith, length-take n s.input)))

copy_chunk-input : (n : ℕ) (s : Copying) → (copy_chunk n s).input ≡ drop n s.input
unfolding copy_chunk
copy_chunk-input n s = refl

-- Whole chunks are one write, and go on behind them in the input.
copy_chunks-fwrite :
    (rounds n : ℕ) (s : Copying)
    → n ≡ 4096 * rounds
    → n ≤ length s.input
    → ((copy_chunks rounds s).out ≡ fwrite s.out (take n s.input))
      × ((copy_chunks rounds s).input ≡ drop n s.input)
unfolding copy_chunks fwrite
copy_chunks-fwrite zero n s hn h =
    (ap (λ k. fwrite s.out (take k s.input)) (sym hn), ap (λ k. drop k s.input) (sym hn))
copy_chunks-fwrite (suc rounds) n s hn h =
    let (out, input) =
      copy_chunks-fwrite rounds (n - 4096) (copy_chunk 4096 s) (omega arith)
        (omega (arith, ap length (copy_chunk-input 4096 s), length-drop 4096 s.input)) in
    (
      out
          ∙ ap₂ (λ (f : OutFile) (i : Bytes). fwrite f (take (n - 4096) i))
              (copy_chunk-fwrite 4096 s (omega arith)) (copy_chunk-input 4096 s)
          ∙ fwrite-fwrite s.out _ _
          ∙ ap (fwrite s.out) (take-add 4096 (n - 4096) n s.input (omega arith)),
      input
          ∙ ap (drop (n - 4096)) (copy_chunk-input 4096 s)
          ∙ drop-drop 4096 (n - 4096) n s.input (omega arith),
    )

-- A partition that lies in the input is written in chunks of 4096 bytes as by one write of its
-- bytes, whatever stood in the buffer and wherever the output stands.
pub write_partition_lem :
    (stack input_file : Bytes) (firmware_offset : ℕ) (entry : FlashPartition)
    (output_file : OutFile)
    → entry.base + firmware_offset + entry.size ≤ length input_file
    → write_partition stack input_file firmware_offset entry output_file
      ≡ fwrite output_file (take entry.size (drop (entry.base + firmware_offset) input_file))
unfolding write_partition
write_partition_lem stack input_file firmware_offset entry output_file h =
    let (out, input) = copy_chunks-fwrite rounds n start refl (omega (arith, enough)) in
    elim (Bool-cases (ltb n entry.size)) [
      | inl more ↦ rw more (
          copy_chunk-fwrite (entry.size - n) (copy_chunks rounds start)
            (omega (arith, ap length input, length-drop n start.input, enough))
          ∙ ap₂ (λ (f : OutFile) (i : Bytes). fwrite f (take (entry.size - n) i)) out input
          ∙ fwrite-fwrite output_file _ _
          ∙ ap (fwrite output_file)
              (take-add n (entry.size - n) entry.size start.input (omega arith)))
      | inr all ↦ rw all (
          out
          ∙ ap (λ k. fwrite output_file (take k start.input))
              (whole (ltb_false→le n entry.size all)))
    ]
  where
    rounds : ℕ
    rounds = entry.size / 4096

    n : ℕ
    n = 4096 * rounds

    start : Copying
    start = record {
      buf = stack;
      input = drop (entry.base + firmware_offset) input_file;
      out = output_file;
    }

    enough : entry.size ≤ length start.input
    enough = omega (arith, length-drop (entry.base + firmware_offset) input_file)

    whole : entry.size ≤ n → n ≡ entry.size
    whole h = omega arith

write_ff_chunks-fwrite :
    (rounds n : ℕ) (out : OutFile)
    → n ≡ 4096 * rounds
    → write_ff_chunks rounds out ≡ fwrite out (replicate n 0xff)
unfolding write_ff_chunks fwrite
write_ff_chunks-fwrite zero n out h = ap (λ k. fwrite out (replicate k 0xff)) (sym h)
write_ff_chunks-fwrite (suc rounds) n out h =
    write_ff_chunks-fwrite rounds (n - 4096) (fwrite out (replicate 4096 0xff)) (omega arith)
    ∙ fwrite-fwrite out (replicate 4096 0xff) (replicate (n - 4096) 0xff)
    ∙ ap (fwrite out) (replicate-append {A = ℕ} 4096 (n - 4096) n 0xff (omega arith))

-- For a size of up to 2 GiB the chunks of 0xff are one write of so many bytes of 0xff.
pub write_ff_lem :
    (out : OutFile) (size : ℕ)
    → size ≤ 2 ^ 31
    → write_ff out size ≡ fwrite out (replicate size 0xff)
unfolding write_ff
write_ff_lem out size h = elim (Bool-cases (ltb n (2 ^ 31) && ltb n size)) [
  | inl more ↦ rw more (
      ap (λ (f : OutFile). fwrite f (replicate (size - n) 0xff)) chunks
      ∙ fwrite-fwrite out (replicate n 0xff) (replicate (size - n) 0xff)
      ∙ ap (fwrite out) (replicate-append {A = ℕ} n (size - n) size 0xff (rest more)))
  | inr all ↦ rw all (chunks ∙ ap (λ k. fwrite out (replicate k 0xff)) (whole all))
]
  where
    rounds : ℕ
    rounds = min ((size - 1) / 4096) (2 ^ 19)

    n : ℕ
    n = 4096 * rounds

    chunks : write_ff_chunks rounds out ≡ fwrite out (replicate n 0xff)
    chunks = write_ff_chunks-fwrite rounds n out refl

    rest : (ltb n (2 ^ 31) && ltb n size) ≡ true → n + (size - n) ≡ size
    rest more = ground arith

    whole : (ltb n (2 ^ 31) && ltb n size) ≡ false → n ≡ size
    whole all = ground arith
