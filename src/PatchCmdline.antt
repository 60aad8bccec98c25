-- ===== src/PatchCmdline.antt =====
-- tools/patch-cmdline/patch-cmdline.c: puts a kernel command line behind its marker in an image.
--
-- `atoi` and the mapping of the file are parameters: what the first so many bytes of it are in
-- memory, or none where `open` or `mmap` fails. The answer is what the mapping holds at the end for
-- a status of 0, and none for a status of -1, where it is as it was. An argument is shorter than
-- 2 ^ 31 bytes, so that its length is an `int`.
pub mod Patched
pub mod Bounds
use safewrt.Common.{
  ℕ, zero, suc, ◌+◌, ◌-◌, ◌*◌, ◌/◌, ◌%◌, ◌^◌, Bool, Option, none, some, List, [], ◌∷◌, ◌++◌, Bytes,
  length, take, drop, ltb, leb, if◌then◌else◌,
}
use safewrt.Common.Outcome.{Outcome, ok, faults, ◌>>=◌, ◌>>◌, guard}
use safewrt.Common.Memory.{write, fill}
use safewrt.Common.Text.{codes, same_text}

abbrev default_search_space : ℕ
default_search_space = 16 * 1024

abbrev pub cmdline_max : ℕ
cmdline_max = 512

abbrev pub marker : Bytes
marker = codes "CMDLINE:"

-- `memcmp(p, "CMDLINE:", 8) == 0`
unfoldable pub marker_at : Bytes → ℕ → Bool
marker_at ptr p = same_text (take 8 (drop p ptr)) marker

-- `for (p = ptr; p < (ptr + search_space); p += 4)`, for the rounds that are left: the place behind
-- the marker.
unfoldable pub find_marker : ℕ → Bytes → ℕ → Outcome (Option ℕ)
find_marker zero ptr p = ok none
find_marker (suc rounds) ptr p = do
  guard (leb (p + 8) (length ptr)) faults
  let rest = find_marker rounds ptr (p + 4)
  if marker_at ptr p then ok (some (p + 8)) else rest

-- The command line at `p`, with zeros behind it.
unfoldable pub put_cmdline : Bytes → ℕ → Bytes → Outcome Bytes
put_cmdline ptr p cmdline = do
  cleared ← fill ptr p 0 (cmdline_max - 8)
  write cleared p (cmdline ++ (0 ∷ []))

-- `main` from the length of the command line on.
unfoldable pub patch : (ℕ → Option Bytes) → Bytes → ℕ → Outcome (Option Bytes)
patch mapped cmdline search_space =
    if ltb cmdline_max (length cmdline + 9)
    then ok none
    else elim (mapped ((search_space + cmdline_max) % 2 ^ 32)) [
      | none ↦ ok none
      | some ptr ↦ find_marker ((search_space + 3) / 4) ptr 0 >>= λ found. elim found [
        | none ↦ ok none
        | some p ↦ put_cmdline ptr p cmdline >>= λ whole. ok (some whole)
      ]
    ]

-- `main`, with the arguments behind the program's name.
unfoldable pub main : (Bytes → ℕ) → (Bytes → ℕ → Option Bytes) → List Bytes → Outcome (Option Bytes)
main atoi mapped (file ∷ (cmdline ∷ [])) = patch (mapped file) cmdline default_search_space
main atoi mapped (file ∷ (cmdline ∷ (size ∷ []))) = patch (mapped file) cmdline (atoi size % 2 ^ 32)
main atoi mapped _ = ok none
