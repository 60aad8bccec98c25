-- ===== src/Common/Memory.antt =====
-- Buffers: a block of bytes of fixed length, written through `memcpy` and `memset`.
use Prim.Native.Nat.{ℕ, ◌+◌, ◌≤◌}
use mathlib.Core.Path.{◌≡◌, refl, ap, ◌∙◌, sym, subst}
use mathlib.Core.List.{List, [], ◌∷◌, append-nil, List, [], ◌∷◌, ◌++◌, append_assoc}
use native.Mathlib.Omega.{arith}
use safewrt.Common.Tests.{leb, le→leb, leb→le, if◌then◌else◌}
use safewrt.Common.Lists.{
  Bytes, length, take, drop, replicate, length-append, length-take, length-drop, take-append,
  drop-append, drop-length, drop-drop, take-append-drop, total, joined, take-append-drop, drop-drop,
}
use safewrt.Common.Outcome.{Outcome, ok, stop, faults, ◌>>=◌}

-- `memcpy(buf + off, src, length src)`: a write past the end of the block is undefined.
unfoldable pub write : Bytes → ℕ → Bytes → Outcome Bytes
write buf off src =
    if leb (off + length src) (length buf)
    then ok (take off buf ++ (src ++ drop (off + length src) buf))
    else stop faults

-- `memset(buf + off, byte, count)`
abbrev pub fill : Bytes → ℕ → ℕ → ℕ → Outcome Bytes
fill buf off byte count = write buf off (replicate count byte)

pub write_inside :
    (buf src : Bytes) (off : ℕ)
    → off + length src ≤ length buf
    → write buf off src ≡ ok (take off buf ++ (src ++ drop (off + length src) buf))
unfolding write
write_inside buf src off h = rw (le→leb _ _ h)

-- A write in the middle of a block that is known in three pieces replaces the middle piece.
pub write_middle :
    (pre mid post src : Bytes) (off : ℕ)
    → off ≡ length pre
    → length src ≡ length mid
    → write (pre ++ (mid ++ post)) off src ≡ ok (pre ++ (src ++ post))
write_middle pre mid post src off ho hs =
    write_inside _ src off (omega (arith, length-append pre (mid ++ post), length-append mid post))
    ∙ ap ok (rw (take-append off pre (mid ++ post) ho, tail_kept))
  where
    tail_kept : drop (off + length src) (pre ++ (mid ++ post)) ≡ post
    tail_kept =
        rw (← append_assoc pre mid post)
          (drop-append (off + length src) (pre ++ mid) post (omega (arith, length-append pre mid)))

-- A write right behind what is already known.
pub write_next :
    (pre rest src : Bytes) (off : ℕ)
    → off ≡ length pre
    → length src ≤ length rest
    → write (pre ++ rest) off src ≡ ok ((pre ++ src) ++ drop (length src) rest)
write_next pre rest src off ho hs =
    subst
      (λ (whole : Bytes).
        write (pre ++ whole) off src ≡ ok ((pre ++ src) ++ drop (length src) rest))
      (take-append-drop (length src) rest)
      (write_middle pre (take (length src) rest) (drop (length src) rest) src off ho
          (omega (arith, length-take (length src) rest))
        ∙ ap ok (sym (append_assoc pre src (drop (length src) rest))))

-- Writes of some texts behind one another, from `at` on, and what follows them.
abbrev write_pieces {ℓ} : {B : Type ℓ} → ℕ → List Bytes → Bytes → (Bytes → Outcome B) → Outcome B
write_pieces at [] buf follow = follow buf
write_pieces at (p ∷ ps) buf follow =
    write buf at p >>= λ next. write_pieces (at + length p) ps next follow

pub write_pieces_from {ℓ} :
    {B : Type ℓ} (ps : List Bytes) (pre rest : Bytes) (at : ℕ) (follow : Bytes → Outcome B)
    → at ≡ length pre
    → total ps ≤ length rest
    → write_pieces at ps (pre ++ rest) follow ≡ follow (pre ++ (joined ps ++ drop (total ps) rest))
write_pieces_from [] pre rest at follow ha h = refl
write_pieces_from (p ∷ ps) pre rest at follow ha h =
    rw (write_next pre rest p at ha (omega arith)) (
      write_pieces_from ps (pre ++ p) (drop (length p) rest) (at + length p) follow
        (omega (arith, length-append pre p)) (omega (arith, length-drop (length p) rest))
      ∙ ap follow
          (rw (drop-drop (length p) (total ps) (total (p ∷ ps)) rest refl) (simp append_assoc)))

-- Texts that take the whole block leave nothing of what stood there.
pub write_pieces_whole {ℓ} :
    {B : Type ℓ} (ps : List Bytes) (buf : Bytes) (follow : Bytes → Outcome B)
    → total ps ≡ length buf
    → write_pieces 0 ps buf follow ≡ follow (joined ps)
write_pieces_whole ps buf follow h =
    write_pieces_from ps [] buf 0 follow refl (omega arith)
    ∙ ap follow (rw (drop-length (total ps) buf (omega arith)) (append-nil (joined ps)))

-- Texts at the start of the block leave the rest as it was.
pub write_pieces_front {ℓ} :
    {B : Type ℓ} (ps : List Bytes) (buf : Bytes) (follow : Bytes → Outcome B)
    → total ps ≤ length buf
    → write_pieces 0 ps buf follow ≡ follow (joined ps ++ drop (total ps) buf)
write_pieces_front ps buf follow h = write_pieces_from ps [] buf 0 follow refl h

-- A write keeps the length of the block.
pub length-write :
    (buf src : Bytes) (off : ℕ) {out : Bytes} → write buf off src ≡ ok out → length out ≡ length buf
unfolding write
length-write buf src off {out} h = ground (
  arith,
  leb→le (off + length src) (length buf),
  length-append (take off buf) (src ++ drop (off + length src) buf),
  length-append src (drop (off + length src) buf),
  length-take off buf,
  length-drop (off + length src) buf,
)
