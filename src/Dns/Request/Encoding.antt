-- ===== src/Dns/Request/Encoding.antt =====
-- What `dns_request` of packages/lifeline/dns.c writes for a name.
use safewrt.Common.{
  ℕ, zero, suc, ◌+◌, ◌-◌, ◌%◌, ◌^◌, ◌≤◌, ◌≡◌, refl, ap, ◌∙◌, sym, false, some, List, [], ◌∷◌, ◌++◌,
  Bytes, length, get_elem?, replicate, length-append, length-replicate, drop-replicate, ◌==◌,
  if◌then◌else◌, Bool-cases, inl, inr, ==_iff, arith, ◌≢◌,
}
use safewrt.Common.Outcome.{Outcome, ok, ◌>>=◌}
use safewrt.Common.Memory.{write, write_middle, write_pieces_from}
use safewrt.Dns.Request.{Cursor, count_up, encode_step, encode_labels, encode_question}
use mathlib.Core.List.{append_assoc, append-nil}
use mathlib.Core.Path.{ap₂}

-- The labels of a name: what stands between its dots.
abbrev pub put_front : ℕ → List Bytes → List Bytes
put_front c [] = (c ∷ []) ∷ []
put_front c (l ∷ ls) = (c ∷ l) ∷ ls

unfoldable pub labels : Bytes → List Bytes
labels [] = [] ∷ []
labels (c ∷ cs) = if c == b'.' then [] ∷ labels cs else put_front c (labels cs)

-- Each label behind a byte for its length, which is stored mod 256.
unfoldable pub wire : List Bytes → Bytes
wire [] = []
wire (l ∷ ls) = (length l % 256) ∷ (l ++ wire ls)

-- The encoding as the loop makes it, with the start `cur` of a label behind it.
wire_from : Bytes → Bytes → Bytes
wire_from cur [] = (length cur % 256) ∷ cur
wire_from cur (c ∷ cs) =
    if c == b'.'
    then (length cur % 256) ∷ (cur ++ wire_from [] cs)
    else wire_from (cur ++ (c ∷ [])) cs

abbrev before_first : Bytes → List Bytes → List Bytes
before_first cur [] = cur ∷ []
before_first cur (l ∷ ls) = (cur ++ l) ∷ ls

before_first-put_front :
    (cur : Bytes) (c : ℕ) (ls : List Bytes)
    → before_first (cur ++ (c ∷ [])) ls ≡ before_first cur (put_front c ls)
before_first-put_front cur c [] = refl
before_first-put_front cur c (l ∷ ls) = ap (λ k. k ∷ ls) (append_assoc cur (c ∷ []) l)

before_first_nil : (ls : List Bytes) → ls ≢ [] → before_first [] ls ≡ ls
before_first_nil [] h = absurd (h refl)
before_first_nil (l ∷ ls) h = refl

pub labels-ne-nil : (cs : Bytes) → labels cs ≢ []
unfolding labels
labels-ne-nil [] = λ e. cc
labels-ne-nil (c ∷ cs) = elim (Bool-cases (c == b'.')) [
  | inl dot ↦ rw dot (λ e. cc)
  | inr other ↦ rw other (put_front-ne-nil c (labels cs))
]
  where
    put_front-ne-nil : (c : ℕ) (ls : List Bytes) → put_front c ls ≢ []
    put_front-ne-nil c [] = λ e. cc
    put_front-ne-nil c (l ∷ ls) = λ e. cc

wire_from-wire : (cs cur : Bytes) → wire_from cur cs ≡ wire (before_first cur (labels cs))
unfolding wire_from labels wire
wire_from-wire [] cur = simp append-nil
wire_from-wire (c ∷ cs) cur = elim (Bool-cases (c == b'.')) [
  | inl dot ↦
      rw (dot, wire_from-wire cs [], before_first_nil (labels cs) (labels-ne-nil cs))
        (simp append-nil)
  | inr other ↦
      rw (other, wire_from-wire cs (cur ++ (c ∷ [])), before_first-put_front cur c (labels cs))
]

length-wire_from : (cs cur : Bytes) → length (wire_from cur cs) ≡ 1 + length cur + length cs
unfolding wire_from
length-wire_from [] cur = omega arith
length-wire_from (c ∷ cs) cur = elim (Bool-cases (c == b'.')) [
  | inl dot ↦ rw dot (omega (arith, length-append cur (wire_from [] cs), length-wire_from cs []))
  | inr other ↦
      rw other (omega (arith, length-wire_from cs (cur ++ (c ∷ [])), length-append cur (c ∷ [])))
]

-- The loop stands behind `pre`, the length byte and `cur`; zeros follow.
abbrev standing : Bytes → Bytes → ℕ → Cursor
standing pre cur k = record {
  payload = pre ++ ((length cur % 256) ∷ (cur ++ replicate k 0));
  label_length = length pre;
  datap = length pre + 1 + length cur;
}

get_elem?-middle :
    (pre : Bytes) (x : ℕ) (post : Bytes) → get_elem? (pre ++ (x ∷ post)) (length pre) ≡ some x
get_elem?-middle [] x post = refl
get_elem?-middle (p ∷ pre) x post = get_elem?-middle pre x post

count_up_lem :
    (pre post : Bytes) (x : ℕ)
    → count_up (pre ++ (x ∷ post)) (length pre) ≡ ok (pre ++ (((x + 1) % 2 ^ 8) ∷ post))
unfolding count_up
count_up_lem pre post x =
    rw (get_elem?-middle pre x post)
      (write_middle pre (x ∷ []) post (((x + 1) % 2 ^ 8) ∷ []) (length pre) refl refl)

cursor_path :
    {p p' : Bytes} {l l' d d' : ℕ}
    → p ≡ p'
    → l ≡ l'
    → d ≡ d'
    → ◌≡◌ {A = Cursor}
        (record { payload = p; label_length = l; datap = d })
        (record { payload = p'; label_length = l'; datap = d' })
cursor_path hp hl hd = λ i. record { payload = hp i; label_length = hl i; datap = hd i }

encode_step_dot :
    (pre cur : Bytes) (k : ℕ)
    → encode_step (standing pre cur (suc k)) b'.'
      ≡ ok (standing (pre ++ ((length cur % 256) ∷ cur)) [] k)
unfolding encode_step
encode_step_dot pre cur k = ap ok (
    cursor_path (simp append_assoc) (omega (arith, length-append pre ((length cur % 256) ∷ cur)))
      (omega (arith, length-append pre ((length cur % 256) ∷ cur))))

encode_step_other :
    (pre cur : Bytes) (c k : ℕ)
    → (c == b'.') ≡ false
    → encode_step (standing pre cur (suc k)) c ≡ ok (standing pre (cur ++ (c ∷ [])) k)
unfolding encode_step
encode_step_other pre cur c k h =
    rw (h, count_up_lem pre (cur ++ replicate (suc k) 0) (length cur % 256), stored)
      (ap ok (
        cursor_path (rw counted (simp append_assoc)) refl
          (omega (arith, length-append cur (c ∷ [])))))
  where
    count : ℕ
    count = (length cur % 256 + 1) % 2 ^ 8

    counted : length (cur ++ (c ∷ [])) % 256 ≡ (length cur % 256 + 1) % 2 ^ 8
    counted = omega (arith, length-append cur (c ∷ []))

    stored :
        write (pre ++ (count ∷ (cur ++ replicate (suc k) 0))) (length pre + 1 + length cur) (c ∷ [])
        ≡ ok ((pre ++ (count ∷ cur)) ++ ((c ∷ []) ++ replicate k 0))
    stored = rw (← append_assoc pre (count ∷ cur) (replicate (suc k) 0)) (
        write_middle (pre ++ (count ∷ cur)) (0 ∷ []) (replicate k 0) (c ∷ [])
          (length pre + 1 + length cur) (omega (arith, length-append pre (count ∷ cur))) refl)

-- The loop over a name that fits writes its encoding and leaves the zeros behind it.
encode_labels_lem :
    (name pre cur : Bytes) (k : ℕ)
    → length name ≤ k
    → (ll : ℕ) × (encode_labels name (standing pre cur k)
        ≡ ok (record {
          payload = pre ++ (wire_from cur name ++ replicate (k - length name) 0);
          label_length = ll;
          datap = length pre + length (wire_from cur name);
        }))
unfolding encode_labels wire_from
encode_labels_lem [] pre cur k h = (
  length pre,
  ap ok (
      cursor_path (ap (λ j. pre ++ (((length cur % 256) ∷ cur) ++ replicate j 0)) (omega arith))
        refl (omega arith)),
)
encode_labels_lem (c ∷ cs) pre cur zero h = absurd (omega arith)
encode_labels_lem (c ∷ cs) pre cur (suc k) h = elim (Bool-cases (c == b'.')) [
  | inl dot ↦
      let (ll, rest) =
        encode_labels_lem cs (pre ++ ((length cur % 256) ∷ cur)) [] k (omega arith) in
      (
        ll,
        rw ((==_iff c b'.').0 dot, encode_step_dot pre cur k)
            (rest
              ∙ ap ok (
                  cursor_path (rw (one_less k (length cs)) (simp append_assoc)) refl (
                    omega (
                      arith,
                      length-append pre ((length cur % 256) ∷ cur),
                      length-append cur (wire_from [] cs),
                    )))),
      )
  | inr other ↦
      let (ll, rest) = encode_labels_lem cs pre (cur ++ (c ∷ [])) k (omega arith) in
      (
        ll,
        rw (other, encode_step_other pre cur c k other)
            (rest ∙ ap ok (cursor_path (rw (one_less k (length cs))) refl refl)),
      )
]
  where
    one_less : (k n : ℕ) → suc k - suc n ≡ k - n
    one_less k n = omega arith

-- What stands behind the labels: the end of the name, type A and class inet.
abbrev pub question_end : Bytes
question_end = 0 ∷ 0 ∷ 1 ∷ 0 ∷ 1 ∷ []

abbrev write_end : Bytes → ℕ → Outcome (Bytes × ℕ)
write_end payload d = do
  ended ← write payload d (0 ∷ [])
  type ← write ended (d + 1) (0 ∷ 1 ∷ [])
  class ← write type (d + 3) (0 ∷ 1 ∷ [])
  ok (class, d + 5)

question_tail :
    (body : Bytes) (k d m : ℕ)
    → d ≡ length body
    → 5 + m ≡ k
    → write_end (body ++ replicate k 0) d ≡ ok (body ++ (question_end ++ replicate m 0), d + 5)
question_tail body k d m hd hk = rw three (
    write_pieces_from ((0 ∷ []) ∷ (0 ∷ 1 ∷ []) ∷ (0 ∷ 1 ∷ []) ∷ []) body (replicate k 0) d follow hd
      (omega (arith, length-replicate {A = ℕ} k 0))
    ∙ ap (λ (z : Bytes). ok (body ++ (question_end ++ z), d + 5))
        (drop-replicate {A = ℕ} 5 k m 0 (omega arith)))
  where
    follow : Bytes → Outcome (Bytes × ℕ)
    follow b = ok (b, d + 5)

    three : d + 3 ≡ d + 1 + 2
    three = omega arith

-- A name of up to 492 bytes is encoded with no write past the payload: its labels, each behind its
-- length, the five bytes of the end, and zeros up to the 512 bytes of the payload.
pub encode_question_lem :
    (name : Bytes)
    → length name ≤ 492
    → encode_question name
      ≡ ok
          (wire (labels name) ++ (question_end ++ replicate (506 - length name) 0), length name + 6)
unfolding encode_question
encode_question_lem name h =
    let (ll, run) = encode_labels_lem name [] [] 511 (omega arith) in
    rw run (
      question_tail (wire_from [] name) (511 - length name) (0 + length (wire_from [] name))
        (506 - length name) (omega arith) (omega arith)
      ∙ ap₂ (λ (b : Bytes) (d : ℕ). ok (b ++ (question_end ++ replicate (506 - length name) 0), d))
          (wire_from-wire name [] ∙ ap wire (before_first_nil (labels name) (labels-ne-nil name)))
          (omega (arith, length-wire_from name [])))

pub length-wire : (name : Bytes) → length (wire (labels name)) ≡ length name + 1
length-wire name =
    ap length
      (sym (wire_from-wire name [] ∙ ap wire (before_first_nil (labels name) (labels-ne-nil name))))
    ∙ (length-wire_from name [] ∙ omega arith)
