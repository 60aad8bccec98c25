-- ===== src/Dns/Receive/Records.antt =====
-- The loop of `dns_receive` in packages/lifeline/dns.c over the A records of a reply.
use safewrt.Common.{
  ℕ, ◌+◌, ◌^◌, ◌≤◌, ◌<◌, ◌≡◌, refl, ap, sym, false, none, List, [], ◌∷◌, ◌++◌, Bytes, length, drop,
  length-append, All, arith, leb,
}
use safewrt.Common.Outcome.{ok, stop, faults}
use safewrt.Common.Words.{be32}
use safewrt.Dns.{DnsRecord}
use safewrt.Dns.Fields.{read16, read32}
use safewrt.Dns.Receive.{
  Answer, Parsing, skip_name, read_answer, store_record, keep_record, answer_step, read_answers,
}
use mathlib.Core.List.{append_assoc, append-nil}

-- An A record as a server sends it, with a pointer to the name of the question.
abbrev pub answer_bytes : DnsRecord → Bytes
answer_bytes r = 0xc0 ∷ 0x0c ∷ 0 ∷ 1 ∷ 0 ∷ 1 ∷ (be32 r.ttl ++ (0 ∷ 4 ∷ be32 r.address))

abbrev pub answers_bytes : List DnsRecord → Bytes
answers_bytes [] = []
answers_bytes (r ∷ rs) = answer_bytes r ++ answers_bytes rs

abbrev pub IsRecord : DnsRecord → Type 0
IsRecord r = (r.ttl < 2 ^ 32) × (r.address < 2 ^ 32)

read32-be32 : (v : ℕ) (rest : Bytes) → v < 2 ^ 32 → read32 (be32 v ++ rest) ≡ ok (v, rest)
unfolding read32 be32
read32-be32 v rest h = ap (λ k. ok (k, rest)) (omega arith)

store_record_lem :
    (pre room : List DnsRecord) (x r : DnsRecord)
    → store_record (pre ++ (x ∷ room)) (length pre) r ≡ ok (pre ++ (r ∷ room))
unfolding store_record
store_record_lem [] room x r = refl
store_record_lem (p ∷ pre) room x r = rw (store_record_lem pre room x r)

store_record_full :
    (pre : List DnsRecord) (r : DnsRecord) → store_record pre (length pre) r ≡ stop faults
unfolding store_record
store_record_full [] r = refl
store_record_full (p ∷ pre) r = rw (store_record_full pre r)

-- The state of the loop with `pre` stored.
abbrev pub stored : Bytes → List DnsRecord → List DnsRecord → Parsing
stored datap pre room = record {
  datap = datap;
  record_count = length pre;
  records = pre ++ room;
  returned = none;
}

abbrev answer_of : DnsRecord → Bytes → Answer
answer_of r rest = record {
  record_type = 1;
  record_class = 1;
  ttl = r.ttl;
  rdlength = 4;
  rdata = be32 r.address ++ rest;
}

read_answer_lem :
    (r : DnsRecord) (rest : Bytes)
    → IsRecord r
    → read_answer (answer_bytes r ++ rest) ≡ ok (answer_of r rest)
unfolding read_answer skip_name read16
read_answer_lem r rest h = rw (
  append_assoc (be32 r.ttl) (0 ∷ 4 ∷ be32 r.address) rest,
  read32-be32 r.ttl (0 ∷ 4 ∷ (be32 r.address ++ rest)) h.0,
)

behind_address : (r : DnsRecord) (rest : Bytes) → drop 4 (be32 r.address ++ rest) ≡ rest
unfolding be32
behind_address r rest = refl

answer_step_kept :
    (r : DnsRecord) (rest : Bytes) (pre room : List DnsRecord) (x : DnsRecord)
    → IsRecord r
    → length pre < 8
    → answer_step (stored (answer_bytes r ++ rest) pre (x ∷ room))
      ≡ ok (stored rest (pre ++ (r ∷ [])) room)
unfolding answer_step keep_record
answer_step_kept r rest pre room x h hp =
    rw
      (
        read_answer_lem r rest h,
        read32-be32 r.address rest h.1,
        store_record_lem pre room x r,
        behind_address r rest,
        few,
      )
      (ap ok (λ i. record {
        datap = rest;
        record_count = counted i;
        records = regrouped i;
        returned = none;
      }))
  where
    few : leb 16 (length pre + 1) ≡ false
    few = ground arith

    regrouped : pre ++ (r ∷ room) ≡ (pre ++ (r ∷ [])) ++ room
    regrouped = sym (append_assoc pre (r ∷ []) room)

    counted : length pre + 1 ≡ length (pre ++ (r ∷ []))
    counted = omega (arith, length-append pre (r ∷ []))

answer_step_overflow :
    (r : DnsRecord) (rest : Bytes) (pre : List DnsRecord)
    → IsRecord r
    → answer_step (stored (answer_bytes r ++ rest) pre []) ≡ stop faults
unfolding answer_step keep_record
answer_step_overflow r rest pre h = rw (
  read_answer_lem r rest h,
  read32-be32 r.address rest h.1,
  append-nil pre,
  store_record_full pre r,
)

module _ (tail : Bytes) where
  -- What the loop makes of the answers that hold `rs`, with `room` places left behind `pre`.
  pub read_answers_fit :
      (rs pre room : List DnsRecord)
      → All IsRecord rs
      → length pre + length rs ≤ 8
      → length rs ≤ length room
      → read_answers (length rs) (stored (answers_bytes rs ++ tail) pre room)
        ≡ ok (stored tail (pre ++ rs) (drop (length rs) room))
  unfolding read_answers
  read_answers_fit [] pre room h h8 hr = rw append-nil
  read_answers_fit (r ∷ rs) pre [] h h8 hr = absurd (omega arith)
  read_answers_fit (r ∷ rs) pre (x ∷ room) h h8 hr = rw (
    append_assoc (answer_bytes r) (answers_bytes rs) tail,
    answer_step_kept r (answers_bytes rs ++ tail) pre room x h.0 (omega arith),
    read_answers_fit rs (pre ++ (r ∷ [])) room h.1 (omega (arith, length-append pre (r ∷ [])))
        (omega arith),
    append_assoc pre (r ∷ []) rs,
  )

  pub read_answers_overflow :
      (rs pre room : List DnsRecord)
      → All IsRecord rs
      → length pre + length room ≤ 8
      → length room < length rs
      → read_answers (length rs) (stored (answers_bytes rs ++ tail) pre room) ≡ stop faults
  unfolding read_answers
  read_answers_overflow [] pre room h h8 hr = absurd (omega arith)
  read_answers_overflow (r ∷ rs) pre [] h h8 hr = rw (
    append_assoc (answer_bytes r) (answers_bytes rs) tail,
    answer_step_overflow r (answers_bytes rs ++ tail) pre h.0,
  )
  read_answers_overflow (r ∷ rs) pre (x ∷ room) h h8 hr = rw (
    append_assoc (answer_bytes r) (answers_bytes rs) tail,
    answer_step_kept r (answers_bytes rs ++ tail) pre room x h.0 (omega arith),
    read_answers_overflow rs (pre ++ (r ∷ [])) room h.1 (omega (arith, length-append pre (r ∷ [])))
        (omega arith),
  )
