-- ===== src/Dns/Receive/Replies.antt =====
-- `dns_receive` of packages/lifeline/dns.c on the replies of a server: one question, and answers
-- that name it by a pointer.
use safewrt.Common.{
  ℕ, suc, zero, ◌-◌, ◌^◌, ◌≤◌, ◌<◌, ◌≡◌, refl, ap, ◌∙◌, true, false, some, List, [], ◌∷◌, ◌++◌,
  Bytes, length, take, drop, replicate, length-append, All, arith, leb, ◌==◌, if◌then◌else◌, le→leb,
  le→ltb_false,
}
use safewrt.Common.Outcome.{ok, stop, faults}
use safewrt.Dns.{Dns, DnsPacket, DnsRecord}
use safewrt.Dns.Fields.{packet_from, read16, be16}
use safewrt.Dns.Receive.{read_reply, check_reply, dns_receive, skip_queries, skip_query}
use native.Mathlib.Decide.{dec_le}
use mathlib.Core.List.{append_assoc}
use safewrt.Dns.Receive.Records.{
  answer_bytes, answers_bytes, IsRecord, read_answers_fit, read_answers_overflow,
}

read16-be16 : (v : ℕ) (rest : Bytes) → v < 2 ^ 16 → read16 (be16 v ++ rest) ≡ ok (v, rest)
unfolding read16 be16
read16-be16 v rest h = ap (λ k. ok (k, rest)) (omega arith)

-- The body of a reply: the question's name `q`, a zero, its type and class, and the answers.
abbrev pub reply_body : Bytes → List DnsRecord → Bytes
reply_body q rs = q ++ (0 ∷ 0 ∷ 1 ∷ 0 ∷ 1 ∷ answers_bytes rs)

abbrev pub reply_bytes : ℕ → ℕ → Bytes → List DnsRecord → Bytes
reply_bytes id flags q rs =
    be16 id
    ++ (be16 flags ++ (be16 1 ++ (be16 (length rs) ++ (be16 0 ++ (be16 0 ++ reply_body q rs)))))

abbrev pub reply_packet : ℕ → ℕ → Bytes → List DnsRecord → DnsPacket
reply_packet id flags q rs = record {
  id = id;
  flags = flags;
  queries = 1;
  answers = length rs;
  authorities = 0;
  additionals = 0;
  payload = reply_body q rs ++ replicate (512 - length (reply_body q rs)) 0;
}

one_more : (n : ℕ) → suc (n - 0) ≡ suc n - 0
one_more n = omega arith

-- The first `n` bytes of a text that is cut or filled up with zeros.
take-fill :
    (n m : ℕ) (xs : Bytes)
    → length xs ≤ n
    → n ≤ m
    → take n (xs ++ replicate m 0) ≡ xs ++ replicate (n - length xs) 0
take-fill zero m [] h hm = refl
take-fill (suc n) zero [] h hm = absurd (omega arith)
take-fill (suc n) (suc m) [] h hm =
    ap (λ (z : Bytes). 0 ∷ z) (take-fill n m [] (omega arith) (omega arith))
    ∙ ap (λ j. replicate {A = ℕ} j 0) (one_more n)
take-fill zero m (x ∷ xs) h hm = absurd (omega arith)
take-fill (suc n) m (x ∷ xs) h hm =
    ap (λ (z : Bytes). x ∷ z) (take-fill n m xs (omega arith) (omega arith))
    ∙ ap (λ j. x ∷ (xs ++ replicate {A = ℕ} j 0)) (less n (length xs))
  where
    less : (n k : ℕ) → n - k ≡ suc n - suc k
    less n k = omega arith

filled :
    (id flags n : ℕ) (body : Bytes)
    → length body ≤ 512
    → take 524 (
        (be16 id ++ (be16 flags ++ (be16 1 ++ (be16 n ++ (be16 0 ++ (be16 0 ++ body))))))
        ++ replicate 524 0)
      ≡ be16 id
        ++ (be16 flags
            ++ (be16 1
                ++ (be16 n ++ (be16 0 ++ (be16 0 ++ (body ++ replicate (512 - length body) 0))))))
unfolding be16
filled id flags n body h =
    ap (λ (z : Bytes). be16 id ++ (be16 flags ++ (be16 1 ++ (be16 n ++ (be16 0 ++ (be16 0 ++ z))))))
      (take-fill 512 524 body h (omega arith))

packet_from_lem :
    (id flags : ℕ) (q : Bytes) (rs : List DnsRecord)
    → id < 2 ^ 16
    → flags < 2 ^ 16
    → length rs < 2 ^ 16
    → length (reply_body q rs) ≤ 512
    → packet_from (reply_bytes id flags q rs) ≡ ok (reply_packet id flags q rs)
unfolding packet_from
packet_from_lem id flags q rs hi hf hn hl = rw (
  filled id flags (length rs) (reply_body q rs) hl,
  read16-be16 id _ hi,
  read16-be16 flags _ hf,
  read16-be16 1 _ (omega arith),
  read16-be16 (length rs) _ hn,
  read16-be16 0 _ (omega arith),
  read16-be16 0 _ (omega arith),
)

skip_query_lem :
    (q rest : Bytes) → All (λ b. 0 < b) q → skip_query (q ++ (0 ∷ rest)) ≡ ok (drop 4 rest)
unfolding skip_query
skip_query_lem [] rest h = refl
skip_query_lem (b ∷ q) rest h =
    let e : (b == 0) ≡ false = ground arith in rw e (skip_query_lem q rest h.1)

==_refl : (a : ℕ) → (a == a) ≡ true
==_refl a = ground arith

length-answers_bytes : (rs : List DnsRecord) → length rs ≤ length (answers_bytes rs)
length-answers_bytes [] = omega arith
length-answers_bytes (r ∷ rs) =
    omega (arith, length-append (answer_bytes r) (answers_bytes rs), length-answers_bytes rs)

not_empty :
    (id flags : ℕ) (q : Bytes) (rs : List DnsRecord)
    → (length (reply_bytes id flags q rs) == 0) ≡ false
unfolding be16
not_empty id flags q rs = ground arith

-- The payload behind the question.
question_skipped :
    (q zeros : Bytes) (rs : List DnsRecord)
    → All (λ b. 0 < b) q
    → skip_query (reply_body q rs ++ zeros) ≡ ok (answers_bytes rs ++ zeros)
question_skipped q zeros rs h =
    rw (append_assoc q (0 ∷ 0 ∷ 1 ∷ 0 ∷ 1 ∷ answers_bytes rs) zeros)
      (skip_query_lem q (0 ∷ 1 ∷ 0 ∷ 1 ∷ (answers_bytes rs ++ zeros)) h)

-- A reply from the address that was asked, to the query's id, with the question's name (bytes
-- that are not zero), whose answers are all A records of class IN, each named by the pointer 0xc0
-- 0x0c back to the question, and which has no authority or additional section, with one to as
-- many answers as fit 512 bytes: up to eight records are stored in the order of the reply, in
-- front of those that stood in the other places; a ninth record is written past the end of the
-- array.
pub dns_receive_reply :
    (dns : Dns) (flags : ℕ) (q : Bytes) (rs : List DnsRecord)
    → dns.id < 2 ^ 16
    → flags < 2 ^ 16
    → length dns.records ≡ 8
    → All (λ b. 0 < b) q
    → All IsRecord rs
    → 0 < length rs
    → length (reply_body q rs) ≤ 512
    → dns_receive dns
        (some (record { sender = dns.dns_address; bytes = reply_bytes dns.id flags q rs }))
      ≡ (if leb (length rs) 8
          then ok (
            0,
            record dns {
              packet = reply_packet dns.id flags q rs;
              records = rs ++ drop (length rs) dns.records;
            },
          )
          else stop faults)
unfolding dns_receive check_reply read_reply skip_queries
dns_receive_reply dns flags q rs hi hf h8 hq hr hn hl =
    rw
      (
        packet_from_lem dns.id flags q rs hi hf few hl,
        not_empty dns.id flags q rs,
        ==_refl dns.dns_address,
        ==_refl dns.id,
        le→ltb_false (length rs) 1 hn,
        question_skipped q zeros rs hq,
      )
      (elim (dec_le (length rs) 8) [
        | yes fit ↦ rw (
          le→leb (length rs) 8 fit,
          read_answers_fit zeros rs [] dns.records hr (omega arith) (omega arith),
        )
        | no over ↦ rw (
          leb_false (length rs) 8 (omega arith),
          read_answers_overflow zeros rs [] dns.records hr (omega arith) (omega arith),
        )
      ])
  where
    zeros : Bytes
    zeros = replicate (512 - length (reply_body q rs)) 0

    few : length rs < 2 ^ 16
    few =
        omega
          (arith, length-answers_bytes rs, length-append q (0 ∷ 0 ∷ 1 ∷ 0 ∷ 1 ∷ answers_bytes rs))

    leb_false : (a b : ℕ) → b < a → leb a b ≡ false
    leb_false a b h = ground arith
