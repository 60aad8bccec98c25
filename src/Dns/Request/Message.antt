-- ===== src/Dns/Request/Message.antt =====
-- The datagram that `dns_request` of packages/lifeline/dns.c sends, and how a server reads its name.
use safewrt.Common.{
  ℕ, zero, suc, ◌+◌, ◌-◌, ◌%◌, ◌≤◌, ◌<◌, ◌≡◌, refl, ap, ◌∙◌, sym, false, Option, none, some, List,
  [], ◌∷◌, ◌++◌, Bytes, length, replicate, take, drop, length-append, take-append, drop-append, ltb,
  leb, le→ltb_false, ltb_false→le, ◌==◌, if◌then◌else◌, Bool-cases, inl, inr, arith, All, ==_iff,
}
use safewrt.Common.Outcome.{ok}
use safewrt.Dns.{Dns, DnsPacket, dns_error_name_too_long, dns_error_sendto_failed}
use safewrt.Dns.Fields.{no_packet, packet_bytes, be16}
use safewrt.Dns.Request.{dns_request, encode_question, falls_short}
use safewrt.Dns.Request.Encoding.{
  labels, wire, question_end, encode_question_lem, length-wire, put_front, labels-ne-nil,
}
use mathlib.Core.Path.{ap₂}
use mathlib.Core.Logic.{◌≢◌}
use mathlib.Core.List.{append_assoc}

-- The query for a name: the id 0x1337, recursion asked for, one question and nothing else.
abbrev pub query_message : Bytes → Bytes
query_message name =
    (0x13 ∷ 0x37 ∷ 0x01 ∷ 0x00 ∷ 0 ∷ 1 ∷ 0 ∷ 0 ∷ 0 ∷ 0 ∷ 0 ∷ 0 ∷ [])
    ++ (wire (labels name) ++ question_end)

abbrev header : DnsPacket
header = record no_packet { id = 0x1337; flags = 0x100; queries = 1 }

-- The packet that is left in the structure behind the call.
abbrev pub query_packet : Bytes → DnsPacket
query_packet name = record header {
  payload = wire (labels name) ++ (question_end ++ replicate (506 - length name) 0);
}

-- A name of up to 492 bytes is asked for by exactly its query message, and the answer tells
-- whether all of it was sent; a longer one is refused, and nothing is sent.
pub dns_request_lem :
    (sendto : Bytes → Option ℕ) (dns : Dns) (name : Bytes)
    → dns_request sendto dns name
      ≡ ok (
          if ltb 492 (length name)
          then (dns_error_name_too_long, record dns { id = 0x1337; packet = header })
          else (
            if falls_short (sendto (query_message name)) (length (query_message name))
                then dns_error_sendto_failed
                else 0,
            record dns { id = 0x1337; packet = query_packet name },
          ))
unfolding dns_request packet_bytes be16
dns_request_lem sendto dns name = elim (Bool-cases (ltb 492 (length name))) [
  | inl long ↦ rw long
  | inr fits ↦
      rw (fits, encode_question_lem name (ltb_false→le 492 (length name) fits)) (rw (sent, len_is))
]
  where
    sent :
        take
          (12 + (length name + 6) - 12)
          (wire (labels name) ++ (question_end ++ replicate (506 - length name) 0))
        ≡ wire (labels name) ++ question_end
    sent = rw (← append_assoc (wire (labels name)) question_end (replicate (506 - length name) 0)) (
        take-append (12 + (length name + 6) - 12) (wire (labels name) ++ question_end)
          (replicate (506 - length name) 0)
          (omega (arith, length-append (wire (labels name)) question_end, length-wire name)))

    len_is : 12 + (length name + 6) ≡ length (query_message name)
    len_is = omega (arith, length-append (wire (labels name)) question_end, length-wire name)

-- A label that a server accepts.
abbrev pub IsLabel : Bytes → Type 0
IsLabel l = (0 < length l) × (length l < 64)

push_label : Bytes → Option (List Bytes × Bytes) → Option (List Bytes × Bytes)
push_label l none = none
push_label l (some (ls, rest)) = some (l ∷ ls, rest)

-- How a server reads a name with no pointer in it: labels up to a zero, each of 63 bytes at most.
pub read_labels : ℕ → Bytes → Option (List Bytes × Bytes)
read_labels zero bytes = none
read_labels (suc fuel) [] = none
read_labels (suc fuel) (n ∷ rest) =
    let more = push_label (take n rest) (read_labels fuel (drop n rest)) in
    if n == 0
    then some ([], rest)
    else if leb 64 n
    then none
    else if ltb (length rest) n
    then none
    else more

abbrev pub dotted : List Bytes → Bytes
dotted [] = []
dotted (l ∷ []) = l
dotted (l ∷ (m ∷ ls)) = l ++ (b'.' ∷ dotted (m ∷ ls))

read_labels-wire :
    (ls : List Bytes) (rest : Bytes)
    → All IsLabel ls
    → read_labels (suc (length ls)) (wire ls ++ (0 ∷ rest)) ≡ some (ls, rest)
unfolding read_labels wire push_label
read_labels-wire [] rest h = refl
read_labels-wire (l ∷ ls) rest h = rw (
  small,
  append_assoc,
  positive,
  below,
  within,
  take-append (length l) l (wire ls ++ (0 ∷ rest)) refl,
  drop-append (length l) l (wire ls ++ (0 ∷ rest)) refl,
  read_labels-wire ls rest h.1,
)
  where
    small : length l % 256 ≡ length l
    small = omega arith

    positive : (length l == 0) ≡ false
    positive = ground arith

    below : leb 64 (length l) ≡ false
    below = ground arith

    within : ltb (length (l ++ (wire ls ++ (0 ∷ rest)))) (length l) ≡ false
    within = le→ltb_false _ _ (omega (arith, length-append l (wire ls ++ (0 ∷ rest))))

dotted-put_front : (c : ℕ) (ls : List Bytes) → ls ≢ [] → dotted (put_front c ls) ≡ c ∷ dotted ls
dotted-put_front c [] h = absurd (h refl)
dotted-put_front c (l ∷ []) h = refl
dotted-put_front c (l ∷ (m ∷ ls)) h = refl

dotted_cons : (ls : List Bytes) → ls ≢ [] → dotted ([] ∷ ls) ≡ b'.' ∷ dotted ls
dotted_cons [] h = absurd (h refl)
dotted_cons (l ∷ ls) h = refl

dotted-labels : (name : Bytes) → dotted (labels name) ≡ name
unfolding labels
dotted-labels [] = refl
dotted-labels (c ∷ cs) = elim (Bool-cases (c == b'.')) [
  | inl dot ↦ rw dot (
      dotted_cons (labels cs) (labels-ne-nil cs)
      ∙ ap₂ (λ (x : ℕ) (xs : Bytes). x ∷ xs) (sym ((==_iff c b'.').0 dot)) (dotted-labels cs))
  | inr other ↦
      rw other (dotted-put_front c (labels cs) (labels-ne-nil cs) ∙ ap (◌∷◌ c) (dotted-labels cs))
]

-- The question of a name of up to 492 bytes, whose labels are of 1 to 63 bytes: a server that reads
-- it up to the place that is answered finds the labels, and the type and class behind them. The
-- labels stand for the name.
pub query_name_reads_back :
    (name : Bytes)
    → length name ≤ 492
    → All IsLabel (labels name)
    → (payload : Bytes) × (at : ℕ) × (encode_question name ≡ ok (payload, at))
      × (read_labels (suc (length (labels name))) (take at payload)
          ≡ some (labels name, 0 ∷ 1 ∷ 0 ∷ 1 ∷ []))
      × (dotted (labels name) ≡ name)
query_name_reads_back name fits h = (
  wire (labels name) ++ (question_end ++ zeros),
  length name + 6,
  encode_question_lem name fits,
  rw sent (read_labels-wire (labels name) (0 ∷ 1 ∷ 0 ∷ 1 ∷ []) h),
  dotted-labels name,
)
  where
    zeros : Bytes
    zeros = replicate (506 - length name) 0

    sent :
        take (length name + 6) (wire (labels name) ++ (question_end ++ zeros))
        ≡ wire (labels name) ++ question_end
    sent = rw (← append_assoc (wire (labels name)) question_end zeros) (
        take-append (length name + 6) (wire (labels name) ++ question_end) zeros
          (omega (arith, length-append (wire (labels name)) question_end, length-wire name)))
