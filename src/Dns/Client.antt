-- ===== src/Dns/Client.antt =====
-- `main` of packages/lifeline/dns.c, which is compiled with `DNS_TEST_MAIN` only: a query to 8.8.8.8 and
-- the records of its reply in text. `argv[1]`, the socket and `inet_addr` are parameters; the byte order
-- is that of a little-endian machine.
pub mod Printed
use safewrt.Common.{
  ℕ, zero, suc, ◌+◌, ◌-◌, ◌/◌, ◌%◌, ◌^◌, not, Option, List, [], ◌∷◌, ◌++◌, Bytes, ltb, ◌==◌,
  if◌then◌else◌,
}
use safewrt.Common.Outcome.{Outcome, ok, stop, faults, ◌>>=◌}
use safewrt.Common.Text.{codes}
use safewrt.Dns.{DnsRecord}
use safewrt.Dns.Request.{dns_init, dns_request}
use safewrt.Dns.Receive.{Datagram, dns_receive}

-- The digits of `n` in front of `acc`, for `n` below 10 ^ (rounds + 1).
unfoldable pub decimal_onto : ℕ → ℕ → Bytes → Bytes
decimal_onto zero n acc = (48 + n % 10) ∷ acc
decimal_onto (suc rounds) n acc =
    let more = decimal_onto rounds (n / 10) ((48 + n % 10) ∷ acc) in
    if ltb n 10 then (48 + n % 10) ∷ acc else more

-- `%d` of an `int` whose 32 bits are those of `n`
unfoldable pub decimal : ℕ → Bytes
decimal n =
    if ltb (n % 2 ^ 32) (2 ^ 31)
    then decimal_onto 9 (n % 2 ^ 32) []
    else b'-' ∷ decimal_onto 9 (2 ^ 32 - n % 2 ^ 32) []

-- `%hhu.%hhu.%hhu.%hhu` of the bytes of an address, as they follow one another in the packet
unfoldable pub dotted_quad : ℕ → Bytes
dotted_quad address = decimal_onto 2 (address / 2 ^ 24 % 256) (
    b'.'
    ∷ decimal_onto 2 (address / 2 ^ 16 % 256)
        (b'.' ∷ decimal_onto 2 (address / 2 ^ 8 % 256) (b'.' ∷ decimal_onto 2 (address % 256) [])))

unfoldable pub record_line : Bytes → DnsRecord → Bytes
record_line name r =
    name
    ++ (codes "\t"
        ++ (decimal r.ttl ++ (codes "\tIN\tA\t" ++ (dotted_quad r.address ++ codes "\n"))))

-- `for (r = dns.records; r->ttl != 0; r++)`
unfoldable pub record_lines : Bytes → List DnsRecord → Outcome Bytes
record_lines name [] = stop faults
record_lines name (r ∷ rs) =
    let rest = record_lines name rs in
    if r.ttl == 0 then ok [] else rest >>= λ more. ok (record_line name r ++ more)

-- The status, and what is printed.
unfoldable pub main :
    Option ℕ → (Bytes → ℕ) → (Bytes → Option ℕ) → Option Datagram → Bytes → Outcome (ℕ × Bytes)
main socket inet_addr sendto reply name =
    let (failed, dns) = dns_init socket (inet_addr (codes "8.8.8.8")) in
    if not (failed == 0) then ok (1, []) else (do
      (refused, asked) ← dns_request sendto dns name
      if not (refused == 0) then ok (2, []) else (do
        (unanswered, received) ← dns_receive asked reply
        if not (unanswered == 0)
            then ok (3, [])
            else (do text ← record_lines name received.records; ok (0, text))))
