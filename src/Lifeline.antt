-- ===== src/Lifeline.antt =====
-- packages/lifeline/lifeline.c: a connection to a remote host that asks for an upgrade, and the
-- forwarding between it and the local ssh server.
--
-- A connection stands as what arrives on it: the bytes that the calls of `recv` or `read` find, in
-- segments, none of them after the last one. Sockets, host name and `poll` are parameters.
pub mod Headers
pub mod Reply
pub mod Forward
pub mod Delivers
pub mod Resolve
pub mod Answered
pub mod Sockets
pub mod Process
use safewrt.Common.{
  ℕ, zero, suc, ◌+◌, ◌-◌, ◌*◌, Bool, true, false, not, ◌||◌, Option, none, some, List, [], ◌∷◌,
  ◌++◌, Bytes, length, take, drop, total, ltb, leb, ◌==◌, if◌then◌else◌,
}
use safewrt.Common.Outcome.{Outcome, ok, stop, exits, faults, ◌>>=◌}
use safewrt.Common.Text.{codes, same_text}
use mathlib.Core.Option.{get_or}

abbrev pub Connection : Type 0
Connection = List Bytes

-- What a call finds, up to `count` bytes of it, and what is left. An empty answer stands for a count of 0
-- and for an error.
unfoldable pub recv : ℕ → Connection → Bytes × Connection
recv count [] = ([], [])
recv count (segment ∷ rest) =
    (take count segment, elim (drop count segment) [ [] ↦ rest | b ∷ bs ↦ (b ∷ bs) ∷ rest ])

-- The request. `hostname` is the answer of `gethostname`.
unfoldable pub build_helo : Option Bytes → Bytes → Bytes
build_helo hostname remotename =
    let name = get_or hostname (codes "?") in
    take 2047 (
      codes "GET /lifeline/1 HTTP/1.1\r\nHost: "
      ++ (remotename
          ++ (codes
                "\r\nUpgrade: websocket\r\nConnection: Upgrade\r\nUser-Agent: Mozilla/5.0 (X11; Linux x86_64) AppleWebKit/537.36 (KHTML, like Gecko) Chrome/51.0.2704.63 Safari/537.36\r\nSec-WebSocket-Key: x3JJHMbDL1EzLkh9GBhXDw==\r\nSec-WebSocket-Protocol: chat, superchat\r\nSec-WebSocket-Version: 13\r\nX-LF-Name: legacy."
              ++ (name ++ codes "\r\n\r\n"))))

abbrev pub expect : Bytes
expect = codes "HTTP/1.1 101 Switching Protocols"

unfoldable pub is_newline : ℕ → Bool
is_newline c = c == 0x0a || c == 0x0d

-- The loop that ignores the headers, one byte at a time: what is left of the connection, or none where
-- it died. Each round takes a byte, so as many rounds as there are bytes and one more are enough.
unfoldable pub skip_headers : ℕ → ℕ → Connection → Outcome (Option Connection)
skip_headers zero countspace remote = stop faults
skip_headers (suc fuel) countspace remote =
    let (got, left) = recv 1 remote in
    let on_newline = skip_headers fuel (countspace + 1) left in
    let on_other = skip_headers fuel 0 left in
    elim got [
      | [] ↦ ok none
      | c ∷ _ ↦
          if is_newline c
          then (if ltb 3 (countspace + 1) then ok (some left) else on_newline)
          else on_other
    ]

-- How an attempt ends: with no connection, where the function returns no value; with a code; or in the
-- forwarding between the local connection and what is left of the remote one.
pub data Attempt : Type 0 where
  unconnected : Attempt
  gives_up : ℕ → Attempt
  no_local : Attempt
  forwards : Connection → Attempt

-- `remote` is what arrives on the connection to the address, or none where that failed, and
-- `local_connects` whether the ssh server answers. The answer is what is sent and how it ends.
unfoldable pub attempt_remote :
    Option Bytes → Option Connection → Bool → Bytes → Outcome (Bytes × Attempt)
attempt_remote hostname none local_connects connect_name = ok ([], unconnected)
attempt_remote hostname (some remote) local_connects connect_name =
    let helo = build_helo hostname connect_name in
    let (buf, left) = recv (length expect) remote in
    if not (length buf == length expect)
    then ok (helo, gives_up 1)
    else if not (same_text expect buf)
    then ok (helo, gives_up 2)
    else skip_headers (suc (total left)) 0 left >>= λ skipped. elim skipped [
      | none ↦ ok (helo, gives_up 1)
      | some rest ↦ ok (helo, if local_connects then forwards rest else no_local)
    ]
