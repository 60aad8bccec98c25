-- ===== src/Tests/Lifeline.antt =====
-- Runs of packages/lifeline/lifeline.c.
use safewrt.Common.{
  ◌≡◌, refl, some, none, true, false, Option, [], ◌∷◌, Bytes, joined, replicate, arith, All, leb→le,
}
use safewrt.Common.Outcome.{ok}
use safewrt.Common.Text.{codes}
use safewrt.Lifeline.{
  Connection, recv, build_helo, is_newline, skip_headers, forwards, attempt_remote,
}
use safewrt.Lifeline.Headers.{behind_headers, text_left, IsLine, skip_headers-behind_headers}
use safewrt.Lifeline.Forward.{
  ready, Forwarding, splice, first_to_second, second_to_first, forward_loop, SameStreams,
  forward_loop-SameStreams,
}
use safewrt.Lifeline.Delivers.{forward_loop-delivers}
use safewrt.Lifeline.Reply.{attempt_remote-forwards}

skip_headers-behind_headers_example :
    (out : Option Connection) × (skip_headers 9 0 (codes "a\r\n" ∷ codes "\r\nssh" ∷ []) ≡ ok out)
    × (text_left out ≡ behind_headers 0 (codes "a\r\n\r\nssh"))
skip_headers-behind_headers_example =
    skip_headers-behind_headers (codes "a\r\n\r\nssh") 9 0 (codes "a\r\n" ∷ codes "\r\nssh" ∷ [])
      (omega arith, (omega arith, tt)) refl (omega arith)

abbrev reply : Bytes
reply = codes "HTTP/1.1 101 Switching Protocols\r\nUpgrade: websocket\r\n\r\nSSH-2.0"

header-IsLine : All IsLine (codes "Upgrade: websocket" ∷ [])
unfolding is_newline
header-IsLine = ((omega arith, refl), tt)

attempt_remote-forwards_example :
    (left : Connection) × (attempt_remote none (some (reply ∷ [])) true (codes "lifeline.exys.org")
      ≡ ok (build_helo none (codes "lifeline.exys.org"), forwards left))
    × (joined left ≡ codes "SSH-2.0")
attempt_remote-forwards_example =
    attempt_remote-forwards none (codes "lifeline.exys.org") reply []
      (codes "Upgrade: websocket" ∷ []) (codes "SSH-2.0") (leb→le _ _ refl, tt) header-IsLine
      (leb→le _ _ refl) refl

abbrev start : Forwarding
start = record {
  unread1 = (1 ∷ 2 ∷ []) ∷ (3 ∷ []) ∷ [];
  unread2 = (9 ∷ []) ∷ [];
  written1 = [];
  written2 = [];
}

abbrev done : Forwarding
done = record { unread1 = (3 ∷ []) ∷ []; unread2 = []; written1 = 9 ∷ []; written2 = 1 ∷ 2 ∷ [] }

one_round : forward_loop (ready (some 4096) (some 4096) ∷ []) start ≡ ok (true, done)
unfolding forward_loop first_to_second second_to_first splice recv
one_round = refl

forward_loop-SameStreams_example : SameStreams done start
forward_loop-SameStreams_example =
    forward_loop-SameStreams (ready (some 4096) (some 4096) ∷ []) start done true
      ((omega arith, omega arith), tt) one_round

forward_loop-delivers_example :
    forward_loop (replicate 5 (ready (some 2048) none)) (record {
      unread1 = (1 ∷ 2 ∷ []) ∷ (3 ∷ []) ∷ [];
      unread2 = [];
      written1 = [];
      written2 = 7 ∷ [];
    })
    ≡ ok
        (false, record { unread1 = []; unread2 = []; written1 = []; written2 = 7 ∷ 1 ∷ 2 ∷ 3 ∷ [] })
forward_loop-delivers_example =
    forward_loop-delivers 5 2048 ((1 ∷ 2 ∷ []) ∷ (3 ∷ []) ∷ []) [] [] (7 ∷ [])
      (omega arith, (omega arith, tt)) (omega arith) (omega arith)
