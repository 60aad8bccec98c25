-- ===== src/Lifeline/Sockets.antt =====
-- The sockets of packages/lifeline/lifeline.c: `remote_connect`, `local_connect` and
-- `attempt_remote` with the descriptors that are open, and the sockets of packages/lifeline/dns.c.
--
-- What `socket` answers may depend on the number of the call and on what is open. Host name,
-- `poll`, `connect` and the peers are parameters. `fcntl`, `setsockopt` and the texts for the
-- terminal have no effect on the model.
pub mod Held
pub mod Branches
use safewrt.Common.{
  ℕ, ◌+◌, Bool, true, false, not, ◌&&◌, Option, none, some, List, [], ◌∷◌, Bytes, length, ltb, ◌==◌,
  if◌then◌else◌,
}
use safewrt.Common.Outcome.{Outcome, ok, ◌>>=◌}
use safewrt.Lifeline.{
  Connection, Attempt, unconnected, gives_up, no_local, forwards, attempt_remote,
}
use safewrt.Lifeline.Forward.{Poll, forward_loop}
use safewrt.Lifeline.Resolve.{Network}

-- What a function answers that gives an `int`: `negsuc n` is `-1 - n`.
pub data ℤ : Type 0 where
  pos : ℕ → ℤ
  negsuc : ℕ → ℤ

unfoldable pub exceeds : ℤ → ℕ → Bool
exceeds (pos n) bound = ltb bound n
exceeds (negsuc n) bound = false

-- What an attempt meets: whether `poll` answers 1 within 5 seconds and what arrives then, whether
-- `inet_pton` and `connect` succeed for the ssh server and what it sends, and the answers of `poll`
-- while bytes are forwarded.
pub record Peer : Type 0 where
  pub poll : Bool
  pub arrives : Connection
  pub inet_pton : Bool
  pub local_connects : Bool
  pub local_arrives : Connection
  pub polls : List Poll

pub record Machine : Type 0 where
  pub network : Network
  pub hostname : Option Bytes
  pub socket : ℕ → List ℕ → Option ℕ
  pub peer : ℕ → Peer

-- A call of `attempt_remote`: what it was given, the descriptors that `socket` gave it, whether the
-- remote side answered in time, what was sent and how it ended.
pub record Visit : Type 0 where
  pub name : Bytes
  pub address : ℕ
  pub remote_socket : Option ℕ
  pub timely : Bool
  pub local_socket : Option ℕ
  pub sent : Bytes
  pub ending : Attempt

-- The descriptors that are open, the number of calls of `socket` and of `attempt_dns` up to now, and
-- the visits, the last one first.
pub record State : Type 0 where
  pub held : List ℕ
  pub sockets : ℕ
  pub calls : ℕ
  pub visits : List Visit

unfoldable pub close : ℕ → List ℕ → List ℕ
close fd [] = []
close fd (d ∷ ds) = if fd == d then ds else d ∷ close fd ds

unfoldable pub close_socket : ℕ → State → State
close_socket fd s = record s { held = close fd s.held }

-- `socket`
unfoldable pub open_socket : Machine → State → Option ℕ × State
open_socket m s = elim (m.socket s.sockets s.held) [
  | none ↦ (none, record s { sockets = s.sockets + 1 })
  | some fd ↦ (some fd, record s { sockets = s.sockets + 1; held = fd ∷ s.held })
]

-- What `remote_connect` does with the answer of `socket`.
unfoldable pub wait_connected : Bool → Option ℕ → State → ℤ × State
wait_connected poll none s = (negsuc 0, s)
wait_connected poll (some sockfd) s =
    if poll then (pos sockfd, s) else (negsuc 2, close_socket sockfd s)

unfoldable pub remote_connect : Machine → Bool → State → ℤ × State
remote_connect m poll s = let (answer, t) = open_socket m s in wait_connected poll answer t

-- What `local_connect` does with it, where both `inet_pton` and `connect` succeed or not.
unfoldable pub connect_local : Bool → Option ℕ → State → ℤ × State
connect_local up none s = (negsuc 0, s)
connect_local up (some sockfd) s = (if up then pos sockfd else negsuc 0, s)

unfoldable pub local_connect : Machine → Bool → Bool → State → ℤ × State
local_connect m inet_pton connects s =
    let (answer, t) = open_socket m s in connect_local (inet_pton && connects) answer t

-- The descriptor of an answer, for `close`.
unfoldable pub descriptor : ℤ → ℕ
descriptor (pos n) = n
descriptor (negsuc n) = 0

unfoldable pub log_visit : Visit → State → State
log_visit v s = record s { visits = v ∷ s.visits }

-- What `attempt_remote` does when the talk with the remote side has ended, on the descriptor
-- `remote_socket`.
unfoldable pub after_talk : Machine → Peer → ℕ → Visit → State → Attempt → Outcome (Bool × State)
after_talk m peer remote_socket visit s unconnected = ok (true, log_visit visit s)
after_talk m peer remote_socket visit s (gives_up code) =
    ok (true, log_visit (record visit { ending = gives_up code }) (close_socket remote_socket s))
after_talk m peer remote_socket visit s no_local =
    let (local, t) = local_connect m peer.inet_pton peer.local_connects s in
    ok (true, log_visit (record visit { local_socket = (open_socket m s).0; ending = no_local }) t)
after_talk m peer remote_socket visit s (forwards left) =
    let (local, t) = local_connect m peer.inet_pton peer.local_connects s in
    forward_loop peer.polls
      (record { unread1 = peer.local_arrives; unread2 = left; written1 = []; written2 = [] })
    >>= λ (on, forwarding). ok (
      not on,
      log_visit (record visit { local_socket = (open_socket m s).0; ending = forwards left }) t,
    )

-- The talk with the remote side is `attempt_remote` of Lifeline.
unfoldable pub talk : Machine → Peer → ℕ → Visit → State → Outcome (Bool × State)
talk m peer remote_socket visit s =
    let (local, t) = local_connect m peer.inet_pton peer.local_connects s in
    attempt_remote m.hostname (some peer.arrives) (exceeds local 0) visit.name >>= λ (sent, ending).
    after_talk m peer remote_socket (record visit { sent = sent }) s ending

-- What follows `remote_connect`: `if (remote_socket > 1)`
unfoldable pub visit_connected : Machine → Peer → Visit → ℤ → State → Outcome (Bool × State)
visit_connected m peer visit remote_socket s =
    if exceeds remote_socket 1
    then talk m peer (descriptor remote_socket) visit s
    else ok (true, log_visit visit s)

-- A visit before anything is sent.
abbrev pub first_entry : Bytes → ℕ → Option ℕ → Bool → Visit
first_entry connect_name address remote_socket timely = record {
  name = connect_name;
  address = address;
  remote_socket = remote_socket;
  timely = timely;
  local_socket = none;
  sent = [];
  ending = unconnected;
}

-- `attempt_remote` with its sockets: whether it returns, which it does not while the forwarding
-- goes on.
unfoldable pub visit_remote : Machine → Bytes → ℕ → State → Outcome (Bool × State)
visit_remote m connect_name address s =
    let peer = m.peer (length s.visits) in
    let (remote_socket, t) = remote_connect m peer.poll s in
    visit_connected m peer (first_entry connect_name address (open_socket m s).0 peer.poll)
      remote_socket t
