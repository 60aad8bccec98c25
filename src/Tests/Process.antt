-- ===== src/Tests/Process.antt =====
-- Runs of the process of packages/lifeline/lifeline.c with its sockets.
use safewrt.Common.{
  ℕ, suc, ◌+◌, ◌≤◌, ◌≡◌, refl, true, false, none, some, Bool, List, [], ◌∷◌, ◌++◌, Bytes, ◌==◌,
  if◌then◌else◌, arith,
}
use safewrt.Common.Outcome.{Outcome, ok, stop}
use safewrt.Common.Text.{codes, same_text}
use safewrt.Lifeline.{recv, skip_headers, is_newline, attempt_remote, build_helo}
use safewrt.Lifeline.Forward.{ready, splice, first_to_second, second_to_first, forward_loop}
use safewrt.Lifeline.Resolve.{Network, Query, attempt_server, attempt_servers, is_path, inaddr_none}
use safewrt.Lifeline.Resolve
use safewrt.Lifeline.Sockets.{
  exceeds, descriptor, Peer, Machine, State, close, close_socket, open_socket, wait_connected,
  remote_connect, connect_local, local_connect, log_visit, after_talk, talk, visit_connected,
  visit_remote,
}
use safewrt.Lifeline.Sockets.Held.{holds, GivesFresh, Accounts}
use safewrt.Lifeline.Process.{
  and_then, skip, visit_server, visit_servers, count_call, attempt_dns, parse_file,
  parse_resolvconf, attempt_resolvers, main,
}
use safewrt.Lifeline.Process.Leaks.{main-Accounts}
use safewrt.Lifeline.Process.Places.{places}
use safewrt.Lifeline.Process.Order.{net, main-places}

-- A descriptor above all that are open.
abbrev above : List ℕ → ℕ
above [] = 3
above (d ∷ ds) = suc (d + above ds)

below_above : (ds : List ℕ) (fd : ℕ) → above ds ≤ fd → holds ds fd ≡ false
unfolding holds
below_above [] fd h = refl
below_above (d ∷ ds) fd h = ground (arith, below_above ds fd)

abbrev server_network : Network
server_network = record {
  inet_addr = λ name. 7;
  query = λ call server. record { socket = none; sendto = λ sent. none; reply = none };
  file = λ path. none;
  sscanf = λ line. none;
}

abbrev reply : Bytes
reply = codes "HTTP/1.1 101 Switching Protocols\r\n\r\n"

-- The first peer does not answer in time, the second one is forwarded until the ssh server closes,
-- and the others hang up.
abbrev peers : ℕ → Peer
peers k = record {
  poll = if k == 0 then false else true;
  arrives = if k == 1 then reply ∷ [] else [];
  inet_pton = true;
  local_connects = true;
  local_arrives = [];
  polls = ready (some 1024) none ∷ [];
}

abbrev machine : Machine
machine = record {
  network = server_network;
  hostname = none;
  socket = λ call held. some (above held);
  peer = peers;
}

abbrev start : State
start = record { held = 0 ∷ []; sockets = 0; calls = 0; visits = [] }

fresh : GivesFresh machine
fresh k fd held h = below_above held fd (omega (arith, same h))
  where
    same : some (above held) ≡ some fd → above held ≡ fd
    same e = cc

abbrev end_of : Outcome (Bool × State) → State
end_of (ok (on, t)) = t
end_of (stop why) = start

abbrev finish : State
finish = end_of (main machine start)

returned : main machine start ≡ ok (true, finish)
unfolding main attempt_resolvers and_then skip attempt_dns visit_servers visit_server count_call
    visit_remote visit_connected talk after_talk log_visit local_connect connect_local
    remote_connect wait_connected open_socket close_socket close descriptor exceeds attempt_remote
    skip_headers is_newline recv forward_loop first_to_second second_to_first splice is_path
    parse_resolvconf parse_file same_text build_helo
returned = refl

main-Accounts_example : Accounts start finish
main-Accounts_example = main-Accounts machine fresh start finish returned

-- The second visit leaves both of its sockets open.
two_open : finish.held ≡ 9 ∷ 4 ∷ 0 ∷ []
unfolding main attempt_resolvers and_then skip attempt_dns visit_servers visit_server count_call
    visit_remote visit_connected talk after_talk log_visit local_connect connect_local
    remote_connect wait_connected open_socket close_socket close descriptor exceeds attempt_remote
    skip_headers is_newline recv forward_loop first_to_second second_to_first splice is_path
    parse_resolvconf parse_file same_text build_helo
two_open = refl

answers : (k : ℕ) (held : List ℕ) → (fd : ℕ) × (machine.socket k held ≡ some fd)
answers k held = (above held, refl)

main-places_example :
    (attempts : List (Bytes × ℕ)) × (Resolve.main (net machine fresh answers) ≡ ok attempts)
    × (places finish.visits ≡ places start.visits ++ attempts)
main-places_example = main-places machine fresh answers start finish refl returned
