-- ===== src/Lifeline/Sockets/Branches.antt =====
-- A call of `attempt_remote` in packages/lifeline/lifeline.c with its sockets: which descriptors it leaves
-- open, branch by branch.
use safewrt.Common.{
  ℕ, ◌+◌, ◌≡◌, refl, ap, ◌∙◌, sym, Bool, true, false, not, none, some, List, [], ◌∷◌, ◌++◌, Bytes,
  length, Bool-cases, Option-cases, inl, inr,
}
use safewrt.Common.Outcome.{ok, >>=-eq-ok}
use safewrt.Lifeline.{Attempt, unconnected, gives_up, no_local, forwards, attempt_remote}
use safewrt.Lifeline.Forward.{forward_loop}
use safewrt.Lifeline.Sockets.{
  pos, exceeds, descriptor, first_entry, visit_connected, Peer, Machine, Visit, State, close_socket,
  open_socket, remote_connect, wait_connected, local_connect, log_visit, after_talk, talk,
  visit_remote,
}
use mathlib.Core.List.{append_assoc}
use safewrt.Lifeline.Sockets.Held.{
  holds, GivesFresh, opened, left_open, Visited, returned, taken, open_socket-none,
  open_socket-some, local_held, holds_nil, holds_one, holds-append, other_than, close-append,
}

no_socket :
    (connect_name : Bytes) (address : ℕ) (timely : Bool)
    → left_open (first_entry connect_name address none timely) ≡ []
no_socket connect_name address true = refl
no_socket connect_name address false = refl

module _ (m : Machine) (fresh : GivesFresh m) where
  -- What `socket` gives stands with nothing that was open.
  opened_fresh :
      (s : State) (fd : ℕ) → holds s.held fd ≡ true → holds (opened (open_socket m s).0) fd ≡ false
  unfolding open_socket holds
  opened_fresh s fd h = elim (Option-cases (m.socket s.sockets s.held)) [
    | inl closed ↦ rw (open_socket-none m s closed) refl
    | inr (new, gives) ↦
        rw
          (
            open_socket-some m s new gives,
            other_than s.held fd new h (fresh s.sockets new s.held gives),
          )
          refl
  ]

  both_fresh :
      (s : State) (r fd : ℕ)
      → holds s.held r ≡ false
      → holds s.held fd ≡ true
      → holds (opened (open_socket m (taken s r)).0 ++ (r ∷ [])) fd ≡ false
  unfolding holds
  both_fresh s r fd hr h =
      holds-append (opened (open_socket m (taken s r)).0) (r ∷ []) fd
      ∙ rw
          (
            opened_fresh (taken s r) fd (rw (other_than s.held fd r h hr, h) refl),
            other_than s.held fd r h hr,
          )
          refl

  -- Where the ssh server was called: both sockets stay open.
  local_visit :
      (peer : Peer) (s : State) (r : ℕ) (v : Visit)
      → holds s.held r ≡ false
      → left_open v ≡ opened (open_socket m (taken s r)).0 ++ (r ∷ [])
      → Visited v.name v.address s
          (log_visit v (local_connect m peer.inet_pton peer.local_connects (taken s r)).1)
  unfolding log_visit
  local_visit peer s r v hr hv =
      let (held, visits, calls) = local_held m peer.inet_pton peer.local_connects (taken s r) in
      (
        v,
        refl,
        refl,
        ap (λ (z : List Visit). v ∷ z) visits,
        calls,
        held ∙ front ∙ ap (λ (z : List ℕ). z ++ s.held) (sym hv),
        λ fd h. ap (λ z. holds z fd) hv ∙ both_fresh s r fd hr h,
      )
    where
      front :
          opened (open_socket m (taken s r)).0 ++ (taken s r).held
          ≡ (opened (open_socket m (taken s r)).0 ++ (r ∷ [])) ++ s.held
      front =
          ap (λ (z : List ℕ). opened (open_socket m (taken s r)).0 ++ z) refl
          ∙ sym (append_assoc (opened (open_socket m (taken s r)).0) (r ∷ []) s.held)

  -- The end of the talk on a socket that was just opened.
  after_talk-Visited :
      (peer : Peer) (s t : State) (r : ℕ) (on : Bool) (ending : Attempt) (v : Visit)
      → holds s.held r ≡ false
      → v.timely ≡ true
      → v.remote_socket ≡ some r
      → v.ending ≡ unconnected
      → after_talk m peer r v (taken s r) ending ≡ ok (on, t)
      → Visited v.name v.address s t
  unfolding after_talk log_visit close_socket
  after_talk-Visited peer s t r on unconnected v hr ht hs he h =
      returned (Visited v.name v.address s) (log_visit v (taken s r)) t true on h (
        v,
        refl,
        refl,
        refl,
        refl,
        rw (he, ht, hs) refl,
        λ fd k. rw (he, ht, hs) (holds_one r fd (other_than s.held fd r k hr)),
      )
  after_talk-Visited peer s t r on (gives_up code) v hr ht hs he h =
      returned (Visited v.name v.address s)
        (log_visit (record v { ending = gives_up code }) (close_socket r (taken s r))) t true on h
        (
          record v { ending = gives_up code },
          refl,
          refl,
          refl,
          refl,
          close-append [] s.held r (holds_nil r),
          λ fd k. holds_nil fd,
        )
  after_talk-Visited peer s t r on no_local v hr ht hs he h =
      returned (Visited v.name v.address s) _ t true on h (
        local_visit peer s r
          (record v { local_socket = (open_socket m (taken s r)).0; ending = no_local }) hr
          (rw hs refl))
  after_talk-Visited peer s t r on (forwards left) v hr ht hs he h =
      let ((runs, forwarding), loop, rest) = >>=-eq-ok (forward_loop peer.polls _) _ h in
      returned (Visited v.name v.address s) _ t (not runs) on rest (
        local_visit peer s r
          (record v { local_socket = (open_socket m (taken s r)).0; ending = forwards left }) hr
          (rw hs refl))

  talk-Visited :
      (peer : Peer) (s t : State) (r : ℕ) (on : Bool) (v : Visit)
      → holds s.held r ≡ false
      → v.timely ≡ true
      → v.remote_socket ≡ some r
      → v.ending ≡ unconnected
      → talk m peer r v (taken s r) ≡ ok (on, t)
      → Visited v.name v.address s t
  unfolding talk
  talk-Visited peer s t r on v hr ht hs he h =
      let ((sent, ending), met, rest) = >>=-eq-ok (attempt_remote m.hostname _ _ v.name) _ h in
      after_talk-Visited peer s t r on ending (record v { sent = sent }) hr ht hs he rest

  -- The visit on a socket that was just opened.
  connected-Visited :
      (peer : Peer) (connect_name : Bytes) (address fd : ℕ) (s t : State) (on : Bool)
      → holds s.held fd ≡ false
      → visit_connected m peer
          (first_entry connect_name address (some fd) true)
          (pos fd)
          (taken s fd)
        ≡ ok (on, t)
      → Visited connect_name address s t
  unfolding visit_connected descriptor log_visit
  connected-Visited peer connect_name address fd s t on hr h =
      elim (Bool-cases (exceeds (pos fd) 1)) [
        | inl above ↦
            talk-Visited peer s t fd on (first_entry connect_name address (some fd) true) hr refl
              refl refl (rw above at h)
        | inr below ↦
            returned (Visited connect_name address s)
              (log_visit (first_entry connect_name address (some fd) true) (taken s fd)) t true on
              (rw below at h)
              (
                first_entry connect_name address (some fd) true,
                refl,
                refl,
                refl,
                refl,
                refl,
                λ d k. holds_one fd d (other_than s.held d fd k hr),
              )
      ]

  -- The visit on it with either answer of `poll`.
  polled-Visited :
      (peer : Peer) (poll : Bool) (connect_name : Bytes) (address fd : ℕ) (s t : State) (on : Bool)
      → holds s.held fd ≡ false
      → visit_connected m peer
          (first_entry connect_name address (some fd) poll)
          (wait_connected poll (some fd) (taken s fd)).0
          (wait_connected poll (some fd) (taken s fd)).1
        ≡ ok (on, t)
      → Visited connect_name address s t
  unfolding wait_connected visit_connected exceeds log_visit close_socket
  polled-Visited peer true connect_name address fd s t on hr h =
      connected-Visited peer connect_name address fd s t on hr h
  polled-Visited peer false connect_name address fd s t on hr h =
      returned (Visited connect_name address s)
        (log_visit (first_entry connect_name address (some fd) false)
          (close_socket fd (taken s fd)))
        t true on h
        (
          first_entry connect_name address (some fd) false,
          refl,
          refl,
          refl,
          refl,
          close-append [] s.held fd (holds_nil fd),
          λ d k. holds_nil d,
        )

  -- A call of `attempt_remote` is one visit.
  pub visit_remote-Visited :
      (connect_name : Bytes) (address : ℕ) (s t : State) (on : Bool)
      → visit_remote m connect_name address s ≡ ok (on, t)
      → Visited connect_name address s t
  unfolding visit_remote remote_connect wait_connected visit_connected exceeds log_visit
      close_socket
  visit_remote-Visited connect_name address s t on h =
      elim (Option-cases (m.socket s.sockets s.held)) [
        | inl closed ↦
            let v = first_entry connect_name address none (m.peer (length s.visits)).poll in
            let nothing = no_socket connect_name address (m.peer (length s.visits)).poll in
            returned (Visited connect_name address s)
              (log_visit v (record s { sockets = s.sockets + 1 })) t true on
              (rw (open_socket-none m s closed) at h)
              (
                v,
                refl,
                refl,
                refl,
                refl,
                ap (λ (z : List ℕ). z ++ s.held) (sym nothing),
                λ d k. ap (λ z. holds z d) nothing ∙ holds_nil d,
              )
        | inr (fd, gives) ↦
            polled-Visited (m.peer (length s.visits)) (m.peer (length s.visits)).poll connect_name
              address fd s t on (fresh s.sockets fd s.held gives)
              (rw (open_socket-some m s fd gives) at h)
      ]
