-- ===== src/Net/Service/Accepting.antt =====
-- How clients are accepted (net/netServiceAcceptor.cpp).
use lobbysvr.Base.{
  ℕ, zero, suc, ◌+◌, ◌%◌, ◌<◌, ◌≡◌, refl, ap, ◌∙◌, true, false, List, [], ◌∷◌, ◌++◌, some, arith,
  replicate,
}
use lobbysvr.Net.Receiver.{EventReceiver, invoke}
use lobbysvr.Net.Service.{
  ServiceImpl, started, accepting, Network, back, get_acceptor, new_session, create_session, pend,
  mark, set_state, u64_mod,
}
use lobbysvr.Net.Service.Accepts.{accept_next, accepted, accept_handler}
use lobbysvr.Net.Service.Connecting.{all_connected, tells, one_more}
use lobbysvr.Net.Service.Turns.{Answer, success, refused, has_accepted, complete, then_turns, turns}

module _ {U : Type 0} (g : ℕ → U → U) where
  abbrev after_accept : ServiceImpl → ℕ → ℕ → Network U → Network U
  after_accept s i conn n = record n {
    sessions = new_session s 0 n.identity_seed ∷ set_state conn started n.sessions;
    identity_seed = (n.identity_seed + 1) % u64_mod;
    pending = n.pending ++ accepting i n.identity_seed ∷ [];
    user = g conn n.user;
  }

  accept_handler-success :
      (receiver : EventReceiver (Network U)) (s : ServiceImpl) (i conn : ℕ) (n : Network U)
      → receiver.on_accept ≡ some (tells g)
      → accept_handler receiver true 0 i s conn n ≡ back true (after_accept s i conn n)
  unfolding accept_handler accepted accept_next create_session pend mark invoke
  accept_handler-success receiver s i conn n e =
      ap (λ f. accepted true i s conn (invoke f conn n)) e

  accept_handler-refused :
      (receiver : EventReceiver (Network U)) (s : ServiceImpl) (i conn ec : ℕ) (n : Network U)
      → accept_handler receiver true (suc ec) i s conn n ≡ back false n
  unfolding accept_handler
  accept_handler-refused receiver s i conn ec n = ground arith

  -- Nothing is under way, and no turn does anything.
  turns-idle :
      (receiver : EventReceiver (Network U)) (answers : List Answer) (n : Network U)
      → n.pending ≡ []
      → turns (λ a. receiver) answers n ≡ back true n
  unfolding turns then_turns complete
  turns-idle receiver [] n p = refl
  turns-idle receiver (a ∷ answers) n p =
      ap (then_turns (turns (λ a. receiver) answers)) (ap (complete receiver a n) p)
      ∙ turns-idle receiver answers n p

  -- An acceptor that waits for its next client, in the session `conn`, accepts one client after the other, if `onAccept`
  -- changes the application alone: after so many, `onAccept` was called once with each session, in the order of their
  -- identities, and one accept is under way. After one error of an accept, none is, and no later turn calls `onAccept`.
  -- The identities must not wrap.
  pub turns-accepted :
      (receiver : EventReceiver (Network U)) (s : ServiceImpl) (i conn clients ec : ℕ)
      (later : List Answer) (n : Network U)
      → receiver.on_accept ≡ some (tells g)
      → get_acceptor i n ≡ some s
      → n.pending ≡ accepting i conn ∷ []
      → n.identity_seed ≡ conn + 1
      → n.identity_seed + clients < u64_mod
      → ((m : Network U) × (turns (λ a. receiver) (replicate clients success) n ≡ back true m)
          × (m.pending ≡ accepting i (conn + clients) ∷ [])
          × (m.user ≡ all_connected g conn clients n.user))
        × ((m : Network U) × (turns
                (λ a. receiver)
                (replicate clients success ++ refused (suc ec) ∷ later)
                n
              ≡ back true m)
            × (m.pending ≡ [])
            × (m.user ≡ all_connected g conn clients n.user))
  unfolding turns then_turns complete has_accepted get_acceptor
  turns-accepted receiver s i conn zero ec later n e at p seed h =
      let n0 = record n { pending = [] } in
      (
        (n, refl, p ∙ ap (λ k. accepting i k ∷ []) (omega arith), refl),
        (
          n0,
          ap (then_turns (turns (λ a. receiver) later)) (
                ap (complete receiver (refused (suc ec)) n) p
                ∙ ap (has_accepted receiver (refused (suc ec)) i conn n0) at
                ∙ accept_handler-refused receiver s i conn ec n0)
              ∙ turns-idle receiver later n0 refl,
          refl,
          refl,
        ),
      )
  turns-accepted receiver s i conn (suc clients) ec later n e at p seed h =
      let n0 = record n { pending = [] } in
      let m = after_accept s i conn n0 in
      let unwrapped = one_more n.identity_seed clients h in
      let rest =
        turns-accepted receiver s i n.identity_seed clients ec later m e at refl unwrapped
          (omega (arith, unwrapped)) in
      let step =
        ap (complete receiver success n) p
        ∙ ap (has_accepted receiver success i conn n0) at
        ∙ accept_handler-success receiver s i conn n0 e in
      let calls = ap (λ k. all_connected g k clients (g conn n.user)) seed in
      (
        (
          (rest.0).0,
          ap (then_turns (turns (λ a. receiver) (replicate clients success))) step ∙ (rest.0).1,
          (rest.0).2 ∙ ap (λ k. accepting i k ∷ []) (omega (arith, seed)),
          (rest.0).3 ∙ calls,
        ),
        (
          (rest.1).0,
          ap
                (then_turns
                  (turns (λ a. receiver) (replicate clients success ++ refused (suc ec) ∷ later)))
                step
              ∙ (rest.1).1,
          (rest.1).2,
          (rest.1).3 ∙ calls,
        ),
      )
