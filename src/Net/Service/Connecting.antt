-- ===== src/Net/Service/Connecting.antt =====
-- How many sessions `connectWait` makes (net/netServiceConnector.cpp).
use lobbysvr.Base.{
  ℕ, zero, suc, ◌+◌, ◌%◌, ◌<◌, ◌≡◌, refl, ap, ◌∙◌, true, List, [], ◌∷◌, ◌++◌, Option, some, arith,
  length, replicate, u16_mod, ltb, if◌then◌else◌,
}
use lobbysvr.Net.Receiver.{EventReceiver, FpDefault, invoke}
use lobbysvr.Net.Service.{
  ServiceImpl, Connector, Session, SessionState, started, connecting, Network, back, get_connector,
  put_connector, add_worker_threads, set_slot, create_session, new_session, pend, mark, set_state,
  u64_mod, expire_timer_ready,
}
use lobbysvr.Net.Service.Connects.{
  set_end_point, end_point, connecting_to, connect_implement, connect_handler, next_session,
  start_session, one_less, connect_wait,
}
use lobbysvr.Net.Service.Slots.{slot_below, slot-set_slot, length-set_slot}
use lobbysvr.Net.Service.Turns.{success, connected, complete, then_turns, turns}

one_less-suc : (remain : ℕ) → suc remain < u16_mod → one_less (suc remain) ≡ remain
unfolding one_less
one_less-suc remain h = omega arith

pub one_more : (seed k : ℕ) → seed + suc k < u64_mod → (seed + 1) % u64_mod ≡ seed + 1
one_more seed k h = omega arith

pub length-set_state :
    (conn : ℕ) (state : SessionState) (sessions : List Session)
    → length (set_state conn state sessions) ≡ length sessions
unfolding set_state
length-set_state conn state [] = refl
length-set_state conn state (session ∷ sessions) =
    ground (arith, length-set_state conn state sessions)

module _ {U : Type 0} where
  pub staffed_lem :
      (workers : ℕ) (n : Network U)
      → (if ltb 0 workers then (add_worker_threads workers n).1 else n)
        ≡ record n { threads = n.threads + workers }
  unfolding add_worker_threads
  staffed_lem zero n = ap (λ k. record n { threads = k }) (omega arith)
  staffed_lem (suc workers) n = ground arith

  -- What `connectWait` leaves behind when it has an endpoint and its socket opens.
  abbrev pub waiting :
      (now i session_cnt workers connection_id endpoint : ℕ) → Connector → Network U → Network U
  waiting now i session_cnt workers connection_id endpoint ready n = record n {
    threads = n.threads + workers;
    connectors =
        set_slot i (record ready { service = expire_timer_ready now ready.service })
          (set_slot i ready n.connectors);
    sessions = new_session ready.service connection_id n.identity_seed ∷ n.sessions;
    identity_seed = (n.identity_seed + 1) % u64_mod;
    pending = n.pending ++ connecting i endpoint n.identity_seed (one_less session_cnt) ∷ [];
  }

  pub connect_wait-waiting :
      (resolve : List ℕ → List ℕ → Option ℕ) (now i session_cnt workers connection_id endpoint : ℕ)
      (c : Connector) (n : Network U)
      → end_point (set_end_point resolve c.target_addr c.target_port c) ≡ some endpoint
      → connect_wait resolve true now i session_cnt workers connection_id c n
        ≡ waiting now i session_cnt workers connection_id endpoint
            (set_end_point resolve c.target_addr c.target_port c)
            n
  unfolding connect_wait connect_implement connecting_to start_session create_session pend
      put_connector
  connect_wait-waiting resolve now i session_cnt workers connection_id endpoint c n e =
      let ready = set_end_point resolve c.target_addr c.target_port c in
      ap (λ m. (connect_implement resolve true now i session_cnt connection_id c m).1)
        (staffed_lem workers n)
      ∙ ap
          (λ p.
            (connecting_to true now i session_cnt connection_id ready p
              (put_connector i ready (record n { threads = n.threads + workers }))).1)
          e

module _ {U : Type 0} (g : ℕ → U → U) where
  -- The application after `onConnect` for so many identities, from one on.
  abbrev pub all_connected : ℕ → ℕ → U → U
  all_connected conn zero u = u
  all_connected conn (suc k) u = all_connected (conn + 1) k (g conn u)

  -- What `onConnect` of the receiver does: it changes the application alone.
  abbrev pub tells : FpDefault (Network U)
  tells conn n = some (record n { user = g conn n.user })

  -- A session that is connected, when more are to be made.
  abbrev after_one : ServiceImpl → ℕ → ℕ → ℕ → ℕ → Network U → Network U
  after_one s i endpoint conn remain n = record n {
    sessions = new_session s 0 n.identity_seed ∷ set_state conn started n.sessions;
    identity_seed = (n.identity_seed + 1) % u64_mod;
    pending = n.pending ++ connecting i endpoint n.identity_seed remain ∷ [];
    user = g conn n.user;
  }

  connect_handler_more :
      (receiver : EventReceiver (Network U)) (s : ServiceImpl) (i endpoint conn remain : ℕ)
      (n : Network U)
      → receiver.on_connect ≡ some tells
      → suc remain < u16_mod
      → connect_handler receiver true true true 0 i s endpoint conn (suc remain) n
        ≡ back true (after_one s i endpoint conn remain n)
  unfolding connect_handler next_session start_session one_less create_session pend mark invoke
  connect_handler_more receiver s i endpoint conn remain n e h =
      ground (arith, e, one_less-suc remain h)

  pub connect_handler_last :
      (receiver : EventReceiver (Network U)) (s : ServiceImpl) (i endpoint conn : ℕ) (n : Network U)
      → receiver.on_connect ≡ some tells
      → connect_handler receiver true true true 0 i s endpoint conn 0 n
        ≡ back true
            (record n { sessions = set_state conn started n.sessions; user = g conn n.user })
  unfolding connect_handler next_session mark invoke
  connect_handler_last receiver s i endpoint conn n e =
      ap (λ f. next_session true i s endpoint 0 (invoke f conn (mark conn started n))) e

  -- The loop connects the session that is pending and as many more as are left to make.
  connecting_all :
      (receiver : EventReceiver (Network U)) (c : Connector) (i endpoint conn remain : ℕ)
      (n : Network U)
      → receiver.on_connect ≡ some tells
      → remain < u16_mod
      → n.identity_seed + remain < u64_mod
      → n.pending ≡ connecting i endpoint conn remain ∷ []
      → get_connector i n ≡ some c
      → (m : Network U) × (turns (λ a. receiver) (replicate (suc remain) success) n ≡ back true m)
        × (m.pending ≡ [])
        × (m.user ≡ all_connected n.identity_seed remain (g conn n.user))
        × (length m.sessions ≡ length n.sessions + remain)
        × (m.connectors ≡ n.connectors)
  unfolding turns complete connected then_turns get_connector
  connecting_all receiver c i endpoint conn zero n e lt wraps p at = (
    record n { pending = []; sessions = set_state conn started n.sessions; user = g conn n.user },
    ap (then_turns (λ m. back true m)) (
        ap (complete receiver success n) p
        ∙ ap (connected receiver success i endpoint conn 0 (record n { pending = [] })) at
        ∙ connect_handler_last receiver c.service i endpoint conn (record n { pending = [] }) e),
    refl,
    refl,
    omega (arith, length-set_state conn started n.sessions),
    refl,
  )
  connecting_all receiver c i endpoint conn (suc remain) n e lt wraps p at =
      let n0 = record n { pending = [] } in
      let m = after_one c.service i endpoint conn remain n0 in
      let seed = one_more n.identity_seed remain wraps in
      let rest =
        connecting_all receiver c i endpoint n.identity_seed remain m e (omega arith)
          (omega (arith, seed)) refl at in
      (
        rest.0,
        ap (then_turns (turns (λ a. receiver) (replicate (suc remain) success))) (
              ap (complete receiver success n) p
              ∙ ap (connected receiver success i endpoint conn (suc remain) n0) at
              ∙ connect_handler_more receiver c.service i endpoint conn remain n0 e lt)
            ∙ rest.1,
        rest.2,
        rest.3 ∙ ap (λ k. all_connected k remain (g n.identity_seed (g conn n.user))) seed,
        omega (arith, rest.4, length-set_state conn started n.sessions),
        rest.5,
      )

  -- With nothing pending, an endpoint and a number of sessions that fits, `connectWait` and as many turns of the loop
  -- in which everything succeeds make exactly that number of sessions and call `onConnect` once with each, in the
  -- order of their identities, if `onConnect` changes the application alone and the identities do not wrap.
  pub connect_wait-turns :
      (receiver : EventReceiver (Network U)) (resolve : List ℕ → List ℕ → Option ℕ)
      (now i session_cnt workers connection_id endpoint : ℕ) (c : Connector) (n : Network U)
      → receiver.on_connect ≡ some tells
      → end_point (set_end_point resolve c.target_addr c.target_port c) ≡ some endpoint
      → get_connector i n ≡ some c
      → n.pending ≡ []
      → 0 < session_cnt
      → session_cnt < u16_mod
      → n.identity_seed + session_cnt < u64_mod
      → (m : Network U) × (turns
            (λ a. receiver)
            (replicate session_cnt success)
            (connect_wait resolve true now i session_cnt workers connection_id c n)
          ≡ back true m)
        × (m.pending ≡ [])
        × (m.user ≡ all_connected n.identity_seed session_cnt n.user)
        × (length m.sessions ≡ length n.sessions + session_cnt)
  unfolding get_connector
  connect_wait-turns receiver resolve now i zero workers connection_id endpoint c n e ep at p pos
        fits wraps =
      absurd (omega arith)
  connect_wait-turns receiver resolve now i (suc more) workers connection_id endpoint c n e ep at p
        pos fits wraps =
      let ready = set_end_point resolve c.target_addr c.target_port c in
      let armed = record ready { service = expire_timer_ready now ready.service } in
      let w = waiting now i (suc more) workers connection_id endpoint ready n in
      let seed = one_more n.identity_seed more wraps in
      let long = slot_below i c n.connectors at in
      let run =
        connecting_all receiver armed i endpoint n.identity_seed more w e (omega arith)
          (omega (arith, seed))
          (ap (λ ops. ops ++ connecting i endpoint n.identity_seed (one_less (suc more)) ∷ []) p
            ∙ ap (λ r. connecting i endpoint n.identity_seed r ∷ []) (one_less-suc more fits))
          (slot-set_slot i armed (set_slot i ready n.connectors)
            (omega (arith, long, length-set_slot i ready n.connectors))) in
      (
        run.0,
        ap (turns (λ a. receiver) (replicate (suc more) success))
              (connect_wait-waiting resolve now i (suc more) workers connection_id endpoint c n ep)
            ∙ run.1,
        run.2,
        run.3 ∙ ap (λ k. all_connected k more (g n.identity_seed n.user)) seed,
        omega (arith, run.4),
      )
