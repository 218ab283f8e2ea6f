-- ===== src/Net/Service/Identity.antt =====
-- The identities of sessions (`s_identitySeed` of net/connectionImpl.cpp) under the operations of the services.
pub mod Steps
use lobbysvr.Base.{
  ℕ, zero, suc, ◌+◌, ◌%◌, ◌<◌, ◌≤◌, ◌≡◌, ◌≢◌, refl, sym, ap, ap₂, subst, ◌∙◌, Bool, true, false,
  not, List, [], ◌∷◌, ◌++◌, Option, none, some, arith, length, map, ltb, ◌==◌, ◌&&◌, if◌then◌else◌,
}
use lobbysvr.Net.Receiver.{EventReceiver, FpDefault, FpInitHandler, invoke, invoke_init}
use lobbysvr.Net.Service.{
  ServiceImpl, Connector, Session, SessionState, created, started, shut, Operation, Network, Called,
  back, threw, create_session, new_session, pend, mark, set_state, u64_mod, null_call,
  put_connector,
}
use lobbysvr.Net.Service.Connects.{
  start_session, connecting_to, connect_implement, connect_wait, set_end_point, end_point,
  next_session, one_less, connect_failed, connect_handler,
}
use lobbysvr.Net.Service.Accepts.{accept_next, accepted, accept_handler}
use lobbysvr.Net.Service.Connecting.{staffed_lem, length-set_state}

abbrev pub identities : List Session → List ℕ
identities [] = []
identities (session ∷ sessions) = session.identity ∷ identities sessions

-- The numbers that the seed has given out, the last one first.
abbrev given_out : ℕ → List ℕ
given_out zero = []
given_out (suc k) = ((k + 1) % u64_mod) ∷ given_out k

abbrev pub Absent : ℕ → List ℕ → Type 0
Absent i [] = Unit {0}
Absent i (j ∷ js) = (i ≢ j) × Absent i js

abbrev pub AreDistinct : List ℕ → Type 0
AreDistinct [] = Unit {0}
AreDistinct (i ∷ is) = Absent i is × AreDistinct is

identities-set_state :
    (conn : ℕ) (state : SessionState) (sessions : List Session)
    → identities (set_state conn state sessions) ≡ identities sessions
unfolding set_state
identities-set_state conn state [] = refl
identities-set_state conn state (session ∷ sessions) =
    ground (arith, identities-set_state conn state sessions)

Absent-given_out : (i k : ℕ) → k < i → i < u64_mod → Absent i (given_out k)
Absent-given_out i zero lt h = tt
Absent-given_out i (suc k) lt h = ((λ e. omega (arith, e)), Absent-given_out i k (omega arith) h)

given_out-AreDistinct : (k : ℕ) → k < u64_mod → AreDistinct (given_out k)
given_out-AreDistinct zero h = tt
given_out-AreDistinct (suc k) h = (
  subst (λ i. Absent i (given_out k)) (small k h)
      (Absent-given_out (k + 1) k (omega arith) (omega arith)),
  given_out-AreDistinct k (omega arith),
)
  where
    small : (k : ℕ) → suc k < u64_mod → k + 1 ≡ (k + 1) % u64_mod
    small k h = omega arith

-- The pointers that are called with a connection or a time.
pub data IsCallbackOf {W : Type 0} (r : EventReceiver W) : Option (FpDefault W) → Type 0 where
  accepts : IsCallbackOf r r.on_accept
  connects : IsCallbackOf r r.on_connect
  connect_fails : IsCallbackOf r r.on_connect_failed
  closes : IsCallbackOf r r.on_close
  expires : IsCallbackOf r r.on_expired_session
  updates : IsCallbackOf r r.on_update

module _ {U : Type 0} where
  -- The sessions have the numbers that were given out, and the seed is the next one.
  pub record IsNumbered (n : Network U) : Type 0 where
    pub numbered : identities n.sessions ≡ given_out (length n.sessions)
    pub seeded : n.identity_seed ≡ (length n.sessions + 1) % u64_mod

  -- It holds of the state that a call leaves, if it leaves one.
  abbrev pub After : Called U → Type 0
  After (back b n) = IsNumbered n
  After (threw n) = IsNumbered n
  After null_call = Unit {0}

  abbrev pub AfterSome : Option (Network U) → Type 0
  AfterSome none = Unit {0}
  AfterSome (some n) = IsNumbered n

  -- Each callback of the receiver keeps the numbers.
  pub record KeepsNumbers (r : EventReceiver (Network U)) : Type 0 where
    pub kept :
        (call : Option (FpDefault (Network U))) (arg : ℕ) (n : Network U)
        → IsCallbackOf r call
        → IsNumbered n
        → AfterSome (invoke call arg n)
    pub init_kept : (n : Network U) → IsNumbered n → AfterSome (invoke_init r.init_handler n)

  if-After : (b : Bool) (x y : Called U) → After x → After y → After (if b then x else y)
  if-After true x y p q = p
  if-After false x y p q = q

  create_session-IsNumbered :
      (s : ServiceImpl) (connection_id : ℕ) (n : Network U)
      → IsNumbered n
      → IsNumbered (create_session s connection_id n)
  unfolding create_session new_session
  create_session-IsNumbered s connection_id n o = record {
    numbered = ap₂ (λ i is. i ∷ is) o.seeded o.numbered;
    seeded = omega (arith, o.seeded);
  }

  mark-IsNumbered :
      (conn : ℕ) (state : SessionState) (n : Network U)
      → IsNumbered n
      → IsNumbered (mark conn state n)
  unfolding mark
  mark-IsNumbered conn state n o = record {
    numbered =
        identities-set_state conn state n.sessions
        ∙ o.numbered
        ∙ ap given_out (sym (length-set_state conn state n.sessions));
    seeded = omega (arith, o.seeded, length-set_state conn state n.sessions);
  }

  start_session-IsNumbered :
      (opens : Bool) (connection_id : ℕ) (s : ServiceImpl) (i endpoint remain : ℕ) (n : Network U)
      → IsNumbered n
      → IsNumbered (start_session opens connection_id s i endpoint remain n).1
  unfolding start_session pend
  start_session-IsNumbered true connection_id s i endpoint remain n o =
      let c = create_session-IsNumbered s connection_id n o in
      record { numbered = c.numbered; seeded = c.seeded }
  start_session-IsNumbered false connection_id s i endpoint remain n o =
      create_session-IsNumbered s connection_id n o

  connecting_to-IsNumbered :
      (opens : Bool) (now i session_cnt connection_id : ℕ) (c : Connector) (place : Option ℕ)
      (n : Network U)
      → IsNumbered n
      → IsNumbered (connecting_to opens now i session_cnt connection_id c place n).1
  unfolding connecting_to start_session put_connector pend
  connecting_to-IsNumbered opens now i session_cnt connection_id c none n o = o
  connecting_to-IsNumbered true now i session_cnt connection_id c (some endpoint) n o =
      let made = create_session-IsNumbered c.service connection_id n o in
      record { numbered = made.numbered; seeded = made.seeded }
  connecting_to-IsNumbered false now i session_cnt connection_id c (some endpoint) n o =
      create_session-IsNumbered c.service connection_id n o

  pub connect_wait-IsNumbered :
      (resolve : List ℕ → List ℕ → Option ℕ) (opens : Bool)
      (now i session_cnt workers connection_id : ℕ) (c : Connector) (n : Network U)
      → IsNumbered n
      → IsNumbered (connect_wait resolve opens now i session_cnt workers connection_id c n)
  unfolding connect_wait connect_implement put_connector
  connect_wait-IsNumbered resolve opens now i session_cnt workers connection_id c n o =
      subst
        (λ m. IsNumbered (connect_implement resolve opens now i session_cnt connection_id c m).1)
        (sym (staffed_lem workers n))
        (let ready = set_end_point resolve c.target_addr c.target_port c in
          connecting_to-IsNumbered opens now i session_cnt connection_id ready (end_point ready)
            (put_connector i ready (record n { threads = n.threads + workers }))
            (record { numbered = o.numbered; seeded = o.seeded }))

  next_session-After :
      (opens : Bool) (i : ℕ) (s : ServiceImpl) (endpoint remain : ℕ) (called : Option (Network U))
      → AfterSome called
      → After (next_session opens i s endpoint remain called)
  unfolding next_session
  next_session-After opens i s endpoint remain none o = tt
  next_session-After opens i s endpoint remain (some n) o =
      if-After (ltb 0 remain) _ _
        (start_session-IsNumbered opens 0 s i endpoint (one_less remain) n o) o

  connect_failed-After :
      (called : Option (Network U)) → AfterSome called → After (connect_failed called)
  unfolding connect_failed
  connect_failed-After none o = tt
  connect_failed-After (some n) o = o

  accepted-After :
      (starts : Bool) (i : ℕ) (s : ServiceImpl) (conn : ℕ) (called : Option (Network U))
      → AfterSome called
      → After (accepted starts i s conn called)
  unfolding accepted accept_next pend
  accepted-After starts i s conn none o = tt
  accepted-After starts i s conn (some n) o =
      let next =
        create_session-IsNumbered s 0 (mark conn started n) (mark-IsNumbered conn started n o) in
      if-After starts _ _ (record { numbered = next.numbered; seeded = next.seeded }) o

  connect_handler-After :
      (r : EventReceiver (Network U)) (is_open starts opens : Bool) (ec i : ℕ) (s : ServiceImpl)
      (endpoint conn remain : ℕ) (n : Network U)
      → KeepsNumbers r
      → IsNumbered n
      → After (connect_handler r is_open starts opens ec i s endpoint conn remain n)
  unfolding connect_handler
  connect_handler-After r is_open starts opens ec i s endpoint conn remain n k o =
      if-After (is_open && ec == 0) _ _
        (if-After starts _ _
          (next_session-After opens i s endpoint remain _ (
            k.kept r.on_connect conn (mark conn started n) connects
              (mark-IsNumbered conn started n o)))
          o)
        (connect_failed-After _ (
          k.kept r.on_connect_failed conn (mark conn shut n) connect_fails
            (mark-IsNumbered conn shut n o)))

  accept_handler-After :
      (r : EventReceiver (Network U)) (starts : Bool) (ec i : ℕ) (s : ServiceImpl) (conn : ℕ)
      (n : Network U)
      → KeepsNumbers r
      → IsNumbered n
      → After (accept_handler r starts ec i s conn n)
  unfolding accept_handler
  accept_handler-After r starts ec i s conn n k o =
      if-After (ec == 0) _ _
        (accepted-After starts i s conn _ (k.kept r.on_accept conn n accepts o)) o
