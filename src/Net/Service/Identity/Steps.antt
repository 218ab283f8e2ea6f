-- ===== src/Net/Service/Identity/Steps.antt =====
-- The identities of sessions under any operations of the services (net/netService.cpp), in any order.
use lobbysvr.Base.{
  ℕ, ◌<◌, ◌≡◌, sym, ap, subst, ◌∙◌, Bool, true, false, List, [], Option, none, some, arith, length,
}
use lobbysvr.Net.Receiver.{EventReceiver, clone, invoke, FpDefault}
use lobbysvr.Net.Service.{
  ServiceImpl, Connector, Operation, Network, back, threw, ServiceParams, ConnectorUserParams,
  AcceptorUserParams, slot, grown, new_connector, create_connector, kept_receiver, put_connector,
  put_acceptor, new_service, add_worker_threads, pend, u64_mod,
}
use lobbysvr.Net.Service.Connects.{connect_handler, connect_wait}
use lobbysvr.Net.Service.Accepts.{
  accept_handler, create_acceptor, new_acceptor, accept_wait, accept_next,
}
use lobbysvr.Net.Service.Identity.{
  identities, given_out, AreDistinct, given_out-AreDistinct, IsCallbackOf, IsNumbered, After,
  AfterSome, KeepsNumbers, if-After, create_session-IsNumbered, connect_wait-IsNumbered,
  connect_handler-After, accept_handler-After,
}
use lobbysvr.Net.Service.Turns.{Answer}

module _ {U : Type 0} where
  created-AfterSome :
      (i : ℕ) (params : ServiceParams) (user_params : ConnectorUserParams) (sized : Network U)
      (found : Option Connector) (called : Option (Network U))
      → IsNumbered sized
      → AfterSome called
      → AfterSome (elim found [
        | some c ↦ some sized
        | none ↦ elim called [ none ↦ none | some m ↦ some (new_connector i params user_params m) ]
      ])
  unfolding new_connector put_connector
  created-AfterSome i params user_params sized (some c) called o p = o
  created-AfterSome i params user_params sized none none o p = tt
  created-AfterSome i params user_params sized none (some m) o p = record {
    numbered = p.numbered;
    seeded = p.seeded;
  }

  create_connector-AfterSome :
      (r : EventReceiver (Network U)) (i : ℕ) (params : ServiceParams)
      (user_params : ConnectorUserParams) (n : Network U)
      → KeepsNumbers r
      → IsNumbered n
      → AfterSome (create_connector r i params user_params n)
  unfolding create_connector kept_receiver clone
  create_connector-AfterSome r i params user_params n k o =
      let sized = record n { connectors = grown i n.connectors } in
      let p : IsNumbered sized = record { numbered = o.numbered; seeded = o.seeded } in
      created-AfterSome i params user_params sized (slot i sized.connectors) _ p
        (k.init_kept sized p)

  new_acceptor-After :
      (hardware_concurrency : ℕ) (ready : Bool) (now i : ℕ) (params : ServiceParams)
      (user_params : AcceptorUserParams) (called : Option (Network U))
      → AfterSome called
      → After (new_acceptor hardware_concurrency ready now i params user_params called)
  unfolding new_acceptor put_acceptor accept_wait accept_next pend add_worker_threads
  new_acceptor-After hardware_concurrency ready now i params user_params none o = tt
  new_acceptor-After hardware_concurrency ready now i params user_params (some n) o =
      let s = new_service params i in
      let filled = put_acceptor i s n in
      let p : IsNumbered filled = record { numbered = o.numbered; seeded = o.seeded } in
      let made = create_session-IsNumbered s 0 filled p in
      if-After ready _ _ (record { numbered = made.numbered; seeded = made.seeded }) p

  acceptor-After :
      (hardware_concurrency : ℕ) (ready : Bool) (now i : ℕ) (params : ServiceParams)
      (user_params : AcceptorUserParams) (sized : Network U) (found : Option ServiceImpl)
      (called : Option (Network U))
      → IsNumbered sized
      → AfterSome called
      → After (elim found [
        | some s ↦ back true sized
        | none ↦ new_acceptor hardware_concurrency ready now i params user_params called
      ])
  acceptor-After hardware_concurrency ready now i params user_params sized (some s) called o p = o
  acceptor-After hardware_concurrency ready now i params user_params sized none called o p =
      new_acceptor-After hardware_concurrency ready now i params user_params called p

  create_acceptor-After :
      (hardware_concurrency : ℕ) (r : EventReceiver (Network U)) (ready : Bool) (now i : ℕ)
      (params : ServiceParams) (user_params : AcceptorUserParams) (n : Network U)
      → KeepsNumbers r
      → IsNumbered n
      → After (create_acceptor hardware_concurrency r ready now i params user_params n)
  unfolding create_acceptor kept_receiver clone
  create_acceptor-After hardware_concurrency r ready now i params user_params n k o =
      let sized = record n { acceptors = grown i n.acceptors } in
      let p : IsNumbered sized = record { numbered = o.numbered; seeded = o.seeded } in
      acceptor-After hardware_concurrency ready now i params user_params sized
        (slot i sized.acceptors) _ p (k.init_kept sized p)

  -- One operation; `ra` and `rc` are the receivers of the acceptors and of the connectors.
  module _ (ra rc : Answer → EventReceiver (Network U)) where
    pub data Step : Network U → Network U → Type 0 where
      -- The event loop takes an operation, or threads start or end.
      takes : {n : Network U} (ops : List Operation) → Step n (record n { pending = ops })
      staffs : {n : Network U} (threads : ℕ) → Step n (record n { threads = threads })
      creates_connector :
          {n n' : Network U} (a : Answer) (i : ℕ) (params : ServiceParams)
          (user_params : ConnectorUserParams)
          → create_connector (rc a) i params user_params n ≡ some n'
          → Step n n'
      creates_acceptor :
          {n n' : Network U} (a : Answer) (b : Bool) (hardware_concurrency now i : ℕ)
          (params : ServiceParams) (user_params : AcceptorUserParams)
          → create_acceptor hardware_concurrency (ra a) true now i params user_params n ≡ back b n'
          → Step n n'
      creates_and_throws :
          {n n' : Network U} (a : Answer) (hardware_concurrency now i : ℕ) (params : ServiceParams)
          (user_params : AcceptorUserParams)
          → create_acceptor hardware_concurrency (ra a) false now i params user_params n ≡ threw n'
          → Step n n'
      waits :
          {n : Network U} (resolve : List ℕ → List ℕ → Option ℕ) (opens : Bool)
          (now i session_cnt workers connection_id : ℕ) (c : Connector)
          → Step n (connect_wait resolve opens now i session_cnt workers connection_id c n)
      connects_session :
          {n n' : Network U} (a : Answer) (b : Bool) (i : ℕ) (s : ServiceImpl)
          (endpoint conn remain : ℕ)
          → connect_handler (rc a) a.is_open a.starts a.opens a.ec i s endpoint conn remain n
            ≡ back b n'
          → Step n n'
      accepts_session :
          {n n' : Network U} (a : Answer) (b : Bool) (i : ℕ) (s : ServiceImpl) (conn : ℕ)
          → accept_handler (ra a) a.starts a.ec i s conn n ≡ back b n'
          → Step n n'
      calls_acceptor :
          {n n' : Network U} (a : Answer) (call : Option (FpDefault (Network U))) (arg : ℕ)
          → IsCallbackOf (ra a) call
          → invoke call arg n ≡ some n'
          → Step n n'
      calls_connector :
          {n n' : Network U} (a : Answer) (call : Option (FpDefault (Network U))) (arg : ℕ)
          → IsCallbackOf (rc a) call
          → invoke call arg n ≡ some n'
          → Step n n'

    pub data Steps (n : Network U) : Network U → Type 0 where
      here : Steps n n
      next : {m m' : Network U} → Steps n m → Step m m' → Steps n m'

    module _ (ka : (a : Answer) → KeepsNumbers (ra a))
        (kc : (a : Answer) → KeepsNumbers (rc a)) where
      Step-IsNumbered : {n n' : Network U} → Step n n' → IsNumbered n → IsNumbered n'
      Step-IsNumbered (takes ops) o = record { numbered = o.numbered; seeded = o.seeded }
      Step-IsNumbered (staffs threads) o = record { numbered = o.numbered; seeded = o.seeded }
      Step-IsNumbered {n} (creates_connector a i params user_params e) o =
          subst AfterSome e (create_connector-AfterSome (rc a) i params user_params n (kc a) o)
      Step-IsNumbered {n} (creates_acceptor a b hc now i params user_params e) o =
          subst After e (create_acceptor-After hc (ra a) true now i params user_params n (ka a) o)
      Step-IsNumbered {n} (creates_and_throws a hc now i params user_params e) o =
          subst After e (create_acceptor-After hc (ra a) false now i params user_params n (ka a) o)
      Step-IsNumbered {n} (waits resolve opens now i session_cnt workers connection_id c) o =
          connect_wait-IsNumbered resolve opens now i session_cnt workers connection_id c n o
      Step-IsNumbered {n} (connects_session a b i s endpoint conn remain e) o = subst After e (
          connect_handler-After (rc a) a.is_open a.starts a.opens a.ec i s endpoint conn remain n
            (kc a) o)
      Step-IsNumbered {n} (accepts_session a b i s conn e) o =
          subst After e (accept_handler-After (ra a) a.starts a.ec i s conn n (ka a) o)
      Step-IsNumbered {n} (calls_acceptor a call arg is e) o =
          subst AfterSome e ((ka a).kept call arg n is o)
      Step-IsNumbered {n} (calls_connector a call arg is e) o =
          subst AfterSome e ((kc a).kept call arg n is o)

      Steps-IsNumbered : {n n' : Network U} → Steps n n' → IsNumbered n → IsNumbered n'
      Steps-IsNumbered here o = o
      Steps-IsNumbered (next steps step) o = Step-IsNumbered step (Steps-IsNumbered steps o)

      -- Whatever operations of acceptors and connectors run, in whatever order, no two sessions made since the start
      -- have the same identity, if fewer than 2 ^ 64 were made and no callback of a receiver makes or renumbers
      -- sessions other than through these operations.
      pub Steps-AreDistinct :
          (n n' : Network U)
          → n.sessions ≡ []
          → n.identity_seed ≡ 1
          → Steps n n'
          → length n'.sessions < u64_mod
          → AreDistinct (identities n'.sessions)
      Steps-AreDistinct n n' none_yet one steps h =
          let start : IsNumbered n = record {
            numbered =
                ap identities none_yet
                ∙ sym (ap (λ sessions. given_out (length sessions)) none_yet);
            seeded = omega (arith, one, ap length none_yet);
          } in
          let o = Steps-IsNumbered steps start in
          subst AreDistinct (sym o.numbered) (given_out-AreDistinct (length n'.sessions) h)
