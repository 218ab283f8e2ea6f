-- ===== src/Net/Service/Slots.antt =====
-- `createConnector` and `getConnector` (net/netService.cpp) on the table of connectors.
use lobbysvr.Base.{
  ℕ, zero, suc, ◌+◌, ◌-◌, ◌<◌, ◌≡◌, ◌≢◌, refl, sym, ap, subst, ◌∙◌, false, List, [], ◌∷◌, ◌++◌,
  Option, none, some, arith, length, replicate, Option-cases, inl, inr, length-append,
  length-replicate,
}
use lobbysvr.Net.Receiver.{ConnectorFunctions, connector_register, clone, invoke_init}
use lobbysvr.Net.Service.{
  Connector, unresolved, Network, ServiceParams, ConnectorUserParams, slot, set_slot, grown,
  new_service, kept_receiver, get_connector, put_connector, new_connector, create_connector,
}

module _ {A : Type 0} where
  slot-replicate : (j k : ℕ) → slot j (replicate {A = Option A} k none) ≡ none
  unfolding slot
  slot-replicate j zero = refl
  slot-replicate zero (suc k) = refl
  slot-replicate (suc j) (suc k) = slot-replicate j k

  slot-append :
      (j k : ℕ) (slots : List (Option A)) → slot j (slots ++ replicate k none) ≡ slot j slots
  unfolding slot
  slot-append j k [] = slot-replicate j k
  slot-append zero k (a ∷ slots) = refl
  slot-append (suc j) k (a ∷ slots) = slot-append j k slots

  pub slot-grown : (i j : ℕ) (slots : List (Option A)) → slot j (grown i slots) ≡ slot j slots
  unfolding grown
  slot-grown i j slots = ground (arith, slot-append j (i + 1 - length slots) slots)

  pub length-grown : (i : ℕ) (slots : List (Option A)) → i < length (grown i slots)
  unfolding grown
  length-grown i slots = ground (
    arith,
    length-append slots (replicate (i + 1 - length slots) none),
    length-replicate {A = Option A} (i + 1 - length slots) none,
  )

  pub grown_long : (i : ℕ) (slots : List (Option A)) → i < length slots → grown i slots ≡ slots
  unfolding grown
  grown_long i slots h = ground arith

  pub length-set_slot :
      (i : ℕ) (a : A) (slots : List (Option A)) → length (set_slot i a slots) ≡ length slots
  unfolding set_slot
  length-set_slot i a [] = refl
  length-set_slot zero a (b ∷ slots) = refl
  length-set_slot (suc i) a (b ∷ slots) = ap suc (length-set_slot i a slots)

  pub slot-set_slot :
      (i : ℕ) (a : A) (slots : List (Option A))
      → i < length slots
      → slot i (set_slot i a slots) ≡ some a
  unfolding slot set_slot
  slot-set_slot i a [] h = absurd (omega arith)
  slot-set_slot zero a (b ∷ slots) h = refl
  slot-set_slot (suc i) a (b ∷ slots) h = slot-set_slot i a slots (omega arith)

  pub slot_below :
      (i : ℕ) (a : A) (slots : List (Option A)) → slot i slots ≡ some a → i < length slots
  unfolding slot
  slot_below i a [] e = cc
  slot_below zero a (b ∷ slots) e = omega arith
  slot_below (suc i) a (b ∷ slots) e = omega (arith, slot_below i a slots e)

  pub slot-set_slot_other :
      (i j : ℕ) (a : A) (slots : List (Option A))
      → j ≢ i
      → slot j (set_slot i a slots) ≡ slot j slots
  unfolding slot set_slot
  slot-set_slot_other i j a [] h = refl
  slot-set_slot_other zero zero a (b ∷ slots) h = absurd (h refl)
  slot-set_slot_other zero (suc j) a (b ∷ slots) h = refl
  slot-set_slot_other (suc i) zero a (b ∷ slots) h = refl
  slot-set_slot_other (suc i) (suc j) a (b ∷ slots) h =
      slot-set_slot_other i j a slots (λ e. h (ap suc e))

-- The connector that `createConnector` makes.
abbrev pub fresh_connector : ℕ → ServiceParams → ConnectorUserParams → Connector
fresh_connector i params user_params = record {
  service = record {
    index = i;
    ios = params.ios;
    update_time_ms = params.service_update_time_ms;
    keep_alive_time_ms = params.keep_alive_time_ms;
    updater = none;
    prev_time = 0;
    receiver_event_closed = false;
  };
  target_addr = user_params.addr;
  target_port = user_params.port;
  resolver = unresolved;
}

-- The connector that is there, or else the one that is made.
abbrev pub found_or_fresh :
    ℕ → ServiceParams → ConnectorUserParams → Option Connector → Option Connector
found_or_fresh i params user_params (some c) = some c
found_or_fresh i params user_params none = some (fresh_connector i params user_params)

module _ {U : Type 0} (f : ConnectorFunctions (Network U)) where
  create_old :
      (i : ℕ) (params : ServiceParams) (user_params : ConnectorUserParams) (n : Network U)
      (c : Connector)
      → get_connector i n ≡ some c
      → create_connector (connector_register f) i params user_params n
        ≡ some (record n { connectors = grown i n.connectors })
  unfolding create_connector get_connector
  create_old i params user_params n c e = ground (arith, slot-grown i i n.connectors)

  create_new :
      (i : ℕ) (params : ServiceParams) (user_params : ConnectorUserParams) (n m : Network U)
      → get_connector i n ≡ none
      → f.init_handler (record n { connectors = grown i n.connectors }) ≡ some m
      → create_connector (connector_register f) i params user_params n
        ≡ some (new_connector i params user_params m)
  unfolding create_connector get_connector connector_register kept_receiver clone invoke_init
  create_new i params user_params n m e h = ground (arith, slot-grown i i n.connectors)

  slot-new_connector :
      (i j : ℕ) (params : ServiceParams) (user_params : ConnectorUserParams) (n m : Network U)
      → m.connectors ≡ grown i n.connectors
      → j ≢ i
      → (get_connector i (new_connector i params user_params m)
          ≡ some (fresh_connector i params user_params))
        × (get_connector j (new_connector i params user_params m) ≡ get_connector j n)
        × (i < length (new_connector i params user_params m).connectors)
  unfolding new_connector get_connector put_connector new_service
  slot-new_connector i j params user_params n m e other =
      let c = fresh_connector i params user_params in
      let long = subst (λ slots. i < length slots) (sym e) (length-grown i n.connectors) in
      (
        slot-set_slot i c m.connectors long,
        slot-set_slot_other i j c m.connectors other ∙ ap (slot j) e ∙ slot-grown i j n.connectors,
        subst (λ k. i < k) (sym (length-set_slot i c m.connectors)) long,
      )

  create_again :
      (i : ℕ) (params : ServiceParams) (user_params : ConnectorUserParams) (n : Network U)
      (c : Connector)
      → get_connector i n ≡ some c
      → i < length n.connectors
      → create_connector (connector_register f) i params user_params n ≡ some n
  create_again i params user_params n c e h =
      create_old i params user_params n c e
      ∙ ap (λ slots. some (record n { connectors = slots })) (grown_long i n.connectors h)

  -- If `initHandler` returns and leaves the connectors alone, `createConnector` returns; `getConnector` then finds
  -- the connector that was under the index, or a new one if there was none; it finds what it found under each
  -- other index; and a second `createConnector` with any parameters changes nothing.
  pub create_connector-get_connector :
      (i j : ℕ)
      → (params params' : ServiceParams) → (user_params user_params' : ConnectorUserParams)
      → (n : Network U)
      → ((m : Network U)
          → (m' : Network U) × (f.init_handler m ≡ some m') × (m'.connectors ≡ m.connectors))
      → j ≢ i
      → (n' : Network U) × (create_connector (connector_register f) i params user_params n
          ≡ some n')
        × (get_connector i n' ≡ found_or_fresh i params user_params (get_connector i n))
        × (get_connector j n' ≡ get_connector j n)
        × (create_connector (connector_register f) i params' user_params' n' ≡ some n')
  unfolding get_connector
  create_connector-get_connector i j params params' user_params user_params' n init other =
      elim (Option-cases (get_connector i n)) [
        | inr (c, e) ↦
            let n' = record n { connectors = grown i n.connectors } in
            let kept = slot-grown i i n.connectors ∙ e in
            (
              n',
              create_old i params user_params n c e,
              kept ∙ ap (found_or_fresh i params user_params) (sym e),
              slot-grown i j n.connectors,
              create_again i params' user_params' n' c kept (length-grown i n.connectors),
            )
        | inl e ↦
            let (m, made, same) = init (record n { connectors = grown i n.connectors }) in
            let slots = slot-new_connector i j params user_params n m same other in
            (
              new_connector i params user_params m,
              create_new i params user_params n m e made,
              slots.0 ∙ ap (found_or_fresh i params user_params) (sym e),
              slots.1,
              create_again i params' user_params' (new_connector i params user_params m) _ slots.0
                  slots.2,
            )
      ]
