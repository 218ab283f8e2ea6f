-- ===== src/Net/Service/EndPoint.antt =====
-- `setEndPoint` resolves once (net/netServiceConnector.cpp): what later targets and later attempts come to.
use lobbysvr.Base.{ℕ, ◌+◌, ◌≡◌, refl, ap, ◌∙◌, Bool, List, [], ◌∷◌, Option, none, some, arith}
use lobbysvr.Net.Service.{
  Connector, unresolved, at_end, Network, get_connector, put_connector, slot, set_slot,
}
use lobbysvr.Net.Service.Slots.{slot_below, slot-set_slot, length-set_slot}
use lobbysvr.Net.Service.Connecting.{staffed_lem}
use lobbysvr.Net.Service.Connects.{
  set_target_server, target_ip, resolved, set_end_point, end_point, connecting_to,
  connect_implement, connect_wait,
}

-- `setTargetServer` and then `connectWait`, with what the operating system answers to the call.
pub record Attempt : Type 0 where
  pub addr : List ℕ
  pub port : List ℕ
  pub session_cnt : ℕ
  pub workers : ℕ
  pub connection_id : ℕ
  pub resolve : List ℕ → List ℕ → Option ℕ
  pub opens : Bool
  pub now : ℕ

end_point-at_end : (c : Connector) → c.resolver ≡ at_end → end_point c ≡ none
unfolding end_point
end_point-at_end c e = ground (arith, e)

set_end_point-unresolved :
    (resolve : List ℕ → List ℕ → Option ℕ) (addr port : List ℕ) (c : Connector)
    → c.resolver ≡ unresolved
    → resolve (target_ip addr) port ≡ none
    → (set_end_point resolve addr port c).resolver ≡ at_end
unfolding set_end_point resolved
set_end_point-unresolved resolve addr port c e none_found = ground (arith, e, none_found)

set_end_point-at_end :
    (resolve : List ℕ → List ℕ → Option ℕ) (addr port : List ℕ) (c : Connector)
    → c.resolver ≡ at_end
    → (set_end_point resolve addr port c).resolver ≡ at_end
unfolding set_end_point
set_end_point-at_end resolve addr port c e = ground (arith, e)

module _ {U : Type 0} where
  attempt_by : ℕ → Attempt → Network U → Option Connector → Network U
  attempt_by i a n none = n
  attempt_by i a n (some c) =
      let aimed = set_target_server a.addr a.port c in
      connect_wait a.resolve a.opens a.now i a.session_cnt a.workers a.connection_id aimed
        (put_connector i aimed n)

  unfoldable pub attempt : ℕ → Attempt → Network U → Network U
  unfolding attempt_by
  attempt i a n = attempt_by i a n (get_connector i n)

  unfoldable pub attempts : ℕ → List Attempt → Network U → Network U
  attempts i [] n = n
  attempts i (a ∷ rest) n = attempts i rest (attempt i a n)

  -- The connector's iterator is at the end.
  pub record IsStuck (i : ℕ) (n : Network U) : Type 0 where
    pub connector : Connector
    pub there : get_connector i n ≡ some connector
    pub ended : connector.resolver ≡ at_end

  connect_wait_stuck :
      (a : Attempt) (i : ℕ) (c : Connector) (n : Network U)
      → end_point (set_end_point a.resolve c.target_addr c.target_port c) ≡ none
      → connect_wait a.resolve a.opens a.now i a.session_cnt a.workers a.connection_id c n
        ≡ record n {
          threads = n.threads + a.workers;
          connectors =
              set_slot i (set_end_point a.resolve c.target_addr c.target_port c) n.connectors;
        }
  unfolding connect_wait connect_implement connecting_to put_connector
  connect_wait_stuck a i c n e =
      let ready = set_end_point a.resolve c.target_addr c.target_port c in
      ap (λ m. (connect_implement a.resolve a.opens a.now i a.session_cnt a.connection_id c m).1)
        (staffed_lem a.workers n)
      ∙ ap
          (λ p.
            (connecting_to a.opens a.now i a.session_cnt a.connection_id ready p
              (put_connector i ready (record n { threads = n.threads + a.workers }))).1)
          e

  attempt-IsStuck :
      (a : Attempt) (i : ℕ) (n : Network U) (c : Connector)
      → get_connector i n ≡ some c
      → (set_end_point a.resolve a.addr a.port (set_target_server a.addr a.port c)).resolver
        ≡ at_end
      → IsStuck i (attempt i a n)
        × ((attempt i a n).sessions ≡ n.sessions)
        × ((attempt i a n).pending ≡ n.pending)
  unfolding attempt attempt_by set_target_server put_connector get_connector
  attempt-IsStuck a i n c at e =
      let aimed = set_target_server a.addr a.port c in
      let ready = set_end_point a.resolve a.addr a.port aimed in
      let run =
        ap (attempt_by i a n) at
        ∙ connect_wait_stuck a i aimed (put_connector i aimed n) (end_point-at_end ready e) in
      let long = slot_below i c n.connectors at in
      (
        record {
          connector = ready;
          there =
              ap (λ m. slot i m.connectors) run
              ∙ slot-set_slot i ready (set_slot i aimed n.connectors)
                  (omega (arith, long, length-set_slot i aimed n.connectors));
          ended = e;
        },
        ap (λ m. m.sessions) run,
        ap (λ m. m.pending) run,
      )

  attempts_stuck :
      (rest : List Attempt) (i : ℕ) (n : Network U)
      → IsStuck i n
      → ((attempts i rest n).sessions ≡ n.sessions) × ((attempts i rest n).pending ≡ n.pending)
  unfolding attempts set_target_server
  attempts_stuck [] i n stuck = (refl, refl)
  attempts_stuck (a ∷ rest) i n stuck =
      let c = stuck.connector in
      let step = attempt-IsStuck a i n c stuck.there (
        set_end_point-at_end a.resolve a.addr a.port (set_target_server a.addr a.port c)
          stuck.ended) in
      let later = attempts_stuck rest i (attempt i a n) step.0 in
      (later.0 ∙ step.1, later.1 ∙ step.2)

  -- When the first attempt of a connector finds no endpoint for its target, neither it nor any later attempt makes a
  -- session or starts to connect, whatever target they are given and whatever the resolver would then find.
  pub attempts-unresolved :
      (a : Attempt) (rest : List Attempt) (i : ℕ) (c : Connector) (n : Network U)
      → get_connector i n ≡ some c
      → c.resolver ≡ unresolved
      → a.resolve (target_ip a.addr) a.port ≡ none
      → ((attempts i (a ∷ rest) n).sessions ≡ n.sessions)
        × ((attempts i (a ∷ rest) n).pending ≡ n.pending)
  unfolding attempts set_target_server
  attempts-unresolved a rest i c n at e none_found =
      let step = attempt-IsStuck a i n c at (
        set_end_point-unresolved a.resolve a.addr a.port (set_target_server a.addr a.port c) e
          none_found) in
      let later = attempts_stuck rest i (attempt i a n) step.0 in
      (later.0 ∙ step.1, later.1 ∙ step.2)
