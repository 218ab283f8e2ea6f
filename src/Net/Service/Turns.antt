-- ===== src/Net/Service/Turns.antt =====
-- The event loop and the connectors and acceptors (net/netServiceConnector.cpp, net/netServiceAcceptor.cpp): the loop
-- completes the operation that was given to it first, or one at a position, with an answer of the operating system.
use lobbysvr.Base.{
  ℕ, zero, suc, ◌≡◌, refl, ap, ◌++◌, length, Bool, true, false, List, [], ◌∷◌, Option, none, some,
}
use lobbysvr.Net.Receiver.{EventReceiver}
use lobbysvr.Net.Service.{
  ServiceImpl, Connector, Operation, accepting, connecting, Network, Called, back, threw, null_call,
  get_acceptor, get_connector,
}
use lobbysvr.Net.Service.Connects.{connect_handler}
use lobbysvr.Net.Service.Accepts.{accept_handler}

-- What a handler is called with, and how the calls on sockets within it end.
pub record Answer : Type 0 where
  pub is_open : Bool
  pub starts : Bool
  pub opens : Bool
  pub ec : ℕ

abbrev pub success : Answer
success = record { is_open = true; starts = true; opens = true; ec = 0 }

abbrev pub refused : ℕ → Answer
refused ec = record { is_open = true; starts = true; opens = true; ec = ec }

-- The operation at a position moved to the front.
behind : Operation → List Operation → List Operation
behind op [] = op ∷ []
behind op (first ∷ ops) = first ∷ op ∷ ops

unfoldable pub to_front : ℕ → List Operation → List Operation
unfolding behind
to_front zero ops = ops
to_front (suc k) [] = []
to_front (suc k) (op ∷ ops) = behind op (to_front k ops)

pub to_front-last :
    (ops : List Operation) (op : Operation) → to_front (length ops) (ops ++ op ∷ []) ≡ op ∷ ops
unfolding to_front behind
to_front-last [] op = refl
to_front-last (first ∷ ops) op = ap (behind first) (to_front-last ops op)

module _ {U : Type 0} where
  unfoldable pub connected :
      EventReceiver (Network U)
      → Answer
      → (i endpoint conn remain : ℕ) → Network U
      → Option Connector
      → Called U
  connected receiver a i endpoint conn remain n none = null_call
  connected receiver a i endpoint conn remain n (some c) =
      connect_handler receiver a.is_open a.starts a.opens a.ec i c.service endpoint conn remain n

  unfoldable pub has_accepted :
      EventReceiver (Network U) → Answer → (i conn : ℕ) → Network U → Option ServiceImpl → Called U
  has_accepted receiver a i conn n none = null_call
  has_accepted receiver a i conn n (some s) = accept_handler receiver a.starts a.ec i s conn n

  unfoldable pub complete :
      EventReceiver (Network U) → Answer → Network U → List Operation → Called U
  complete receiver a n [] = back false n
  complete receiver a n (accepting i conn ∷ ops) =
      let m = record n { pending = ops } in has_accepted receiver a i conn m (get_acceptor i m)
  complete receiver a n (connecting i endpoint conn remain ∷ ops) =
      let m = record n { pending = ops } in
      connected receiver a i endpoint conn remain m (get_connector i m)

  unfoldable pub then_turns : (Network U → Called U) → Called U → Called U
  then_turns next (back b n) = next n
  then_turns next (threw n) = threw n
  then_turns next null_call = null_call

  -- One turn for each answer; the receiver of the service may differ from turn to turn.
  unfoldable pub turns : (Answer → EventReceiver (Network U)) → List Answer → Network U → Called U
  turns receiver [] n = back true n
  turns receiver (a ∷ answers) n =
      then_turns (turns receiver answers) (complete (receiver a) a n n.pending)

  -- One turn for each answer, each of which completes the operation at the position `k`.
  unfoldable pub turns_at :
      (Answer → EventReceiver (Network U)) → ℕ → List Answer → Network U → Called U
  unfolding to_front
  turns_at receiver k [] n = back true n
  turns_at receiver k (a ∷ answers) n =
      then_turns (turns_at receiver k answers) (complete (receiver a) a n (to_front k n.pending))
