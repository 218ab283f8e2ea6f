-- ===== src/Lobby/Broker/Numbers.antt =====
-- The receiver of lobbysvr/brokerConnector.cpp and the identities of sessions.
use lobbysvr.Base.{ℕ, ◌%◌, Bool, List, Option, none, some, u16_mod}
use lobbysvr.Net.Memory.{Memory}
use lobbysvr.Net.Buffer.{MsgUserManip}
use lobbysvr.Net.Receiver.{FpDefault, connector_register, invoke, invoke_init}
use lobbysvr.Net.Service.{Connector, Network, get_connector}
use lobbysvr.Net.Service.Connects.{connect_wait}
use lobbysvr.Net.Service.Identity.{
  IsCallbackOf, accepts, connects, connect_fails, closes, expires, updates, IsNumbered, AfterSome,
  KeepsNumbers, connect_wait-IsNumbered,
}
use lobbysvr.Net.Service.Turns.{Answer}
use lobbysvr.Lobby.Json.{JsonLib}
use lobbysvr.Lobby.Broker.{
  Broker, UserPointer, broker_connector, delete_user_pointer, reserve_close, try_connect,
  on_connect, on_connect_failed, closed_user, on_close, broker_functions, broker_receiver,
}
use lobbysvr.Lobby.Broker.Reconnect.{receiver_in}

module _ (J : JsonLib) (m : Memory) (manip : MsgUserManip) (resolve : List ℕ → List ℕ → Option ℕ)
    (now : ℕ) where
  try_connect-AfterSome :
      (opens : Bool) (cnt workers : ℕ) (n : Network Broker)
      → IsNumbered n
      → AfterSome (try_connect J m manip resolve opens now cnt workers n)
  unfolding try_connect
  try_connect-AfterSome opens cnt workers n o = each (get_connector broker_connector n)
    where
      each :
          (found : Option Connector)
          → AfterSome (elim found [
            | none ↦ none
            | some c ↦
                some (connect_wait resolve opens now broker_connector (cnt % u16_mod) workers 0 c n)
          ])
      each none = tt
      each (some c) =
          connect_wait-IsNumbered resolve opens now broker_connector (cnt % u16_mod) workers 0 c n o

  closed_user-AfterSome :
      (opens : Bool) (conn : ℕ) (n : Network Broker) (pointer : Option UserPointer)
      → IsNumbered n
      → AfterSome (closed_user J m manip resolve opens now conn n pointer)
  unfolding closed_user
  closed_user-AfterSome opens conn n none o = tt
  closed_user-AfterSome opens conn n (some pointer) o =
      try_connect-AfterSome opens 1 0 _ (record { numbered = o.numbered; seeded = o.seeded })

  -- The receiver makes sessions only through `connectWait`.
  pub receiver_in-KeepsNumbers : (a : Answer) → KeepsNumbers (receiver_in J m manip resolve now a)
  unfolding broker_receiver broker_functions connector_register on_connect on_connect_failed
      on_close reserve_close invoke invoke_init
  receiver_in-KeepsNumbers a = record { kept = keeps; init_kept = λ n o. o }
    where
      keeps :
          (call : Option (FpDefault (Network Broker))) (arg : ℕ) (n : Network Broker)
          → IsCallbackOf (receiver_in J m manip resolve now a) call
          → IsNumbered n
          → AfterSome (invoke call arg n)
      keeps call arg n accepts o = tt
      keeps call arg n connects o = record { numbered = o.numbered; seeded = o.seeded }
      keeps call arg n connect_fails o = try_connect-AfterSome a.opens 1 0 n o
      keeps call arg n closes o =
          closed_user-AfterSome a.opens arg n (delete_user_pointer n.user.pointer) o
      keeps call arg n expires o = record { numbered = o.numbered; seeded = o.seeded }
      keeps call arg n updates o = o
