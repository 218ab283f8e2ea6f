-- ===== src/Net/Receiver.antt =====
-- net/eventReceiver.h: `EventReceiver`, the table of callbacks that a service calls, and the two templates that
-- fill it from a class of static functions. A null function pointer is `none`; a callback acts on a world `W`, and
-- gives `none` where it runs into a null pointer itself. A connection is named by its identity.
use lobbysvr.Base.{ℕ, Option, none, some}
use lobbysvr.Net.Buffer.{MessageBuffer}

abbrev pub FpDefault : Type 0 → Type 0
FpDefault W = ℕ → W → Option W

abbrev pub FpUpdate : Type 0 → Type 0
FpUpdate W = ℕ → W → Option W

abbrev pub FpNoHandler : Type 0 → Type 0
FpNoHandler W = ℕ → MessageBuffer → W → Option W

abbrev pub FpInitHandler : Type 0 → Type 0
FpInitHandler W = W → Option W

pub record EventReceiver (W : Type 0) : Type 0 where
  pub on_accept : Option (FpDefault W)
  pub on_accept_failed : Option (FpDefault W)
  pub on_connect : Option (FpDefault W)
  pub on_connect_failed : Option (FpDefault W)
  pub on_close : Option (FpDefault W)
  pub on_close_failed : Option (FpDefault W)
  pub on_expired_session : Option (FpDefault W)
  pub on_update : Option (FpUpdate W)
  pub no_handler : Option (FpNoHandler W)
  pub init_handler : Option (FpInitHandler W)

-- The static functions that the class of an acceptor has, and those that the class of a connector has.
pub record AcceptorFunctions (W : Type 0) : Type 0 where
  pub on_accept : FpDefault W
  pub on_accept_failed : FpDefault W
  pub on_close : FpDefault W
  pub on_close_failed : FpDefault W
  pub on_expired_session : FpDefault W
  pub on_update : FpUpdate W
  pub no_handler : FpNoHandler W
  pub init_handler : FpInitHandler W

pub record ConnectorFunctions (W : Type 0) : Type 0 where
  pub on_connect : FpDefault W
  pub on_connect_failed : FpDefault W
  pub on_close : FpDefault W
  pub on_close_failed : FpDefault W
  pub on_expired_session : FpDefault W
  pub on_update : FpUpdate W
  pub no_handler : FpNoHandler W
  pub init_handler : FpInitHandler W

-- Every pointer is null, as in an `EventReceiverDummy`.
abbrev pub unset_receiver : (W : Type 0) → EventReceiver W
unset_receiver W = record {
  on_accept = none;
  on_accept_failed = none;
  on_connect = none;
  on_connect_failed = none;
  on_close = none;
  on_close_failed = none;
  on_expired_session = none;
  on_update = none;
  no_handler = none;
  init_handler = none;
}

module _ {W : Type 0} where
  -- `clone(target)`: the target as it is left.
  unfoldable pub clone : EventReceiver W → EventReceiver W → EventReceiver W
  clone source target = record target {
    on_accept = source.on_accept;
    on_accept_failed = source.on_accept_failed;
    on_connect = source.on_connect;
    on_connect_failed = source.on_connect_failed;
    on_close = source.on_close;
    on_close_failed = source.on_close_failed;
    on_expired_session = source.on_expired_session;
    on_update = source.on_update;
    no_handler = source.no_handler;
    init_handler = source.init_handler;
  }

  -- The constructors of `EventReceiverAcceptorRegister` and `EventReceiverConnectorRegister`.
  unfoldable pub acceptor_register : AcceptorFunctions W → EventReceiver W
  acceptor_register f = record (unset_receiver W) {
    on_accept = some f.on_accept;
    on_accept_failed = some f.on_accept_failed;
    on_close = some f.on_close;
    on_close_failed = some f.on_close_failed;
    on_expired_session = some f.on_expired_session;
    on_update = some f.on_update;
    no_handler = some f.no_handler;
    init_handler = some f.init_handler;
  }

  unfoldable pub connector_register : ConnectorFunctions W → EventReceiver W
  connector_register f = record (unset_receiver W) {
    on_connect = some f.on_connect;
    on_connect_failed = some f.on_connect_failed;
    on_close = some f.on_close;
    on_close_failed = some f.on_close_failed;
    on_expired_session = some f.on_expired_session;
    on_update = some f.on_update;
    no_handler = some f.no_handler;
    init_handler = some f.init_handler;
  }

  -- A call through a pointer.
  unfoldable pub invoke : Option (FpDefault W) → ℕ → W → Option W
  invoke none arg w = none
  invoke (some f) arg w = f arg w

  unfoldable pub invoke_init : Option (FpInitHandler W) → W → Option W
  invoke_init none w = none
  invoke_init (some f) w = f w
