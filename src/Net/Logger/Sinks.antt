-- ===== src/Net/Logger/Sinks.antt =====
-- The sinks of `Logger` in net/loggerOld.cpp: its configuration, the sinks that it adds to the core of boost::log, and
-- the messages that they take. A sink has a number for its address.
use lobbysvr.Base.{
  ℕ, suc, ◌*◌, ◌%◌, Bool, true, false, List, [], ◌∷◌, ◌++◌, Option, none, some, min, ◌&&◌, ◌==◌,
  leb, ltb, if◌then◌else◌,
}
use lobbysvr.Net.Console.{same_text}

-- `severity_level`, by its number.
abbrev pub debug : ℕ
debug = 1

abbrev pub fatal : ℕ
fatal = 5

-- `LogConfig`.
pub record LogConfig : Type 0 where
  pub channel : List ℕ
  pub use_log_console : Bool
  pub use_log_file : Bool
  pub use_log_trace : Bool
  pub use_log_udp : Bool
  pub dir_name : List ℕ
  pub file_name : List ℕ
  pub level : ℕ
  pub rotation_time : ℕ
  pub rotation_size : ℕ

abbrev pub max_filesize_rotate : ℕ
max_filesize_rotate = 20971520

-- What a node `set` holds under the keys that are read, `none` where `get` gives its default. Numbers are as they are
-- after the conversion to the member's type.
pub record SetNode : Type 0 where
  pub channel : Option (List ℕ)
  pub use_log_console : Option Bool
  pub use_log_file : Option Bool
  pub use_log_trace : Option Bool
  pub use_log_udp : Option Bool
  pub dir : Option (List ℕ)
  pub file : Option (List ℕ)
  pub level : Option ℕ
  pub rotate_minute : Option ℕ
  pub rotate_size : Option ℕ

-- A kind of sink; a file has the pattern of its name, the size and the minutes after which it is changed, if any.
pub data SinkKind : Type 0 where
  console debugger : SinkKind
  text_file : List ℕ → Option ℕ → Option ℕ → SinkKind

pub record Sink : Type 0 where
  pub address : ℕ
  pub kind : SinkKind
  pub level : ℕ
  pub channel : List ℕ

-- The logger with the core; `next` is the address of the next sink.
pub record Logger : Type 0 where
  pub config : LogConfig
  pub sinks : List ℕ
  pub core : List Sink
  pub next : ℕ

abbrev pub get {ℓ} : {A : Type ℓ} → Option A → A → A
get none default = default
get (some a) default = a

abbrev pub default_channel : List ℕ
default_channel = b'd' ∷ b'e' ∷ b'f' ∷ b'a' ∷ b'u' ∷ b'l' ∷ b't' ∷ []

-- `remove_sink`, and `RemoveAllSinks`.
unfoldable pub remove_sink : ℕ → List Sink → List Sink
remove_sink a [] = []
remove_sink a (sink ∷ sinks) =
    let rest = remove_sink a sinks in if sink.address == a then rest else sink ∷ rest

unfoldable pub remove_sinks : List ℕ → List Sink → List Sink
unfolding remove_sink
remove_sinks [] core = core
remove_sinks (a ∷ later) core = remove_sinks later (remove_sink a core)

unfoldable pub remove_all_sinks : Logger → Logger
unfolding remove_sinks
remove_all_sinks s = record s { core = remove_sinks s.sinks s.core; sinks = [] }

-- A sink is made with the level and the channel that the filter has copied, and added.
unfoldable pub add_sink : SinkKind → Logger → Logger
add_sink kind s = record s {
  core =
      s.core
      ++ (record {
        address = s.next;
        kind = kind;
        level = s.config.level;
        channel = s.config.channel;
      })
        ∷ [];
  sinks = s.sinks ++ s.next ∷ [];
  next = suc s.next;
}

unfoldable pub add_if : Bool → SinkKind → Logger → Logger
unfolding add_sink
add_if used kind s = if used then add_sink kind s else s

-- "_%Y%m%d_%H%M%S_%N.log".
abbrev pub name_end : List ℕ
name_end =
    b'_' ∷ b'%' ∷ b'Y' ∷ b'%' ∷ b'm' ∷ b'%' ∷ b'd' ∷ b'_' ∷ b'%' ∷ b'H' ∷ b'%' ∷ b'M' ∷ b'%' ∷ b'S'
    ∷ b'_' ∷ b'%' ∷ b'N' ∷ b'.' ∷ b'l' ∷ b'o' ∷ b'g' ∷ []

unfoldable pub host_part : Option (List ℕ) → List ℕ
host_part none = []
host_part (some host) = b'_' ∷ host

-- What the three parts of `InitBoostLog` build depends on: whether the build is for Windows, `numeric_limits<long>`'s
-- digits, and the name of the host, if it has one.
pub record Build : Type 0 where
  pub windows : Bool
  pub long_digits : ℕ
  pub host_name : Option (List ℕ)

unfoldable pub file_kind : Build → LogConfig → SinkKind
unfolding host_part
file_kind build c =
    text_file (c.dir_name ++ (b'/' ∷ c.file_name) ++ host_part build.host_name ++ name_end)
      (if ltb 0 c.rotation_size then some c.rotation_size else none)
      (if c.rotation_time == build.long_digits then none else some c.rotation_time)

-- `InitBoostLog`, but for the scan of earlier files.
unfoldable pub init_boost_log : Build → Logger → Logger
unfolding remove_all_sinks add_if file_kind
init_boost_log build s =
    let c = s.config in
    add_if (build.windows && c.use_log_trace) debugger (
      add_if c.use_log_file (file_kind build c)
        (add_if c.use_log_console console (remove_all_sinks s)))

-- `resetConfig(pt)`.
unfoldable pub read_config : Build → SetNode → LogConfig → LogConfig
read_config build pt c =
    let level = get pt.level 1 in
    let size = get pt.rotate_size 0 * 1024 % 18446744073709551616 in
    record {
      channel = get pt.channel default_channel;
      use_log_console = get pt.use_log_console true;
      use_log_file = get pt.use_log_file true;
      use_log_trace = get pt.use_log_trace false;
      use_log_udp = get pt.use_log_udp false;
      dir_name = get pt.dir [];
      file_name = get pt.file [];
      level = if leb level fatal then level else c.level;
      rotation_time = get pt.rotate_minute build.long_digits;
      rotation_size = min max_filesize_rotate size;
    }

unfoldable pub reset_config : Build → SetNode → Logger → Logger
unfolding read_config init_boost_log
reset_config build pt s = init_boost_log build (record s { config = read_config build pt s.config })

-- `resetConfig(conf)`; the level is not copied.
unfoldable pub reset_config_to : Build → LogConfig → Logger → Logger
unfolding init_boost_log
reset_config_to build conf s = init_boost_log build (record s {
  config = (record conf {
    use_log_udp = conf.use_log_udp;
    level = s.config.level;
    rotation_size = min max_filesize_rotate conf.rotation_size;
  });
})

-- `init` over the children of config.logger: `none` is a child of another name.
unfoldable pub init : Build → List (Option SetNode) → Logger → Logger
unfolding reset_config
init build [] s = s
init build (none ∷ nodes) s = init build nodes s
init build (some pt ∷ nodes) s = init build nodes (reset_config build pt s)

-- The filter of a sink; one for a debugger takes nothing while none is there.
unfoldable pub takes : Bool → ℕ → List ℕ → Sink → Bool
takes present level channel sink =
    leb sink.level level && same_text channel sink.channel && kind_takes sink.kind
  where
    kind_takes : SinkKind → Bool
    kind_takes console = true
    kind_takes debugger = present
    kind_takes (text_file name size minutes) = true

-- `Log_simple`: the sinks that get the text.
unfoldable pub taking : Bool → ℕ → List ℕ → List Sink → List Sink
unfolding takes
taking present level channel [] = []
taking present level channel (sink ∷ sinks) =
    let rest = taking present level channel sinks in
    if takes present level channel sink then sink ∷ rest else rest

unfoldable pub log_simple : Bool → ℕ → Logger → List Sink
unfolding taking
log_simple present level s =
    if ltb level s.config.level then [] else taking present level s.config.channel s.core
