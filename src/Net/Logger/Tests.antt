-- ===== src/Net/Logger/Tests.antt =====
-- The theorems on net/loggerOld.cpp at concrete logs.
use lobbysvr.Base.{
  ◌≤◌, ◌≢◌, drop, replicate, zero, suc, ℕ, ◌≡◌, ◌≢◌, refl, ap, Bool, true, false, List, [], ◌∷◌,
  ◌++◌, Option, none, some, arith, if◌then◌else◌,
}
use lobbysvr.Net.Console.{same_text}
use lobbysvr.Net.Logger.{Entry, file, other, numbered, move_file, digits}
use lobbysvr.Net.Logger.Files.{flat, flat-IsLawful}
use lobbysvr.Net.Logger.Backup.{IsStored, move_file-IsStored}
use lobbysvr.Net.Logger.Sinks.{
  SetNode, Sink, console, LogConfig, Build, init, log_simple, read_config, taking,
}
use lobbysvr.Net.Logger.Resets.{owner, configured, fresh_sinks, kinds_of}
use lobbysvr.Net.Logger.Logged.{init-log_simple}
use lobbysvr.Net.Logger.Dump.{dump_text, dump_bar}
use lobbysvr.Net.Logger.Dumped.{HasNoColon, read_lines, read_lines-dump_text}

abbrev root : List ℕ
root = b'l' ∷ []

abbrev day : List ℕ
day = b'd' ∷ []

abbrev log_path : List ℕ
log_path = b'l' ∷ b'/' ∷ b'a' ∷ []

abbrev old_path : List ℕ
old_path = b'l' ∷ b'/' ∷ b'd' ∷ b'/' ∷ b'a' ∷ []

-- A log and an earlier backup of it.
abbrev disk : List ℕ → Option Entry
disk p =
    if same_text p log_path
    then some (file (1 ∷ []))
    else if same_text p old_path
    then some (file (2 ∷ []))
    else none

abbrev is_file : Option Entry → Bool
is_file none = false
is_file (some (file c)) = true
is_file (some other) = false

move_file-IsStored_example :
    IsStored flat log_path old_path disk (1 ∷ []) (move_file flat root day log_path disk)
unfolding same_text numbered digits
move_file-IsStored_example =
    move_file-IsStored flat-IsLawful root day log_path (1 ∷ []) disk refl
      (λ e. let differ : true ≡ false = ap (λ p. same_text p log_path) e in ground arith)
      (λ e. let differ : true ≡ false = ap is_file e in ground arith) (0, omega arith, refl)

abbrev build : Build
build = record { windows = false; long_digits = 63; host_name = none }

abbrev node : ℕ → SetNode
node level = record {
  channel = none;
  use_log_console = none;
  use_log_file = some false;
  use_log_trace = none;
  use_log_udp = none;
  dir = none;
  file = none;
  level = some level;
  rotate_minute = none;
  rotate_size = none;
}

abbrev start : LogConfig
start = record {
  channel = [];
  use_log_console = true;
  use_log_file = true;
  use_log_trace = false;
  use_log_udp = false;
  dir_name = [];
  file_name = [];
  level = 0;
  rotation_time = 32;
  rotation_size = 64;
}

-- A sink of another part of the program.
abbrev another : Sink
another = record { address = 3; kind = console; level = 0; channel = [] }

abbrev last_config : LogConfig
last_config = read_config build (node 2) (configured build (some (node 1) ∷ none ∷ []) start)

init-log_simple_example :
    (m : ℕ) × ((level : ℕ)
      → last_config.level ≤ level
      → log_simple true level (
          init build
            (some (node 1) ∷ none ∷ some (node 2) ∷ [])
            (owner (another ∷ []) 7 start start []))
        ≡ taking true level last_config.channel (another ∷ [])
          ++ fresh_sinks m last_config (kinds_of build last_config))
init-log_simple_example =
    init-log_simple (another ∷ []) build (some (node 1) ∷ none ∷ []) (node 2) 7 start start []
      (omega arith, tt)

-- An address of eight zeros.
abbrev zeros : ℕ → List ℕ
zeros p = replicate 8 b'0'

zero_no_colon : ◌≢◌ {A = ℕ} b'0' b':'
zero_no_colon e = omega arith

no_colons : HasNoColon (replicate 8 b'0')
no_colons = all 8
  where
    all : (n : ℕ) → HasNoColon (replicate n b'0')
    all zero = tt
    all (suc n) = (zero_no_colon, all n)

read_lines-dump_text_example :
    read_lines 3
      (drop 15 (dump_text zeros (λ b. true) false 0 (1 ∷ 171 ∷ 255 ∷ []) (some (b'x' ∷ []))))
    ≡ 1 ∷ 171 ∷ 255 ∷ []
unfolding dump_bar
read_lines-dump_text_example =
    read_lines-dump_text zeros (λ b. true) false 0 (1 ∷ 171 ∷ 255 ∷ []) (some (b'x' ∷ []))
      (λ p. no_colons) (omega arith, (omega arith, (omega arith, tt)))
