-- ===== src/Lobby/Json.antt =====
-- jsoncpp (`Json::Value`, `Json::FastWriter`, `Json::Reader`) is not in the repository: what the
-- program uses of it is a parameter. Text is a list of bytes.
use lobbysvr.Base.{ℕ, Bool, List, Option}
use Prim.Native.String.{String}

-- An `int`.
pub data ℤ : Type 0 where
  pos negsuc : ℕ → ℤ

pub record JsonLib : Type 1 where
  pub Value : Type 0
  -- A default-constructed value, `jv[key]` (that it puts a null member under a key that is missing is
  -- left out), `jv[key] = v`.
  pub null : Value
  pub member : Value → String → Value
  pub set_member : Value → String → Value → Value
  pub is_null : Value → Bool
  -- `none` where the conversion throws a `Json::Exception`.
  pub as_int : Value → Option ℤ
  pub as_uint : Value → Option ℕ
  pub as_uint64 : Value → Option ℕ
  pub as_string : Value → Option (List ℕ)
  pub of_int : ℤ → Value
  pub of_uint : ℕ → Value
  pub of_uint64 : ℕ → Value
  pub of_string : List ℕ → Value
  -- `FastWriter::write`, and `Reader::parse`, with `none` where it returns false.
  pub write : Value → List ℕ
  pub parse : List ℕ → Option Value
