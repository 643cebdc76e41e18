-- ===== src/Common/Json.antt =====
-- What the code relies on of jsoncpp, which is not part of the repository.
--
-- `Json::Value` and the calls on it are an interface. `asString`, `asInt`, `operator[]` with a name
-- and `begin` throw on a value of the wrong kind, and nothing in the program catches that: these
-- are `Crashes`. Reading a missing member gives the null value.
pub mod Laws
use vcpkg_webrtc_sample.Prelude.{String, Bool, List, Crashes}
use vcpkg_webrtc_sample.Prelude.Int.{ℤ}

-- `parse` is `Json::parseFromStream` with a default `CharReaderBuilder`: the value, or the errors.
pub data Parsed (V : Type 0) : Type 0 where
  parsed : V → Parsed V
  malformed : String → Parsed V

pub record Json : Type 1 where
  pub Value : Type 0
  pub parse : String → Parsed Value
  pub write : Value → String
  pub is_bool : Value → Bool
  pub is_string : Value → Bool
  pub is_array : Value → Bool
  pub is_object : Value → Bool
  pub as_bool : Value → Crashes Bool
  pub as_string : Value → Crashes String
  pub as_int : Value → Crashes ℤ
  pub member : Value → String → Crashes Value
  pub elements : Value → List Value
  pub empty_object : Value
  pub of_string : String → Value
  pub of_int : ℤ → Value
  pub with_member : Value → String → Value → Value
