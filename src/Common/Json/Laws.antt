-- ===== src/Common/Json/Laws.antt =====
-- What the round trips rely on of jsoncpp: an object of texts and numbers is read back as it was
-- written, and a member is the one that was assigned last.
use vcpkg_webrtc_sample.Prelude.{◌≡◌, String, str_eq, false, some, ◌>>=◌, ap}
use vcpkg_webrtc_sample.Prelude.Int.{ℤ}
use vcpkg_webrtc_sample.Common.Json.{Json, parsed}
use vcpkg_webrtc_sample.Common.Message.{string_member}

pub data IsScalar (json : Json) : json.Value → Type 0 where
  a_text : (s : String) → IsScalar json (json.of_string s)
  a_number : (n : ℤ) → IsScalar json (json.of_int n)

-- The objects that the program builds.
pub data IsObject (json : Json) : json.Value → Type 0 where
  empty : IsObject json json.empty_object
  assigned :
      {v w : json.Value} (name : String)
      → IsObject json v
      → IsScalar json w
      → IsObject json (json.with_member v name w)

pub record IsLawful (json : Json) : Type 0 where
  pub parse-write : {v : json.Value} → IsObject json v → json.parse (json.write v) ≡ parsed v
  pub as_string-of_string : (s : String) → json.as_string (json.of_string s) ≡ some s
  pub as_int-of_int : (n : ℤ) → json.as_int (json.of_int n) ≡ some n
  pub member_same :
      {v w : json.Value} (name : String)
      → IsObject json v
      → IsScalar json w
      → json.member (json.with_member v name w) name ≡ some w
  pub member_other :
      {v w : json.Value} (name other : String)
      → IsObject json v
      → IsScalar json w
      → str_eq name other ≡ false
      → json.member (json.with_member v name w) other ≡ json.member v other
  -- A member that was not assigned reads as a value that is no text.
  pub member_missing :
      (name : String)
      → (v : json.Value) × (json.member json.empty_object name ≡ some v)
        × (json.is_string v ≡ false)

module _ {json : Json} (lawful : IsLawful json) where
  pub string_member_same :
      {v : json.Value} (name s : String)
      → IsObject json v
      → string_member json (json.with_member v name (json.of_string s)) name ≡ some s
  string_member_same name s o =
      rw (lawful.member_same name o (a_text s)) (lawful.as_string-of_string s)

  pub string_member_other :
      {v w : json.Value} (name other : String)
      → IsObject json v
      → IsScalar json w
      → str_eq name other ≡ false
      → string_member json (json.with_member v name w) other ≡ string_member json v other
  string_member_other name other o c e =
      ap (λ m. m >>= json.as_string) (lawful.member_other name other o c e)
