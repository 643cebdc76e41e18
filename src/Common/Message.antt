-- ===== src/Common/Message.antt =====
-- Signaling messages: `ParseSignalingMessage`, `SerializeSessionDescription`,
-- `SerializeIceCandidate` and the structs of src/apprtc_common.h.
pub mod RoundTrip
use vcpkg_webrtc_sample.Prelude.{
  String, ◌<>◌, str_eq, if◌then◌else◌, Option, none, some, Crashes, Result, ok, fail, ◌>>=◌,
  invalid_argument, internal,
}
use vcpkg_webrtc_sample.Prelude.Int.{ℤ, pos}
use vcpkg_webrtc_sample.Common.Json.{Json, parsed, malformed}

pub data SignalingMessageType : Type 0 where
  offer answer candidate bye unknown : SignalingMessageType

-- The struct's member `type`, and the members of the same names.
pub record SignalingMessage : Type 0 where
  pub kind : SignalingMessageType
  pub raw_json : String
  pub sdp_type : String
  pub sdp : String
  pub candidate_text : String
  pub sdp_mid : String
  pub sdp_mline_index : ℤ

abbrev pub json_error {ℓ} : {A : Type ℓ} → String → String → Result A
json_error context details = fail invalid_argument (context <> (": " <> details))

-- A message of which only the text is known.
abbrev pub blank : String → SignalingMessage
blank text = record {
  kind = unknown;
  raw_json = text;
  sdp_type = "";
  sdp = "";
  candidate_text = "";
  sdp_mid = "";
  sdp_mline_index = pos 0;
}

module _ (json : Json) where
  open json use {
    Value, parse, write, as_string, as_int, member, empty_object, of_string, of_int, with_member,
  }

  abbrev pub string_member : Value → String → Crashes String
  string_member v name = member v name >>= as_string

  -- The branch of an offer or an answer.
  decode_description : Value → SignalingMessage → Crashes SignalingMessage
  decode_description root m = do text ← string_member root "sdp"; some (record m { sdp = text })

  -- The branch of a candidate.
  decode_candidate : Value → SignalingMessage → Crashes SignalingMessage
  decode_candidate root m = do
    c ← string_member root "candidate"
    mid ← string_member root "id"
    label ← member root "label"
    index ← as_int label
    some (record m { kind = candidate; candidate_text = c; sdp_mid = mid; sdp_mline_index = index })

  -- The branches on `type`.
  decode : Value → String → SignalingMessage → Crashes SignalingMessage
  unfolding decode_description decode_candidate
  decode root type m =
      if str_eq type "offer"
      then decode_description root (record m { kind = offer; sdp_type = type })
      else if str_eq type "answer"
      then decode_description root (record m { kind = answer; sdp_type = type })
      else if str_eq type "candidate"
      then decode_candidate root m
      else if str_eq type "bye"
      then some (record m { kind = bye })
      else some (record m { kind = unknown })

  unfoldable pub parse_signaling_message : String → Crashes (Result SignalingMessage)
  unfolding decode
  parse_signaling_message text = elim (parse text) [
    | malformed errors ↦ some (json_error "failed to parse signaling message" errors)
    | parsed root ↦ do
      type ← string_member root "type"
      m ← decode root type (blank text)
      some (ok m)
  ]

  -- The description is given by its type, as `SdpTypeToString` spells it, and by what `ToString`
  -- writes, `none` if that fails.
  unfoldable pub serialize_session_description : String → Option String → Result String
  serialize_session_description type none = fail internal "failed to serialize session description"
  serialize_session_description type (some sdp) =
      ok (
        write
          (with_member (with_member empty_object "type" (of_string type)) "sdp" (of_string sdp)))

  unfoldable pub serialize_ice_candidate : ℤ → String → Option String → Result String
  serialize_ice_candidate index mid none = fail internal "failed to serialize ice candidate"
  serialize_ice_candidate index mid (some sdp) =
      let r = with_member empty_object "type" (of_string "candidate") in
      let r = with_member r "label" (of_int index) in
      let r = with_member r "id" (of_string mid) in
      ok (write (with_member r "candidate" (of_string sdp)))

abbrev pub message_type_to_string : SignalingMessageType → String
message_type_to_string offer = "offer"
message_type_to_string answer = "answer"
message_type_to_string candidate = "candidate"
message_type_to_string bye = "bye"
message_type_to_string unknown = "unknown"
