-- ===== src/Signaling/Http.antt =====
-- The helpers of src/apprtc_signaling_client.cc: urls, `ParseJson` and `ParseMessageResponse`.
use Prim.Native.String.{len, slice}
use vcpkg_webrtc_sample.Prelude.{
  ◌-◌, String, ◌<>◌, str_eq, Bool, if◌then◌else◌, some, Crashes, Result, ok, err, Status, ok_status,
  fail, ◌>>=◌, invalid_argument, internal,
}
use vcpkg_webrtc_sample.Common.Json.{Json, Parsed, parsed, malformed}
use vcpkg_webrtc_sample.Common.Ice.{optional_string}
use vcpkg_webrtc_sample.Common.Message.{string_member}

-- `base.back() == '/'`, on a text that is not empty.
unfoldable pub ends_with_slash : String → Bool
ends_with_slash s = str_eq (slice s (len s - 1) (len s)) "/"

unfoldable pub join_url : String → String → String
unfolding ends_with_slash
join_url base suffix =
    if ends_with_slash base then slice base 0 (len base - 1) <> suffix else base <> suffix

module _ (json : Json) where
  open json use {Value, parse}

  unfoldable pub json_of : Parsed Value → Result Value
  json_of (malformed errors) = fail invalid_argument ("failed to parse json: " <> errors)
  json_of (parsed root) = ok root

  unfoldable pub parse_json : String → Result Value
  unfolding json_of
  parse_json text = json_of (parse text)

  unfoldable pub room_status : String → String → Status
  room_status result error =
      if str_eq result "SUCCESS"
      then ok_status
      else if str_eq error ""
      then fail internal ("room message failed with result: " <> result)
      else fail internal error

  unfoldable pub message_response : Result Value → Crashes Status
  unfolding room_status
  message_response (err e) = some (err e)
  message_response (ok root) = do
    result ← string_member json root "result"
    error ← optional_string json root "error"
    some (room_status result error)

  unfoldable pub parse_message_response : String → Crashes Status
  unfolding message_response
  parse_message_response text = message_response (parse_json text)

  -- What the callback of `SendToRoomAsync` is given, for what `PostJson` gives.
  unfoldable pub send_to_room_answer : Result String → Crashes Status
  unfolding parse_message_response
  send_to_room_answer (err e) = some (err e)
  send_to_room_answer (ok response) = parse_message_response response

-- The url that `SendToRoomAsync` posts to.
unfoldable pub message_url : String → String → String → String
message_url room_server_url room_id client_id =
    join_url room_server_url ("/message/" <> (room_id <> ("/" <> client_id)))
