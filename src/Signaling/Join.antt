-- ===== src/Signaling/Join.antt =====
-- `JoinRoomAsync`: from what the room server answers to what the controller is told.
pub mod Accepted
use vcpkg_webrtc_sample.Prelude.{
  String, ◌<>◌, str_eq, Bool, false, if◌then◌else◌, List, [], ◌∷◌, some, Crashes, Result, ok, err,
  fail, ◌>>=◌, failed_precondition,
}
use vcpkg_webrtc_sample.Common.Ice.{IceServer, parse_ice_servers}
use vcpkg_webrtc_sample.Common.Join.{JoinResponse}
use vcpkg_webrtc_sample.Common.Json.{Json}
use vcpkg_webrtc_sample.Common.Message.{string_member}
use vcpkg_webrtc_sample.Signaling.Http.{join_url, parse_json}

-- The url that `JoinRoomAsync` posts to.
unfoldable pub join_room_url : String → String → String
join_room_url room_server_url room_id = join_url room_server_url ("/join/" <> room_id)

-- What stands behind `ParseIceServers`. Its servers are copied field by field.
unfoldable pub checked_result : JoinResponse → Result JoinResponse
checked_result jr =
    if str_eq jr.result "SUCCESS"
    then ok jr
    else fail failed_precondition ("join failed with result: " <> jr.result)

unfoldable pub with_ice_servers : JoinResponse → Result (List IceServer) → Result JoinResponse
unfolding checked_result
with_ice_servers jr (err e) = err e
with_ice_servers jr (ok servers) = checked_result (record jr { ice_servers = servers })

module _ (json : Json) where
  open json use {
    Value, write, is_bool, is_string, is_array, is_object, as_bool, as_string, member, elements,
  }

  unfoldable pub parse_initiator_field : Value → Crashes Bool
  parse_initiator_field v =
      if is_bool v
      then as_bool v
      else if is_string v
      then (as_string v >>= λ s. some (str_eq s "true"))
      else some false

  -- The loop over the messages that waited: a text, or an object, written back; others are passed
  -- over.
  unfoldable pub message_texts : List Value → Crashes (List String)
  message_texts [] = some []
  message_texts (v ∷ vs) =
      let rest = message_texts vs in
      if is_string v
      then (as_string v >>= λ s. rest >>= λ r. some (s ∷ r))
      else if is_object v
      then (rest >>= λ r. some (write v ∷ r))
      else rest

  unfoldable pub read_messages : Value → Crashes (List String)
  unfolding message_texts
  read_messages v = if is_array v then message_texts (elements v) else some []

  -- The fields, up to the servers.
  unfoldable pub read_join_response : Value → Crashes JoinResponse
  unfolding parse_initiator_field read_messages
  read_join_response root = do
    result ← string_member json root "result"
    params ← member root "params"
    room_id ← string_member json params "room_id"
    client_id ← string_member json params "client_id"
    initiator ← member params "is_initiator"
    is_initiator ← parse_initiator_field initiator
    wss_url ← string_member json params "wss_url"
    wss_post_url ← string_member json params "wss_post_url"
    pc_config ← string_member json params "pc_config"
    messages ← member params "messages"
    texts ← read_messages messages
    some (record {
      result = result;
      room_id = room_id;
      client_id = client_id;
      is_initiator = is_initiator;
      wss_url = wss_url;
      wss_post_url = wss_post_url;
      pc_config_json = pc_config;
      messages = texts;
      ice_servers = [];
    })

  unfoldable pub join_answer : Result Value → Crashes (Result JoinResponse)
  unfolding with_ice_servers
  join_answer (err e) = some (err e)
  join_answer (ok root) = do
    jr ← read_join_response root
    servers ← parse_ice_servers json jr.pc_config_json
    some (with_ice_servers jr servers)

  -- What the callback is given, for what `PostEmpty` gives.
  unfoldable pub join_room_answer : Result String → Crashes (Result JoinResponse)
  unfolding join_answer
  join_room_answer (err e) = some (err e)
  join_room_answer (ok response) = join_answer (parse_json json response)
