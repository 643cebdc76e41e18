-- ===== src/Signaling/Socket.antt =====
-- The web socket of `AppRtcSignalingClient`: its flags, what comes in, and what is sent.
--
-- The members are guarded by the mutex, and each locked region is one read or one write, so what the
-- network thread and the socket's thread do is a sequence of the steps below.
pub mod Answers
pub mod Quiet
pub mod Closing
pub mod Relay
use vcpkg_webrtc_sample.Prelude.{
  String, ◌<>◌, str_eq, Bool, true, false, not, ◌&&◌, if◌then◌else◌, List, [], ◌∷◌, ◌++◌, some,
  Crashes, Error, Result, ok, err, Status, ok_status, fail, ◌>>=◌, failed_precondition, internal,
}
use vcpkg_webrtc_sample.Common.Join.{JoinResponse}
use vcpkg_webrtc_sample.Common.Json.{Json}
use vcpkg_webrtc_sample.Common.Message.{SignalingMessage, string_member, parse_signaling_message}
use vcpkg_webrtc_sample.Signaling.Http.{parse_json}

-- The message types of IXWebSocket that the code tells apart.
pub data WebSocketMessage : Type 0 where
  open_message close_message other_message : WebSocketMessage
  -- The reason, and the text.
  error_message text_message : String → WebSocketMessage

-- What is posted to the callback thread.
pub data Posted : Type 0 where
  socket_opened : Posted
  message_received : SignalingMessage → Posted
  error_raised : Error → Posted
  -- The callback of `RegisterAsync` or `SendWebSocketMessageAsync`.
  answered : Status → Posted

pub record Socket : Type 0 where
  pub websocket_open : Bool
  pub closing : Bool
  -- The state of `websocket_`: its url, and whether it was started.
  pub url : String
  pub started : Bool
  -- The texts handed to `websocket_.send`, and the urls of `Delete`, the newest first.
  pub sent : List String
  pub deleted : List String

abbrev pub new_socket : Socket
new_socket = record {
  websocket_open = false;
  closing = false;
  url = "";
  started = false;
  sent = [];
  deleted = [];
}

unfoldable pub connect_web_socket : JoinResponse → Socket → Socket
connect_web_socket jr s = record s {
  closing = false;
  websocket_open = false;
  url = jr.wss_url;
  started = true;
}

-- `!wss_post_url.empty() && !room_id.empty() && !client_id.empty()`
unfoldable pub has_post_url : JoinResponse → Bool
has_post_url jr =
    not (str_eq jr.wss_post_url "") && (not (str_eq jr.room_id "") && not (str_eq jr.client_id ""))

-- What the server answers to the `Delete` is ignored.
unfoldable pub close_async : JoinResponse → Socket → Socket
unfolding has_post_url
close_async jr s =
    let s' = record s { closing = true; websocket_open = false; started = false } in
    if has_post_url jr
    then record s' {
      deleted = (jr.wss_post_url <> ("/" <> (jr.room_id <> ("/" <> jr.client_id)))) ∷ s'.deleted;
    }
    else s'

-- `websocket_.send`, and the callback that is posted with its answer.
unfoldable pub send_text : String → String → Bool → Socket → Socket × List Posted
send_text failure text success s = (
  record s { sent = text ∷ s.sent },
  answered (if success then ok_status else fail internal failure) ∷ [],
)

-- The steps, in the order in which they happen.
pub data SocketStep : Type 0 where
  connects closes : JoinResponse → SocketStep
  registers : JoinResponse → Bool → SocketStep
  sends : String → Bool → SocketStep
  hears : WebSocketMessage → SocketStep

module _ (json : Json) where
  open json use {Value, write, is_string, as_string, member, empty_object, of_string, with_member}

  abbrev pub register_text : JoinResponse → String
  register_text jr =
      let r = with_member empty_object "cmd" (of_string "register") in
      let r = with_member r "roomid" (of_string jr.room_id) in
      write (with_member r "clientid" (of_string jr.client_id))

  abbrev pub send_command : String → String
  send_command message =
      let r = with_member empty_object "cmd" (of_string "send") in
      write (with_member r "msg" (of_string message))

  -- `success` is the answer of `websocket_.send`.
  unfoldable pub register_async : JoinResponse → Bool → Socket → Socket × List Posted
  unfolding send_text
  register_async jr success s =
      if s.websocket_open
      then send_text "websocket register failed" (register_text jr) success s
      else (s, answered (fail failed_precondition "websocket not open during register") ∷ [])

  -- The message is parsed for the trace; that may throw.
  unfoldable pub send_web_socket_message_async :
      String → Bool → Socket → Crashes (Socket × List Posted)
  unfolding send_text
  send_web_socket_message_async message success s =
      if s.websocket_open
      then (parse_signaling_message json message >>= λ r.
          some (send_text "websocket send failed" (send_command message) success s))
      else some (s, answered (fail failed_precondition "websocket not open") ∷ [])

  abbrev pub posted_message : Result SignalingMessage → List Posted
  posted_message (ok m) = message_received m ∷ []
  posted_message (err e) = error_raised e ∷ []

  -- The `error` of the server, `""` if there is none.
  unfoldable pub server_error : Value → Crashes String
  server_error outer = do e ← member outer "error"; if is_string e then as_string e else some ""

  unfoldable pub received : Result Value → Crashes (List Posted)
  unfolding server_error
  received (err e) = some (error_raised e ∷ [])
  received (ok outer) = server_error outer >>= λ error.
      if str_eq error ""
      then (string_member json outer "msg" >>= λ payload.
          parse_signaling_message json payload >>= λ r. some (posted_message r))
      else some (
          error_raised (record { code = internal; message = "websocket server error: " <> error })
          ∷ [])

  -- The message callback of `websocket_`.
  unfoldable pub on_web_socket_message : WebSocketMessage → Socket → Crashes (Socket × List Posted)
  unfolding received
  on_web_socket_message open_message s =
      some (record s { websocket_open = true }, socket_opened ∷ [])
  on_web_socket_message close_message s = some (
    record s { websocket_open = false },
    (if s.closing
        then []
        else error_raised (record { code = internal; message = "websocket closed" }) ∷ []),
  )
  on_web_socket_message (error_message reason) s = some (
    record s { websocket_open = false },
    error_raised (record { code = internal; message = "websocket error: " <> reason }) ∷ [],
  )
  on_web_socket_message other_message s = some (s, [])
  on_web_socket_message (text_message text) s =
      received (parse_json json text) >>= λ ps. some (s, ps)

  unfoldable pub socket_step : SocketStep → Socket → Crashes (Socket × List Posted)
  socket_step (connects jr) s = some (connect_web_socket jr s, [])
  socket_step (closes jr) s = some (close_async jr s, [])
  socket_step (registers jr success) s = some (register_async jr success s)
  socket_step (sends message success) s = send_web_socket_message_async message success s
  socket_step (hears m) s = on_web_socket_message m s

  -- The state after the steps, and what was posted, in order.
  unfoldable pub run_socket : List SocketStep → Socket → Crashes (Socket × List Posted)
  run_socket [] s = some (s, [])
  run_socket (x ∷ xs) s =
      let rest = run_socket xs in socket_step x s >>= λ r. rest r.0 >>= λ q. some (q.0, r.1 ++ q.1)
