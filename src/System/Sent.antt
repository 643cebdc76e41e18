-- ===== src/System/Sent.antt =====
-- The texts that a task hands to the web socket.
use mathlib.Core.List.Sublist
use vcpkg_webrtc_sample.Prelude.{
  ◌≡◌, refl, Bool, some, none, Crashes, Result, ◌>>=◌, String, List, [], ◌∷◌, ◌++◌, Sublist, Keeps,
  >>=-Keeps, >>=-Keeps_both, if_cases,
}
use vcpkg_webrtc_sample.Common.Json.{Json}
use vcpkg_webrtc_sample.Common.Join.{JoinResponse}
use vcpkg_webrtc_sample.Common.Message.{parse_signaling_message}
use vcpkg_webrtc_sample.Signaling.Http.{parse_json}
use vcpkg_webrtc_sample.Signaling.Join.{join_room_answer}
use vcpkg_webrtc_sample.Signaling.Socket as S
use vcpkg_webrtc_sample.Peer.Api.{PeerApi}
use vcpkg_webrtc_sample.Call.State.{
  Request, join_room, connect_web_socket, register, send_to_room, send_web_socket_message,
  close_signaling,
}
use vcpkg_webrtc_sample.Call.Run.{join_complete}
use vcpkg_webrtc_sample.System.{Reply, Callback, runs, perform}

module _ (json : Json) (api : PeerApi) where
  -- What a request hands to the web socket, if it hands on anything.
  abbrev pub texts_of : Request → List String
  texts_of (register jr) = S.register_text json jr ∷ []
  texts_of (send_web_socket_message message callback) = S.send_command json message ∷ []
  texts_of r = []

  abbrev pub texts : List Request → List String
  texts [] = []
  texts (r ∷ rs) = texts_of r ++ texts rs

  abbrev pub SentBy : Request → List String → S.Socket × List (Callback json api) → Type 0
  SentBy r ys (s, es) = Sublist s.sent (texts_of r ++ ys)

  -- A text is sent once, or there is an error.
  registered-sublist :
      (jr : JoinResponse) (success : Bool) (s : S.Socket) (ys : List String)
      → Sublist s.sent ys
      → Sublist (S.register_async json jr success s).0.sent (S.register_text json jr ∷ ys)
  unfolding S.register_async S.send_text
  registered-sublist jr success s ys p =
      if_cases (λ (r : S.Socket × List S.Posted). Sublist r.0.sent (S.register_text json jr ∷ ys))
        s.websocket_open (λ _. Sublist.cons-cons (S.register_text json jr) p)
        (λ _. Sublist.cons (S.register_text json jr) p)

  sent-sublist :
      (message : String) (success : Bool) (s : S.Socket) (ys : List String)
      → Sublist s.sent ys
      → Keeps
          (λ (r : S.Socket × List S.Posted). Sublist r.0.sent (S.send_command json message ∷ ys))
          (S.send_web_socket_message_async json message success s)
  unfolding S.send_web_socket_message_async S.send_text
  sent-sublist message success s ys p =
      let P : S.Socket × List S.Posted → Type 0 =
        λ r. Sublist r.0.sent (S.send_command json message ∷ ys) in
      if_cases (Keeps P) s.websocket_open
        (λ _.
          >>=-Keeps P (parse_signaling_message json message) _
            (λ r. Sublist.cons-cons (S.send_command json message) p))
        (λ _. Sublist.cons (S.send_command json message) p)

  closed-sublist :
      (jr : JoinResponse) (s : S.Socket) (ys : List String)
      → Sublist s.sent ys
      → Sublist (S.close_async jr s).sent ys
  unfolding S.close_async
  closed-sublist jr s ys p =
      if_cases (λ (t : S.Socket). Sublist t.sent ys) (S.has_post_url jr) (λ _. p) (λ _. p)

  pub perform-SentBy :
      (r : Request) (w : Reply) (s : S.Socket) (ys : List String)
      → Sublist s.sent ys
      → Keeps (SentBy r ys) (perform json api r w s)
  unfolding perform S.connect_web_socket
  perform-SentBy (join_room url room_id) w s ys p = joined (join_room_answer json _)
    where
      joined :
          (m : Crashes (Result JoinResponse))
          → Keeps
              (SentBy (join_room url room_id) ys)
              ((m >>= λ r. some (runs (join_complete r) ∷ [])) >>= λ callbacks. some (s, callbacks))
      joined none = tt
      joined (some r) = p
  perform-SentBy (connect_web_socket jr) w s ys p = p
  perform-SentBy (register jr) w s ys p = registered-sublist jr w.success s ys p
  perform-SentBy (send_to_room url room_id client_id message callback) w s ys p = p
  perform-SentBy (send_web_socket_message message callback) w s ys p =
      >>=-Keeps_both
        (λ (r : S.Socket × List S.Posted). Sublist r.0.sent (S.send_command json message ∷ ys))
        (SentBy (send_web_socket_message message callback) ys)
        (S.send_web_socket_message_async json message w.success s) _
        (sent-sublist message w.success s ys p) (λ r q. q)
  perform-SentBy (close_signaling jr) w s ys p = closed-sublist jr s ys p

  -- A message that comes in sends nothing.
  pub heard-sent :
      (m : S.WebSocketMessage) (s : S.Socket)
      → Keeps
          (λ (q : S.Socket × List S.Posted). q.0.sent ≡ s.sent)
          (S.on_web_socket_message json m s)
  unfolding S.on_web_socket_message
  heard-sent S.open_message s = refl
  heard-sent S.close_message s = refl
  heard-sent (S.error_message reason) s = refl
  heard-sent S.other_message s = refl
  heard-sent (S.text_message text) s =
      >>=-Keeps (λ (q : S.Socket × List S.Posted). q.0.sent ≡ s.sent)
        (S.received json (parse_json json text)) _ (λ ps. refl)
