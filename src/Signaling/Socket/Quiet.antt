-- ===== src/Signaling/Socket/Quiet.antt =====
-- Before the web socket has opened.
use vcpkg_webrtc_sample.Prelude.{
  ◌≡◌, refl, Bool, true, false, List, [], ◌∷◌, ◌++◌, some, String, Result, ok, err, Keeps,
  >>=-Keeps, >>=-Keeps_both, Keeps-some, if_cases, str_eq, arith, ◌∙◌,
}
use vcpkg_webrtc_sample.Common.Json.{Json}
use vcpkg_webrtc_sample.Common.Join.{JoinResponse}
use vcpkg_webrtc_sample.Common.Message.{SignalingMessage, string_member, parse_signaling_message}
use vcpkg_webrtc_sample.Signaling.Http.{parse_json}
use vcpkg_webrtc_sample.Signaling.Socket.{
  WebSocketMessage, open_message, close_message, other_message, error_message, text_message, Posted,
  socket_opened, message_received, error_raised, answered, Socket, connect_web_socket, close_async,
  register_async, send_web_socket_message_async, posted_message, server_error, received,
  on_web_socket_message, SocketStep, connects, closes, registers, sends, hears, socket_step,
  run_socket,
}

-- A step that lets the socket open: its `Open` message.
abbrev pub opens : SocketStep → Bool
opens (hears open_message) = true
opens _ = false

abbrev pub NeverOpens : List SocketStep → Type 0
NeverOpens [] = Unit
NeverOpens (x ∷ xs) = (opens x ≡ false) × NeverOpens xs

-- Every callback of a request is given an error.
abbrev pub NoneSucceeds : List Posted → Type 0
NoneSucceeds [] = Unit
NoneSucceeds (answered (ok _) ∷ ps) = ⊥
NoneSucceeds (p ∷ ps) = NoneSucceeds ps

NoneSucceeds-append :
    (ps qs : List Posted) → NoneSucceeds ps → NoneSucceeds qs → NoneSucceeds (ps ++ qs)
NoneSucceeds-append [] qs a b = b
NoneSucceeds-append (answered (ok _) ∷ ps) qs a b = absurd a
NoneSucceeds-append (answered (err e) ∷ ps) qs a b = NoneSucceeds-append ps qs a b
NoneSucceeds-append (socket_opened ∷ ps) qs a b = NoneSucceeds-append ps qs a b
NoneSucceeds-append (message_received m ∷ ps) qs a b = NoneSucceeds-append ps qs a b
NoneSucceeds-append (error_raised e ∷ ps) qs a b = NoneSucceeds-append ps qs a b

-- The socket is not open, and has sent what it had sent.
abbrev pub Idle : List String → Socket × List Posted → Type 0
Idle texts (s, ps) = (s.websocket_open ≡ false) × (s.sent ≡ texts) × NoneSucceeds ps

module _ (json : Json) where
  message_quiet : (r : Result SignalingMessage) → NoneSucceeds (posted_message json r)
  message_quiet (ok m) = tt
  message_quiet (err e) = tt

  received_quiet : (r : Result json.Value) → Keeps NoneSucceeds (received json r)
  unfolding received
  received_quiet (err e) = tt
  received_quiet (ok outer) = >>=-Keeps NoneSucceeds (server_error json outer) _ λ error.
      if_cases (Keeps NoneSucceeds) (str_eq error "")
        (λ _.
          >>=-Keeps NoneSucceeds (string_member json outer "msg") _ λ payload.
            >>=-Keeps NoneSucceeds (parse_signaling_message json payload) _ message_quiet)
        (λ _. tt)

  heard_quiet :
      (m : WebSocketMessage) (s : Socket)
      → opens (hears m) ≡ false
      → s.websocket_open ≡ false
      → Keeps (Idle s.sent) (on_web_socket_message json m s)
  unfolding on_web_socket_message
  heard_quiet open_message s n o = absurd cc
  heard_quiet close_message s n o =
      (refl, refl, if_cases NoneSucceeds s.closing (λ _. tt) (λ _. tt))
  heard_quiet (error_message t) s n o = (refl, refl, tt)
  heard_quiet other_message s n o = (o, refl, tt)
  heard_quiet (text_message t) s n o =
      >>=-Keeps_both NoneSucceeds (Idle s.sent) (received json (parse_json json t)) _
        (received_quiet (parse_json json t)) (λ ps h. (o, refl, h))

  registers_quiet :
      (jr : JoinResponse) (success : Bool) (s : Socket)
      → s.websocket_open ≡ false
      → Idle s.sent (register_async json jr success s)
  unfolding register_async
  registers_quiet jr success s o =
      if_cases (Idle s.sent) s.websocket_open (λ t. absurd cc) (λ _. (o, refl, tt))

  sends_quiet :
      (text : String) (success : Bool) (s : Socket)
      → s.websocket_open ≡ false
      → Keeps (Idle s.sent) (send_web_socket_message_async json text success s)
  unfolding send_web_socket_message_async
  sends_quiet text success s o =
      if_cases (Keeps (Idle s.sent)) s.websocket_open (λ t. absurd cc) (λ _. (o, refl, tt))

  closes_quiet : (jr : JoinResponse) (s : Socket) → Idle s.sent (close_async jr s, [])
  unfolding close_async
  closes_quiet jr s = ground arith

  step_quiet :
      (x : SocketStep) (s : Socket)
      → opens x ≡ false
      → s.websocket_open ≡ false
      → Keeps (Idle s.sent) (socket_step json x s)
  unfolding socket_step connect_web_socket
  step_quiet (connects jr) s n o = (refl, refl, tt)
  step_quiet (closes jr) s n o = closes_quiet jr s
  step_quiet (registers jr success) s n o = registers_quiet jr success s o
  step_quiet (sends message success) s n o = sends_quiet message success s o
  step_quiet (hears m) s n o = heard_quiet m s n o

  run_quiet :
      (xs : List SocketStep) (s : Socket)
      → NeverOpens xs
      → s.websocket_open ≡ false
      → Keeps (Idle s.sent) (run_socket json xs s)
  unfolding run_socket
  run_quiet [] s n o = (o, refl, tt)
  run_quiet (x ∷ xs) s n o =
      >>=-Keeps_both (Idle s.sent) (Idle s.sent) (socket_step json x s) _ (step_quiet x s n.0 o)
        λ r h.
          >>=-Keeps_both (Idle r.0.sent) (Idle s.sent) (run_socket json xs r.0) _
            (run_quiet xs r.0 n.1 h.0) λ q g. (g.0, g.1 ∙ h.1, NoneSucceeds-append r.1 q.1 h.2 g.2)

  -- From a socket that is not open, through any steps without its `Open` message and without a
  -- crash: nothing is sent, and every `RegisterAsync` and `SendWebSocketMessageAsync` is answered
  -- with an error.
  pub run_socket-Idle :
      (xs : List SocketStep) (s t : Socket) (ps : List Posted)
      → NeverOpens xs
      → s.websocket_open ≡ false
      → run_socket json xs s ≡ some (t, ps)
      → (t.websocket_open ≡ false) × (t.sent ≡ s.sent) × NoneSucceeds ps
  run_socket-Idle xs s t ps n o h =
      Keeps-some (Idle s.sent) (run_socket json xs s) (run_quiet xs s n o) h
