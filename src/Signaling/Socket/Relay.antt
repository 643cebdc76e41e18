-- ===== src/Signaling/Socket/Relay.antt =====
-- A message from the web socket of one client to that of another, through the server between them.
use mathlib.Core.List.{reverse_aux}
use vcpkg_webrtc_sample.Prelude.{
  ◌≡◌, refl, sym, ap, subst, String, true, none, some, List, [], ◌∷◌, map, Crashes, ok, ok_status,
  ◌∙◌,
}
use vcpkg_webrtc_sample.Common.Json.{Json, Parsed, parsed, malformed}
use vcpkg_webrtc_sample.Common.Json.Laws.{
  a_text, IsObject, empty, assigned, IsLawful, string_member_same, string_member_other,
}
use vcpkg_webrtc_sample.Common.Message.{SignalingMessage, string_member, parse_signaling_message}
use vcpkg_webrtc_sample.Signaling.Http.{parse_json}
use vcpkg_webrtc_sample.Signaling.Socket.{
  Socket, answered, SocketStep, sends, hears, socket_step, run_socket, message_received,
  text_message, send_command, server_error, received, send_text, send_web_socket_message_async,
  on_web_socket_message,
}

module _ (json : Json) where
  -- What the server sends for a message: an object that has it as its `msg`, and no error.
  pub record Forwards (text envelope : String) : Type 0 where
    pub outer : json.Value
    pub reads : json.parse envelope ≡ parsed outer
    pub msg : string_member json outer "msg" ≡ some text
    pub no_error : server_error json outer ≡ some ""

  -- The server reads a command, and hands on the `msg` of one whose `cmd` is `send`.
  abbrev pub IsRelay : (String → String) → Type 0
  IsRelay relay =
      (command text : String) (outer : json.Value)
      → json.parse command ≡ parsed outer
      → string_member json outer "cmd" ≡ some "send"
      → string_member json outer "msg" ≡ some text
      → Forwards text (relay command)

  -- Each text can be read, as the message of the same place.
  abbrev pub AllRead : List String → List SignalingMessage → Type 0
  AllRead [] [] = Unit
  AllRead (text ∷ texts) (m ∷ ms) =
      (parse_signaling_message json text ≡ some (ok m)) × AllRead texts ms
  AllRead texts ms = ⊥

  heard :
      (text envelope : String) (m : SignalingMessage) (s : Socket)
      → Forwards text envelope
      → parse_signaling_message json text ≡ some (ok m)
      → on_web_socket_message json (text_message envelope) s ≡ some (s, message_received m ∷ [])
  unfolding on_web_socket_message received parse_json
  heard text envelope m s f p = rw f.reads (rw f.no_error (rw f.msg (rw p refl)))

  sent :
      (text : String) (m : SignalingMessage) (s : Socket)
      → parse_signaling_message json text ≡ some (ok m)
      → s.websocket_open ≡ true
      → send_web_socket_message_async json text true s
        ≡ some (record s { sent = send_command json text ∷ s.sent }, answered ok_status ∷ [])
  unfolding send_web_socket_message_async send_text
  sent text m s p o = rw o (rw p refl)

  abbrev pub sending : List String → List SocketStep
  sending texts = map (λ text. sends text true) texts

  abbrev pub hearing : (String → String) → List String → List SocketStep
  hearing relay commands = map (λ command. hears (text_message (relay command))) commands

  -- All of them, on the side of the sender.
  all_sent :
      (texts : List String) (ms : List SignalingMessage) (s : Socket)
      → AllRead texts ms
      → s.websocket_open ≡ true
      → run_socket json (sending texts) s
        ≡ some (
          record s { sent = reverse_aux (map (send_command json) texts) s.sent },
          map (λ text. answered ok_status) texts,
        )
  unfolding run_socket socket_step
  all_sent [] [] s r o = refl
  all_sent [] (m ∷ ms) s r o = absurd r
  all_sent (text ∷ texts) [] s r o = absurd r
  all_sent (text ∷ texts) (m ∷ ms) s (p, r) o =
      let s' = record s { sent = send_command json text ∷ s.sent } in
      rw (sent text m s p o) (rw (all_sent texts ms s' r o) refl)

module _ {json : Json} (lawful : IsLawful json) where
  -- The command, before it is written.
  abbrev command_value : String → json.Value
  command_value text =
      json.with_member (json.with_member json.empty_object "cmd" (json.of_string "send")) "msg"
        (json.of_string text)

  named : IsObject json (json.with_member json.empty_object "cmd" (json.of_string "send"))
  named = assigned "cmd" empty (a_text "send")

  relayed :
      (relay : String → String) (text : String)
      → IsRelay json relay
      → Forwards json text (relay (send_command json text))
  relayed relay text r =
      r (send_command json text) text (command_value text)
        (lawful.parse-write (assigned "msg" named (a_text text)))
        (string_member_other lawful "msg" "cmd" named (a_text text) refl
          ∙ string_member_same lawful "cmd" "send" empty)
        (string_member_same lawful "msg" text named)

  all_heard :
      (relay : String → String) (texts : List String) (ms : List SignalingMessage) (s : Socket)
      → IsRelay json relay
      → AllRead json texts ms
      → run_socket json (hearing json relay (map (send_command json) texts)) s
        ≡ some (s, map (λ m. message_received m) ms)
  unfolding run_socket socket_step
  all_heard relay [] [] s r a = refl
  all_heard relay [] (m ∷ ms) s r a = absurd a
  all_heard relay (text ∷ texts) [] s r a = absurd a
  all_heard relay (text ∷ texts) (m ∷ ms) s r (p, a) =
      rw (heard json text (relay (send_command json text)) m s (relayed relay text r) p)
        (rw (all_heard relay texts ms s r a) refl)

  -- Messages that can be read reach the other client, each once and in their order: the sender, whose
  -- web socket is open and accepts the texts, reports success for each and hands over one
  -- command for each; the client that hears what the server makes of these commands posts exactly
  -- these messages and no error, and its web socket stays as it was. The server is any that reads
  -- a command and hands on the `msg` of one whose `cmd` is `send`, with no error of its own, and
  -- the JSON library reads back what it wrote.
  pub relay_delivers :
      (relay : String → String) (texts : List String) (ms : List SignalingMessage)
      (sender receiver : Socket)
      → IsRelay json relay
      → AllRead json texts ms
      → sender.websocket_open ≡ true
      → (commands : List String) × (run_socket json (sending json texts) sender
          ≡ some (
            record sender { sent = reverse_aux commands sender.sent },
            map (λ text. answered ok_status) texts,
          ))
        × (run_socket json (hearing json relay commands) receiver
            ≡ some (receiver, map (λ m. message_received m) ms))
  relay_delivers relay texts ms sender receiver r a o = (
    map (send_command json) texts,
    all_sent json texts ms sender a o,
    all_heard relay texts ms receiver r a,
  )

-- A server of this kind, over the same JSON library.
abbrev pub handed_on : (json : Json) → String → Crashes String → String
handed_on json command none = command
handed_on json command (some text) =
    json.write (json.with_member json.empty_object "msg" (json.of_string text))

abbrev pub relay_of : (json : Json) → String → Parsed json.Value → String
relay_of json command (malformed errors) = command
relay_of json command (parsed outer) = handed_on json command (string_member json outer "msg")

abbrev pub simple_relay : (json : Json) → String → String
simple_relay json command = relay_of json command (json.parse command)

module _ {json : Json} (lawful : IsLawful json) where
  envelope-Forwards :
      (text : String)
      → Forwards json text
          (json.write (json.with_member json.empty_object "msg" (json.of_string text)))
  unfolding server_error
  envelope-Forwards text = record {
    outer = json.with_member json.empty_object "msg" (json.of_string text);
    reads = lawful.parse-write (assigned "msg" empty (a_text text));
    msg = string_member_same lawful "msg" text empty;
    no_error =
        rw
          (lawful.member_other "msg" "error" empty (a_text text) refl
            ∙ (lawful.member_missing "error").1)
          (rw ((lawful.member_missing "error").2) refl);
  }

  pub simple_relay-IsRelay : IsRelay json (simple_relay json)
  simple_relay-IsRelay command text outer p c m =
      subst (Forwards json text)
        (sym (ap (relay_of json command) p ∙ ap (handed_on json command) m))
        (envelope-Forwards text)
