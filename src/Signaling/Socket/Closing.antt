-- ===== src/Signaling/Socket/Closing.antt =====
-- The web socket after `CloseAsync`.
use vcpkg_webrtc_sample.Prelude.{
  ◌≡◌, Bool, true, false, List, [], ◌∷◌, some, none, Crashes, String, ◌>>=◌, Keeps, >>=-Keeps,
  >>=-Keeps_both, Keeps-some, if_cases, arith,
}
use vcpkg_webrtc_sample.Common.Json.{Json}
use vcpkg_webrtc_sample.Common.Join.{JoinResponse}
use vcpkg_webrtc_sample.Common.Message.{parse_signaling_message}
use vcpkg_webrtc_sample.Signaling.Http.{parse_json}
use vcpkg_webrtc_sample.Signaling.Socket.{
  WebSocketMessage, open_message, close_message, other_message, error_message, text_message, Posted,
  Socket, close_async, register_async, send_web_socket_message_async, received, send_text,
  send_command, on_web_socket_message, SocketStep, connects, closes, registers, sends, hears,
  socket_step, run_socket,
}

-- No step is a `ConnectWebSocketAsync`.
abbrev pub NeverConnects : List SocketStep → Type 0
NeverConnects [] = Unit
NeverConnects (connects jr ∷ xs) = ⊥
NeverConnects (x ∷ xs) = NeverConnects xs

abbrev IsConnect : SocketStep → Type 0
IsConnect (connects jr) = Unit
IsConnect _ = ⊥

abbrev Closing : Socket × List Posted → Type 0
Closing (s, ps) = s.closing ≡ true

close_async-Closing : (jr : JoinResponse) (s : Socket) → (close_async jr s).closing ≡ true
unfolding close_async
close_async-Closing jr s = ground arith

first_is_not : (x : SocketStep) (xs : List SocketStep) → NeverConnects (x ∷ xs) → ¬ IsConnect x
first_is_not (connects jr) xs n = absurd n
first_is_not (closes jr) xs n = λ h. h
first_is_not (registers jr success) xs n = λ h. h
first_is_not (sends text success) xs n = λ h. h
first_is_not (hears m) xs n = λ h. h

others : (x : SocketStep) (xs : List SocketStep) → NeverConnects (x ∷ xs) → NeverConnects xs
others (connects jr) xs n = absurd n
others (closes jr) xs n = n
others (registers jr success) xs n = n
others (sends text success) xs n = n
others (hears m) xs n = n

module _ (json : Json) where
  heard-Closing :
      (m : WebSocketMessage) (s : Socket)
      → s.closing ≡ true
      → Keeps Closing (on_web_socket_message json m s)
  unfolding on_web_socket_message
  heard-Closing open_message s h = h
  heard-Closing close_message s h = h
  heard-Closing (error_message t) s h = h
  heard-Closing other_message s h = h
  heard-Closing (text_message t) s h =
      >>=-Keeps Closing (received json (parse_json json t)) _ (λ ps. h)

  registers-Closing :
      (jr : JoinResponse) (success : Bool) (s : Socket)
      → s.closing ≡ true
      → Closing (register_async json jr success s)
  unfolding register_async send_text
  registers-Closing jr success s h = if_cases Closing s.websocket_open (λ _. h) (λ _. h)

  sends-Closing :
      (text : String) (success : Bool) (s : Socket)
      → s.closing ≡ true
      → Keeps Closing (send_web_socket_message_async json text success s)
  unfolding send_web_socket_message_async send_text
  sends-Closing text success s h =
      if_cases (Keeps Closing) s.websocket_open
        (λ _. after_parse (parse_signaling_message json text)) (λ _. h)
    where
      after_parse :
          {A : Type 0} (m : Crashes A)
          → Keeps Closing (
              m >>= λ r.
              some (send_text "websocket send failed" (send_command json text) success s))
      after_parse none = tt
      after_parse (some a) = h

  step-Closing :
      (x : SocketStep) (s : Socket)
      → ¬ IsConnect x
      → s.closing ≡ true
      → Keeps Closing (socket_step json x s)
  unfolding socket_step
  step-Closing (connects jr) s n h = absurd (n tt)
  step-Closing (closes jr) s n h = close_async-Closing jr s
  step-Closing (registers jr success) s n h = registers-Closing jr success s h
  step-Closing (sends text success) s n h = sends-Closing text success s h
  step-Closing (hears m) s n h = heard-Closing m s h

  run-Closing :
      (xs : List SocketStep) (s : Socket)
      → NeverConnects xs
      → s.closing ≡ true
      → Keeps Closing (run_socket json xs s)
  unfolding run_socket
  run-Closing [] s n h = h
  run-Closing (x ∷ xs) s n h =
      >>=-Keeps_both Closing Closing (socket_step json x s) _
        (step-Closing x s (first_is_not x xs n) h)
        λ r k.
          >>=-Keeps_both Closing Closing (run_socket json xs r.0) _
            (run-Closing xs r.0 (others x xs n) k) (λ q g. g)

  -- After `CloseAsync` and any further steps that do not crash and among which there is no
  -- `ConnectWebSocketAsync`, a `Close` message of the socket posts nothing.
  pub close_message_after_close :
      (jr : JoinResponse) (xs : List SocketStep) (s t : Socket) (ps : List Posted)
      → NeverConnects xs
      → run_socket json xs (close_async jr s) ≡ some (t, ps)
      → on_web_socket_message json close_message t ≡ some (record t { websocket_open = false }, [])
  unfolding on_web_socket_message
  close_message_after_close jr xs s t ps n h =
      let closing =
        Keeps-some Closing (run_socket json xs (close_async jr s))
          (run-Closing xs (close_async jr s) n (close_async-Closing jr s)) h in
      rw closing
