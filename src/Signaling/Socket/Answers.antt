-- ===== src/Signaling/Socket/Answers.antt =====
-- What the socket's thread and the network thread post, step by step.
use vcpkg_webrtc_sample.Prelude.{
  ℕ, suc, Bool, String, ◌+◌, ◌≡◌, refl, List, [], ◌∷◌, ◌++◌, some, arith, Result, ok, err, Keeps,
  >>=-Keeps, >>=-Keeps_both, Keeps-some, if_cases, str_eq,
}
use vcpkg_webrtc_sample.Common.Json.{Json}
use vcpkg_webrtc_sample.Common.Join.{JoinResponse}
use vcpkg_webrtc_sample.Common.Message.{SignalingMessage, string_member, parse_signaling_message}
use vcpkg_webrtc_sample.Signaling.Http.{parse_json}
use vcpkg_webrtc_sample.Signaling.Socket.{
  WebSocketMessage, open_message, close_message, other_message, error_message, text_message, Posted,
  socket_opened, message_received, error_raised, answered, Socket, register_async, send_text,
  send_web_socket_message_async, posted_message, server_error, received, on_web_socket_message,
  SocketStep, connects, closes, registers, sends, hears, socket_step, run_socket,
}

-- The answers among what was posted, and the steps that want one.
abbrev pub count_answers : List Posted → ℕ
count_answers [] = 0
count_answers (answered s ∷ ps) = suc (count_answers ps)
count_answers (socket_opened ∷ ps) = count_answers ps
count_answers (message_received m ∷ ps) = count_answers ps
count_answers (error_raised e ∷ ps) = count_answers ps

abbrev pub wants_answer : SocketStep → ℕ
wants_answer (registers jr success) = 1
wants_answer (sends message success) = 1
wants_answer (connects jr) = 0
wants_answer (closes jr) = 0
wants_answer (hears m) = 0

abbrev pub count_requests : List SocketStep → ℕ
count_requests [] = 0
count_requests (x ∷ xs) = wants_answer x + count_requests xs

count_answers-append :
    (ps qs : List Posted) → count_answers (ps ++ qs) ≡ count_answers ps + count_answers qs
count_answers-append [] qs = omega arith
count_answers-append (answered s ∷ ps) qs = ground (arith, count_answers-append ps qs)
count_answers-append (socket_opened ∷ ps) qs = count_answers-append ps qs
count_answers-append (message_received m ∷ ps) qs = count_answers-append ps qs
count_answers-append (error_raised e ∷ ps) qs = count_answers-append ps qs

module _ (json : Json) where
  abbrev Silent : List Posted → Type 0
  Silent ps = count_answers ps ≡ 0

  message_Silent : (r : Result SignalingMessage) → Silent (posted_message json r)
  message_Silent (ok m) = refl
  message_Silent (err e) = refl

  received-Silent : (r : Result json.Value) → Keeps Silent (received json r)
  unfolding received
  received-Silent (err e) = refl
  received-Silent (ok outer) = >>=-Keeps Silent (server_error json outer) _ λ error.
      if_cases (Keeps Silent) (str_eq error "")
        (λ _.
          >>=-Keeps Silent (string_member json outer "msg") _
            λ payload. >>=-Keeps Silent (parse_signaling_message json payload) _ message_Silent)
        (λ _. refl)

  heard-Silent :
      (m : WebSocketMessage) (s : Socket) → Keeps (λ r. Silent r.1) (on_web_socket_message json m s)
  unfolding on_web_socket_message
  heard-Silent open_message s = refl
  heard-Silent close_message s = ground arith
  heard-Silent (error_message t) s = refl
  heard-Silent other_message s = refl
  heard-Silent (text_message t) s =
      >>=-Keeps_both Silent (λ r. Silent r.1) (received json (parse_json json t)) _
        (received-Silent (parse_json json t)) (λ ps h. h)

  registers-answers :
      (jr : JoinResponse) (success : Bool) (s : Socket)
      → count_answers (register_async json jr success s).1 ≡ 1
  unfolding register_async send_text
  registers-answers jr success s =
      if_cases (λ (r : Socket × List Posted). count_answers r.1 ≡ 1) s.websocket_open (λ _. refl)
        (λ _. refl)

  sends-answers :
      (message : String) (success : Bool) (s : Socket)
      → Keeps (λ r. count_answers r.1 ≡ 1) (send_web_socket_message_async json message success s)
  unfolding send_web_socket_message_async send_text
  sends-answers message success s =
      let P : Socket × List Posted → Type 0 = λ r. count_answers r.1 ≡ 1 in
      if_cases (Keeps P) s.websocket_open
        (λ _. >>=-Keeps P (parse_signaling_message json message) _ (λ r. refl)) (λ _. refl)

  step-answers :
      (x : SocketStep) (s : Socket)
      → Keeps (λ r. count_answers r.1 ≡ wants_answer x) (socket_step json x s)
  unfolding socket_step
  step-answers (connects jr) s = refl
  step-answers (closes jr) s = refl
  step-answers (registers jr success) s = registers-answers jr success s
  step-answers (sends message success) s = sends-answers message success s
  step-answers (hears m) s = heard-Silent m s

  abbrev Counted : List SocketStep → Socket × List Posted → Type 0
  Counted xs r = count_answers r.1 ≡ count_requests xs

  answers-Counted : (xs : List SocketStep) (s : Socket) → Keeps (Counted xs) (run_socket json xs s)
  unfolding run_socket
  answers-Counted [] s = refl
  answers-Counted (x ∷ xs) s =
      >>=-Keeps_both (λ r. count_answers r.1 ≡ wants_answer x) (Counted (x ∷ xs))
        (socket_step json x s) _ (step-answers x s)
        λ r h.
          >>=-Keeps_both (Counted xs) (Counted (x ∷ xs)) (run_socket json xs r.0) _
            (answers-Counted xs r.0) λ q g. ground (arith, count_answers-append r.1 q.1)

  -- Through any steps that do not crash, each `RegisterAsync` and each `SendWebSocketMessageAsync`
  -- has its callback posted exactly once, and nothing else posts such a callback.
  pub run_socket-answers :
      (xs : List SocketStep) (s t : Socket) (ps : List Posted)
      → run_socket json xs s ≡ some (t, ps)
      → count_answers ps ≡ count_requests xs
  run_socket-answers xs s t ps h =
      Keeps-some (Counted xs) (run_socket json xs s) (answers-Counted xs s) h
