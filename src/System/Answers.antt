-- ===== src/System/Answers.antt =====
-- The answers that were posted, and the tasks that they belong to.
use vcpkg_webrtc_sample.Prelude.{
  ℕ, zero, suc, ◌+◌, ◌-◌, ◌≡◌, refl, ap, Bool, flag, String, List, [], ◌∷◌, ◌++◌, some, none,
  Crashes, Result, Status, ◌>>=◌, Keeps, >>=-Keeps, >>=-Keeps_both, if_cases, arith,
}
use vcpkg_webrtc_sample.Common.Json.{Json}
use vcpkg_webrtc_sample.Common.Join.{JoinResponse}
use vcpkg_webrtc_sample.Common.Message.{parse_signaling_message}
use vcpkg_webrtc_sample.Signaling.Join.{join_room_answer}
use vcpkg_webrtc_sample.Signaling.Socket as S
use vcpkg_webrtc_sample.Peer.Api.{PeerApi}
use vcpkg_webrtc_sample.Call.State.{
  SendCallback, after_description, after_candidate, after_bye, Request, join_room,
  connect_web_socket, register, send_to_room, send_web_socket_message, close_signaling,
}
use vcpkg_webrtc_sample.Call.Run.{join_complete, register_complete}
use vcpkg_webrtc_sample.Call.Requests.{Kind, sends_for, is_of, count}
use vcpkg_webrtc_sample.Call.Requests.Moved.{answers}
use vcpkg_webrtc_sample.System.{
  Reply, size, first, made_since, queue_tasks, callback_event, perform, Callback, runs,
  reads_response, answering, socket_events,
}

count-++ : (k : Kind) (xs ys : List Request) → count k (xs ++ ys) ≡ count k xs + count k ys
count-++ k [] ys = omega arith
count-++ k (x ∷ xs) ys = omega (arith, count-++ k xs ys)

pub count-queue_tasks :
    (k : Kind) (rs ts : List Request) → count k (queue_tasks rs ts) ≡ count k rs + count k ts
count-queue_tasks k [] ts = omega arith
count-queue_tasks k (r ∷ rs) ts =
    omega (arith, count-++ k (queue_tasks rs ts) (r ∷ []), count-queue_tasks k rs ts)

size-++ : (xs ys : List Request) → size (xs ++ ys) ≡ size xs + size ys
size-++ [] ys = omega arith
size-++ (x ∷ xs) ys = omega (arith, size-++ xs ys)

first-++ : (n : ℕ) (xs ys : List Request) → size xs ≡ n → first n (xs ++ ys) ≡ xs
first-++ zero [] ys e = refl
first-++ zero (x ∷ xs) ys e = absurd (omega arith)
first-++ (suc n) [] ys e = absurd (omega arith)
first-++ (suc n) (x ∷ xs) ys e = ap (λ zs. x ∷ zs) (first-++ n xs ys (omega arith))

pub made_since-++ : (made old : List Request) → made_since old (made ++ old) ≡ made
made_since-++ made old =
    first-++ (size (made ++ old) - size old) made old (omega (arith, size-++ made old))

module _ (json : Json) (api : PeerApi) where
  -- Whether what was posted is the callback of a request, and of which kind.
  abbrev pub is_answer : Callback json api → Kind → Bool
  is_answer (runs e) k = answers e k
  is_answer (reads_response callback response) k = sends_for callback k

  abbrev pub count_answers : Kind → List (Callback json api) → ℕ
  count_answers k [] = 0
  count_answers k (c ∷ cs) = flag (is_answer c k) + count_answers k cs

  pub count_answers-++ :
      (k : Kind) (xs ys : List (Callback json api))
      → count_answers k (xs ++ ys) ≡ count_answers k xs + count_answers k ys
  count_answers-++ k [] ys = omega arith
  count_answers-++ k (x ∷ xs) ys = omega (arith, count_answers-++ k xs ys)

  pub callback_event-answers :
      (callback : SendCallback) (status : Status) (k : Kind)
      → answers (callback_event json api callback status) k ≡ sends_for callback k
  callback_event-answers after_description status k = ground arith
  callback_event-answers after_candidate status k = ground arith
  callback_event-answers after_bye status k = ground arith

  -- A task posts one answer of its kind, or none.
  abbrev pub Answers : Request → S.Socket × List (Callback json api) → Type 0
  Answers r (s, es) = (k : Kind) → count_answers k es ≡ flag (is_of r k)

  join-Answers :
      (url room_id : String) (s : S.Socket) (m : Crashes (Result JoinResponse))
      → Keeps
          (Answers (join_room url room_id))
          ((m >>= λ r. some (runs (join_complete r) ∷ [])) >>= λ callbacks. some (s, callbacks))
  join-Answers url room_id s none = tt
  join-Answers url room_id s (some r) = λ k. ground arith

  register-Answers :
      (jr : JoinResponse) (success : Bool) (s : S.Socket)
      → Answers
          (register jr)
          (answering json api register_complete (S.register_async json jr success s))
  unfolding S.register_async S.send_text
  register-Answers jr success s =
      if_cases (λ q. Answers (register jr) (answering json api register_complete q))
        s.websocket_open (λ _ k. ground arith) (λ _ k. ground arith)

  send-Answers :
      (message : String) (callback : SendCallback) (success : Bool) (s : S.Socket)
      → Keeps
          (λ q.
            Answers
              (send_web_socket_message message callback)
              (answering json api (callback_event json api callback) q))
          (S.send_web_socket_message_async json message success s)
  unfolding S.send_web_socket_message_async S.send_text
  send-Answers message callback success s =
      let P : S.Socket × List S.Posted → Type 0 = λ q.
        Answers (send_web_socket_message message callback)
          (answering json api (callback_event json api callback) q) in
      let one : (status : Status) (k : Kind)
          → flag (answers (callback_event json api callback status) k) + 0
            ≡ flag (sends_for callback k) =
        λ status k. omega (arith, ap flag (callback_event-answers callback status k)) in
      if_cases (Keeps P) s.websocket_open
        (λ _. >>=-Keeps P (parse_signaling_message json message) _ (λ r k. one _ k))
        (λ _ k. one _ k)

  pub perform-Answers :
      (r : Request) (w : Reply) (s : S.Socket) → Keeps (Answers r) (perform json api r w s)
  unfolding perform
  perform-Answers (join_room url room_id) w s = join-Answers url room_id s (join_room_answer json _)
  perform-Answers (connect_web_socket jr) w s = λ k. refl
  perform-Answers (register jr) w s = register-Answers jr w.success s
  perform-Answers (send_to_room url room_id client_id message callback) w s = λ k. omega arith
  perform-Answers (send_web_socket_message message callback) w s =
      >>=-Keeps_both _ (Answers (send_web_socket_message message callback))
        (S.send_web_socket_message_async json message w.success s) _
        (send-Answers message callback w.success s) (λ r h. h)
  perform-Answers (close_signaling jr) w s = λ k. refl

  pub socket_events-answers :
      (ps : List S.Posted) (k : Kind) → count_answers k (socket_events json api ps) ≡ 0
  socket_events-answers [] k = refl
  socket_events-answers (S.socket_opened ∷ ps) k = omega (arith, socket_events-answers ps k)
  socket_events-answers (S.message_received m ∷ ps) k = omega (arith, socket_events-answers ps k)
  socket_events-answers (S.error_raised e ∷ ps) k = omega (arith, socket_events-answers ps k)
  socket_events-answers (S.answered status ∷ ps) k = socket_events-answers ps k
