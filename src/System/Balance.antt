-- ===== src/System/Balance.antt =====
-- The callbacks that are outstanding, and the tasks that they belong to.
use vcpkg_webrtc_sample.Prelude.{
  ◌+◌, ◌≡◌, refl, ap, true, false, flag, List, [], ◌∷◌, some, Keeps, >>=-Keeps, >>=-Keeps_both,
  Keeps-some, if_cases, arith,
}
use vcpkg_webrtc_sample.Common.Config.{AppConfig}
use vcpkg_webrtc_sample.Common.Json.{Json}
use vcpkg_webrtc_sample.Common.Message.{parse_signaling_message}
use vcpkg_webrtc_sample.Signaling.Http.{send_to_room_answer}
use vcpkg_webrtc_sample.Signaling.Callbacks.{with_callbacks}
use vcpkg_webrtc_sample.Signaling.Socket as S
use vcpkg_webrtc_sample.Peer.Api.{PeerApi}
use vcpkg_webrtc_sample.Call.State.{Request}
use vcpkg_webrtc_sample.Call.Handlers.{start}
use vcpkg_webrtc_sample.Call.Run.{Event, step}
use vcpkg_webrtc_sample.Call.Kept.{core}
use vcpkg_webrtc_sample.Call.Requests.{Kind, count, callbacks}
use vcpkg_webrtc_sample.Call.Requests.Moved.{answers, Moved, step-Moved}
use vcpkg_webrtc_sample.System.{
  controller_callbacks, Reply, made_since, queue_tasks, callback_event, perform, Callback, runs,
  reads_response, socket_events, is_own, System, Move, works, hears, calls_back, happens,
  start_system, run_event, work, call_back, move, run_moves, run_system,
}
use vcpkg_webrtc_sample.System.Answers.{
  count_answers, count_answers-++, callback_event-answers, Answers, perform-Answers,
  socket_events-answers, count-queue_tasks, made_since-++,
}

module _ (json : Json) (api : PeerApi) where
  -- For each kind, as many callbacks as tasks that will answer and answers that were posted.
  abbrev pub IsBalanced : System json api → Type 0
  IsBalanced s =
      (k : Kind) → callbacks k (core s.call) ≡ count k s.tasks + count_answers json api k s.posted

  -- After an event that was taken from the tasks of the signaling thread, or is no answer.
  run_event-IsBalanced :
      (e : Event api) (s : System json api)
      → s.call.quit ≡ false
      → ((k : Kind)
          → callbacks k (core s.call)
            ≡ count k s.tasks + (flag (answers e k) + count_answers json api k s.posted))
      → Keeps IsBalanced (run_event json api e s)
  unfolding run_event
  run_event-IsBalanced e s q b =
      >>=-Keeps_both (Moved e s.call) IsBalanced (step (parse_signaling_message json) e s.call) _
        (step-Moved (parse_signaling_message json) e s.call q (λ k. omega (arith, b k)))
        (λ d v k. omega (
          arith,
          b k,
          v.balanced k,
          count-queue_tasks k v.made s.tasks,
          ap (λ rs. count k (queue_tasks (made_since s.call.requests rs) s.tasks)) v.on_top,
          ap (λ rs. count k (queue_tasks rs s.tasks)) (made_since-++ v.made s.call.requests),
        ))

  work-IsBalanced :
      (rs : List Request) (w : Reply) (s : System json api)
      → s.tasks ≡ rs
      → IsBalanced s
      → Keeps IsBalanced (work json api rs w s)
  unfolding work
  work-IsBalanced [] w s e b = b
  work-IsBalanced (r ∷ rs) w s e b =
      >>=-Keeps_both (Answers json api r) IsBalanced (perform json api r w s.socket) _
        (perform-Answers json api r w s.socket)
        (λ q a k. omega (arith, b k, a k, ap (count k) e, count_answers-++ json api k s.posted q.1))

  call_back-IsBalanced :
      (cs : List (Callback json api)) (s : System json api)
      → s.call.quit ≡ false
      → s.posted ≡ cs
      → IsBalanced s
      → Keeps IsBalanced (call_back json api cs s)
  unfolding call_back
  call_back-IsBalanced [] s q e b = b
  call_back-IsBalanced (runs x ∷ cs) s q e b =
      run_event-IsBalanced x (record s { posted = cs }) q
        (λ k. omega (arith, b k, ap (count_answers json api k) e))
  call_back-IsBalanced (reads_response callback response ∷ cs) s q e b =
      >>=-Keeps IsBalanced (send_to_room_answer json response) _ (λ status.
        run_event-IsBalanced (callback_event json api callback status) (record s { posted = cs }) q
          (λ k. omega (
            arith,
            b k,
            ap (count_answers json api k) e,
            ap flag (callback_event-answers json api callback status k),
          )))

  pub is_own-answers : (e : Event api) (k : Kind) → is_own json api e ≡ true → answers e k ≡ false
  is_own-answers e k h = ground arith

  own-IsBalanced :
      (e : Event api) (s : System json api)
      → s.call.quit ≡ false
      → is_own json api e ≡ true
      → IsBalanced s
      → Keeps IsBalanced (run_event json api e s)
  own-IsBalanced e s q o b =
      run_event-IsBalanced e s q (λ k. omega (arith, b k, ap flag (is_own-answers e k o)))

  pub move-IsBalanced :
      (m : Move json api) (s : System json api)
      → IsBalanced s
      → Keeps IsBalanced (move json api m s)
  unfolding move
  move-IsBalanced (works w) s b = work-IsBalanced s.tasks w s refl b
  move-IsBalanced (hears m) s b =
      >>=-Keeps IsBalanced (S.on_web_socket_message json m s.socket) _ (λ q k. omega (
        arith,
        b k,
        count_answers-++ json api k s.posted
            (socket_events json api (with_callbacks controller_callbacks q.1)),
        socket_events-answers json api (with_callbacks controller_callbacks q.1) k,
      ))
  move-IsBalanced calls_back s b =
      if_cases (Keeps IsBalanced) s.call.quit (λ _. b)
        (λ q. call_back-IsBalanced s.posted s q refl b)
  move-IsBalanced (happens e) s b =
      if_cases (Keeps IsBalanced) s.call.quit (λ _. b)
        (λ q.
          if_cases (Keeps IsBalanced) (is_own json api e) (λ o. own-IsBalanced e s q o b) (λ _. b))

  moves-IsBalanced :
      (ms : List (Move json api)) (s : System json api)
      → IsBalanced s
      → Keeps IsBalanced (run_moves json api ms s)
  unfolding run_moves
  moves-IsBalanced [] s b = b
  moves-IsBalanced (m ∷ ms) s b =
      >>=-Keeps_both IsBalanced IsBalanced (move json api m s) (run_moves json api ms)
        (move-IsBalanced m s b) (moves-IsBalanced ms)

  pub start-IsBalanced : (config : AppConfig) → IsBalanced (start_system json api config)
  unfolding start
  start-IsBalanced config k = ground arith

  -- In every state of the system, for each kind of callback: as many of them are outstanding as
  -- there are tasks of the network thread that will answer one, and answers that wait for the
  -- signaling thread. So no callback is lost and none runs twice, whatever the servers answer.
  pub run_system-IsBalanced :
      (config : AppConfig) (ms : List (Move json api)) (s : System json api)
      → run_system json api config ms ≡ some s
      → (k : Kind) → callbacks k (core s.call) ≡ count k s.tasks + count_answers json api k s.posted
  unfolding run_system
  run_system-IsBalanced config ms s h =
      Keeps-some IsBalanced (run_system json api config ms)
        (moves-IsBalanced ms (start_system json api config) (start-IsBalanced config)) h
