-- ===== src/System.antt =====
-- The threads together: the controller on the signaling thread, the network thread of
-- `AppRtcSignalingClient` with its queue of tasks, and the thread of the web socket.
--
-- A run is a list of moves, one thread after the other: the network thread runs its tasks in the order
-- in which the controller made the requests, and the signaling thread runs what was posted to it in
-- that order; a timer or the peer connection may come in between.
pub mod Answers
pub mod Balance
pub mod Posted
pub mod Refines
pub mod Sent
pub mod Order
use vcpkg_webrtc_sample.Prelude.{
  ℕ, zero, suc, ◌-◌, String, Result, Bool, true, false, if◌then◌else◌, List, [], ◌∷◌, ◌++◌, some,
  Crashes, Status, ◌>>=◌,
}
use vcpkg_webrtc_sample.Common.Config.{AppConfig}
use vcpkg_webrtc_sample.Common.Json.{Json}
use vcpkg_webrtc_sample.Common.Message.{parse_signaling_message}
use vcpkg_webrtc_sample.Signaling.Http.{send_to_room_answer, message_url}
use vcpkg_webrtc_sample.Signaling.Join.{join_room_url, join_room_answer}
use vcpkg_webrtc_sample.Signaling.Transfer.{Transfer, post_json, post_empty}
use vcpkg_webrtc_sample.Signaling.Callbacks.{
  EventCallbacks, no_callbacks, set_event_callbacks, with_callbacks,
}
use vcpkg_webrtc_sample.Signaling.Socket as S
use vcpkg_webrtc_sample.Peer.Api.{PeerApi}
use vcpkg_webrtc_sample.Call.State.{
  Call, new_call, SendCallback, after_description, after_candidate, after_bye, Request, join_room,
  connect_web_socket, register, send_to_room, send_web_socket_message, close_signaling,
}
use vcpkg_webrtc_sample.Call.Handlers.{start}
use vcpkg_webrtc_sample.Call.Run.{
  Event, join_complete, register_complete, description_sent, candidate_sent, bye_sent,
  startup_timer, duration_timer, stats_timer, web_socket_open, inbound, signaling_failure,
  peer_event, step,
}

-- The constructor of the controller sets all three.
abbrev pub controller_callbacks : EventCallbacks
controller_callbacks = set_event_callbacks true true true no_callbacks

-- What the world answers to a task: libcurl, and `send` of the web socket.
pub record Reply : Type 0 where
  pub transfer : Transfer
  pub success : Bool

-- The requests at the front of a list that are not in the old one, which is its end.
abbrev pub size {ℓ} : {A : Type ℓ} → List A → ℕ
size [] = 0
size (x ∷ xs) = suc (size xs)

abbrev pub first {ℓ} : {A : Type ℓ} → ℕ → List A → List A
first zero xs = []
first (suc n) [] = []
first (suc n) (x ∷ xs) = x ∷ first n xs

abbrev pub made_since : List Request → List Request → List Request
made_since old new = first (size new - size old) new

-- The newest stands in front, and is queued last.
abbrev pub queue_tasks : List Request → List Request → List Request
queue_tasks [] tasks = tasks
queue_tasks (r ∷ rs) tasks = queue_tasks rs tasks ++ r ∷ []

module _ (json : Json) (api : PeerApi) where
  abbrev pub callback_event : SendCallback → Status → Event api
  callback_event after_description s = description_sent s
  callback_event after_candidate s = candidate_sent s
  callback_event after_bye s = bye_sent s

  -- What `PostToCallbackThread` queues: a callback with its argument, or the one of
  -- `SendToRoomAsync`, which reads the response of the room server when it runs.
  pub data Callback : Type 0 where
    runs : Event api → Callback
    reads_response : SendCallback → Result String → Callback

  -- The task of `JoinRoomAsync`. It reads the response on the network thread.
  abbrev pub join_room_async : String → String → Transfer → Crashes (List Callback)
  join_room_async url room_id t =
      join_room_answer json (post_empty t (join_room_url url room_id)).0 >>= λ r.
      some (runs (join_complete r) ∷ [])

  -- The task of `SendToRoomAsync`.
  abbrev pub send_to_room_async :
      String → String → String → String → SendCallback → Transfer → List Callback
  send_to_room_async url room_id client_id message callback t =
      reads_response callback (post_json t (message_url url room_id client_id) message).0 ∷ []

  -- The answers among what a request to the web socket posts, each for its callback.
  abbrev pub answer_callbacks : (Status → Event api) → List S.Posted → List Callback
  answer_callbacks f [] = []
  answer_callbacks f (S.answered status ∷ ps) = runs (f status) ∷ answer_callbacks f ps
  answer_callbacks f (p ∷ ps) = answer_callbacks f ps

  abbrev pub answering : (Status → Event api) → S.Socket × List S.Posted → S.Socket × List Callback
  answering f (s, ps) = (s, answer_callbacks f ps)

  -- A task of the network thread, with what it posts to the signaling thread.
  unfoldable pub perform : Request → Reply → S.Socket → Crashes (S.Socket × List Callback)
  perform (join_room url room_id) w s =
      join_room_async url room_id w.transfer >>= λ callbacks. some (s, callbacks)
  perform (connect_web_socket jr) w s = some (S.connect_web_socket jr s, [])
  perform (register jr) w s =
      some (answering register_complete (S.register_async json jr w.success s))
  perform (send_to_room url room_id client_id message callback) w s =
      some (s, send_to_room_async url room_id client_id message callback w.transfer)
  perform (send_web_socket_message message callback) w s =
      S.send_web_socket_message_async json message w.success s >>= λ r.
      some (answering (callback_event callback) r)
  perform (close_signaling jr) w s = some (S.close_async jr s, [])

  -- What the web socket posts becomes a call of one of the three event callbacks; it answers no
  -- request.
  abbrev pub socket_events : List S.Posted → List Callback
  socket_events [] = []
  socket_events (S.socket_opened ∷ ps) = runs web_socket_open ∷ socket_events ps
  socket_events (S.message_received m ∷ ps) = runs (inbound m) ∷ socket_events ps
  socket_events (S.error_raised e ∷ ps) = runs (signaling_failure e) ∷ socket_events ps
  socket_events (S.answered status ∷ ps) = socket_events ps

  -- A timer, or the peer connection.
  abbrev pub is_own : Event api → Bool
  is_own (startup_timer g) = true
  is_own (duration_timer g) = true
  is_own stats_timer = true
  is_own (peer_event e) = true
  is_own e = false

  pub record System : Type 0 where
    pub call : Call api
    pub socket : S.Socket
    -- The tasks of the network thread, and those of the signaling thread, the oldest first.
    pub tasks : List Request
    pub posted : List Callback

  pub data Move : Type 0 where
    works : Reply → Move
    hears : S.WebSocketMessage → Move
    calls_back : Move
    happens : Event api → Move

  abbrev pub start_system : AppConfig → System
  start_system config =
      let call = start (new_call api config) in
      record {
        call = call;
        socket = S.new_socket;
        tasks = queue_tasks call.requests [];
        posted = [];
      }

  -- The controller goes on, and what it asks for is queued for the network thread.
  abbrev pub goes_on : System → Call api → System
  goes_on s d = record s {
    call = d;
    tasks = queue_tasks (made_since s.call.requests d.requests) s.tasks;
  }

  -- A callback on the signaling thread.
  unfoldable pub run_event : Event api → System → Crashes System
  run_event e s = step (parse_signaling_message json) e s.call >>= λ d. some (goes_on s d)

  unfoldable pub work : List Request → Reply → System → Crashes System
  work [] w s = some s
  work (r ∷ rs) w s = perform r w s.socket >>= λ q.
      some (record s { socket = q.0; tasks = rs; posted = s.posted ++ q.1 })

  unfoldable pub call_back : List Callback → System → Crashes System
  unfolding run_event
  call_back [] s = some s
  call_back (runs e ∷ cs) s = run_event e (record s { posted = cs })
  call_back (reads_response callback response ∷ cs) s =
      send_to_room_answer json response >>= λ status.
      run_event (callback_event callback status) (record s { posted = cs })

  -- After `Quit` the signaling thread runs nothing.
  unfoldable pub move : Move → System → Crashes System
  unfolding work call_back run_event
  move (works w) s = work s.tasks w s
  move (hears m) s = S.on_web_socket_message json m s.socket >>= λ q. some (record s {
    socket = q.0;
    posted = s.posted ++ socket_events (with_callbacks controller_callbacks q.1);
  })
  move calls_back s = if s.call.quit then some s else call_back s.posted s
  move (happens e) s = if s.call.quit then some s else if is_own e then run_event e s else some s

  unfoldable pub run_moves : List Move → System → Crashes System
  run_moves [] s = some s
  run_moves (m ∷ ms) s = move m s >>= run_moves ms

  unfoldable pub run_system : AppConfig → List Move → Crashes System
  unfolding run_moves
  run_system config ms = run_moves ms (start_system config)
