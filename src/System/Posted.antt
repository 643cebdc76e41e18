-- ===== src/System/Posted.antt =====
-- What is posted to the signaling thread can follow in a schedule of the controller.
use vcpkg_webrtc_sample.Prelude.{
  ◌≡◌, refl, true, String, List, [], ◌∷◌, ◌++◌, some, none, Crashes, Result, Status, Keeps,
  >>=-Keeps, ◌>>=◌,
}
use vcpkg_webrtc_sample.Common.Json.{Json}
use vcpkg_webrtc_sample.Common.Join.{JoinResponse}
use vcpkg_webrtc_sample.Signaling.Join.{join_room_url, join_room_answer}
use vcpkg_webrtc_sample.Signaling.Transfer.{post_empty}
use vcpkg_webrtc_sample.Signaling.Socket as S
use vcpkg_webrtc_sample.Peer.Rtc.{Rtc}
use vcpkg_webrtc_sample.Peer.Client.{peer_client}
use vcpkg_webrtc_sample.Call.State.{
  SendCallback, after_description, after_candidate, after_bye, Request, join_room,
  connect_web_socket, register, send_to_room, send_web_socket_message, close_signaling,
}
use vcpkg_webrtc_sample.Call.Run.{Event, join_complete, register_complete}
use vcpkg_webrtc_sample.Call.Program.{Reads, Answered, AllAnswered}
use vcpkg_webrtc_sample.System.{
  Callback, runs, reads_response, answer_callbacks, Reply, callback_event, perform, socket_events,
  is_own, Move, works,
}

module _ (json : Json) (rtc : Rtc) (start_video : Status) where
  abbrev Ev : Type 0
  Ev = Event (peer_client json rtc start_video)

  -- Should the network thread run a join, the messages that waited in the room can be read.
  abbrev pub CanRead : Move json (peer_client json rtc start_video) → Type 0
  CanRead (works w) =
      (url : String) (r : Result JoinResponse)
      → join_room_answer json (post_empty w.transfer url).0 ≡ some r
      → Reads json rtc start_video r
  CanRead m = Unit

  abbrev pub AllCanRead : List (Move json (peer_client json rtc start_video)) → Type 0
  AllCanRead [] = Unit
  AllCanRead (m ∷ ms) = CanRead m × AllCanRead ms

  pub AllAnswered-++ :
      (xs ys : List Ev)
      → AllAnswered json rtc start_video xs
      → AllAnswered json rtc start_video ys
      → AllAnswered json rtc start_video (xs ++ ys)
  AllAnswered-++ [] ys a b = b
  AllAnswered-++ (x ∷ xs) ys (h, a) b = (h, AllAnswered-++ xs ys a b)

  pub callback-Answered :
      (callback : SendCallback) (status : Status)
      → Answered json rtc start_video
          (callback_event json (peer_client json rtc start_video) callback status)
  callback-Answered after_description status = tt
  callback-Answered after_candidate status = tt
  callback-Answered after_bye status = tt

  -- What was posted can follow, whatever a response of the room server says.
  abbrev pub AllFollow : List (Callback json (peer_client json rtc start_video)) → Type 0
  AllFollow [] = Unit
  AllFollow (runs e ∷ cs) = Answered json rtc start_video e × AllFollow cs
  AllFollow (reads_response callback response ∷ cs) = AllFollow cs

  pub AllFollow-++ :
      (xs ys : List (Callback json (peer_client json rtc start_video)))
      → AllFollow xs
      → AllFollow ys
      → AllFollow (xs ++ ys)
  AllFollow-++ [] ys a b = b
  AllFollow-++ (runs e ∷ xs) ys (h, a) b = (h, AllFollow-++ xs ys a b)
  AllFollow-++ (reads_response callback response ∷ xs) ys a b = AllFollow-++ xs ys a b

  abbrev pub Postable : S.Socket × List (Callback json (peer_client json rtc start_video)) → Type 0
  Postable (socket, cs) = AllFollow cs

  answers_follow :
      (f : Status → Ev) (ps : List S.Posted)
      → ((status : Status) → Answered json rtc start_video (f status))
      → AllFollow (answer_callbacks json (peer_client json rtc start_video) f ps)
  answers_follow f [] h = tt
  answers_follow f (S.answered status ∷ ps) h = (h status, answers_follow f ps h)
  answers_follow f (S.socket_opened ∷ ps) h = answers_follow f ps h
  answers_follow f (S.message_received m ∷ ps) h = answers_follow f ps h
  answers_follow f (S.error_raised e ∷ ps) h = answers_follow f ps h

  -- The callbacks that a task posts can follow.
  pub performed :
      (r : Request) (w : Reply) (s : S.Socket)
      → CanRead (works w)
      → Keeps Postable (perform json (peer_client json rtc start_video) r w s)
  unfolding perform
  performed (join_room url room_id) w s h =
      go (join_room_answer json (post_empty w.transfer (join_room_url url room_id)).0) refl
    where
      go :
          (m : Crashes (Result JoinResponse))
          → join_room_answer json (post_empty w.transfer (join_room_url url room_id)).0 ≡ m
          → Keeps Postable
              ((m >>= λ r. some (runs (join_complete r) ∷ [])) >>= λ callbacks. some (s, callbacks))
      go none e = tt
      go (some r) e = (
        (
          (post_empty w.transfer (join_room_url url room_id)).0,
          e,
          h (join_room_url url room_id) r e,
        ),
        tt,
      )
  performed (connect_web_socket jr) w s h = tt
  performed (register jr) w s h =
      answers_follow register_complete (S.register_async json jr w.success s).1 (λ status. tt)
  performed (send_to_room url room_id client_id message callback) w s h = tt
  performed (send_web_socket_message message callback) w s h =
      >>=-Keeps Postable (S.send_web_socket_message_async json message w.success s) _ (λ r.
        answers_follow (callback_event json (peer_client json rtc start_video) callback) r.1
          (callback-Answered callback))
  performed (close_signaling jr) w s h = tt

  pub heard-AllFollow :
      (ps : List S.Posted) → AllFollow (socket_events json (peer_client json rtc start_video) ps)
  heard-AllFollow [] = tt
  heard-AllFollow (S.socket_opened ∷ ps) = (tt, heard-AllFollow ps)
  heard-AllFollow (S.message_received m ∷ ps) = (tt, heard-AllFollow ps)
  heard-AllFollow (S.error_raised e ∷ ps) = (tt, heard-AllFollow ps)
  heard-AllFollow (S.answered status ∷ ps) = heard-AllFollow ps

  pub own-Answered :
      (e : Ev)
      → is_own json (peer_client json rtc start_video) e ≡ true
      → Answered json rtc start_video e
  own-Answered (join_complete r) o = absurd (cc)
  own-Answered e o = tt
