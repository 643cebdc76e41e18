-- ===== src/System/Refines.antt =====
-- A run of the threads is a schedule of the controller.
use vcpkg_webrtc_sample.Prelude.{
  ◌≡◌, refl, subst, ◌∙◌, List, [], ◌∷◌, ◌++◌, some, none, Crashes, Status, Keeps, >>=-Keeps,
  >>=-Keeps_both, >>=-eq-some, Keeps-some, if_cases, ◌>>=◌,
}
use vcpkg_webrtc_sample.Common.Config.{AppConfig}
use vcpkg_webrtc_sample.Common.Json.{Json}
use vcpkg_webrtc_sample.Common.Message.{parse_signaling_message}
use vcpkg_webrtc_sample.Signaling.Http.{send_to_room_answer}
use vcpkg_webrtc_sample.Signaling.Callbacks.{with_callbacks}
use vcpkg_webrtc_sample.Signaling.Socket as S
use vcpkg_webrtc_sample.Peer.Rtc.{Rtc}
use vcpkg_webrtc_sample.Peer.Client.{peer_client}
use vcpkg_webrtc_sample.Peer.Contract.{peer_laws}
use vcpkg_webrtc_sample.Call.State.{Call, Request}
use vcpkg_webrtc_sample.Call.Run.{Event, step, run_events, run}
use vcpkg_webrtc_sample.Call.Program.{run_program, run_program_total, Answered, AllAnswered}
use vcpkg_webrtc_sample.Call.Safety.{Safe}
use vcpkg_webrtc_sample.System.Posted.{
  CanRead, AllCanRead, AllAnswered-++, AllFollow, AllFollow-++, callback-Answered, Postable,
  performed, heard-AllFollow, own-Answered,
}
use vcpkg_webrtc_sample.System.{
  Callback, runs, reads_response, callback_event, controller_callbacks, Reply, perform,
  socket_events, is_own, System, Move, works, hears, calls_back, happens, start_system, goes_on,
  run_event, work, call_back, move, run_moves, run_system,
}

module _ (json : Json) (rtc : Rtc) (start_video : Status) where
  abbrev Ev : Type 0
  Ev = Event (peer_client json rtc start_video)

  abbrev Sys : Type 0
  Sys = System json (peer_client json rtc start_video)

  -- A schedule that leads the controller to where it is, and what was posted can follow.
  record Follows (config : AppConfig) (s : Sys) : Type 0 where
    schedule : List Ev
    all_answered : AllAnswered json rtc start_video schedule
    leads : run_program json rtc start_video config schedule ≡ some s.call
    posted_answered : AllFollow json rtc start_video s.posted

  >>=-some : (m : Crashes (Call (peer_client json rtc start_video))) → (m >>= some) ≡ m
  >>=-some none = refl
  >>=-some (some c) = refl

  run_events-snoc :
      (es : List Ev) (e : Ev) (c d : Call (peer_client json rtc start_video))
      → run_events (parse_signaling_message json) es c ≡ some d
      → run_events (parse_signaling_message json) (es ++ e ∷ []) c
        ≡ step (parse_signaling_message json) e d
  unfolding run_events
  run_events-snoc [] e c d h =
      let q : c ≡ d = cc in
      subst
        (λ b.
          (step (parse_signaling_message json) e c >>= some)
          ≡ step (parse_signaling_message json) e b)
        q (>>=-some _)
  run_events-snoc (x ∷ es) e c d h =
      let (b, g, k) =
        >>=-eq-some (step (parse_signaling_message json) x c)
          (run_events (parse_signaling_message json) es) h in
      rw g (run_events-snoc es e b d k)

  -- One event more.
  run_event-Follows :
      (config : AppConfig) (e : Ev) (s : Sys)
      → Answered json rtc start_video e
      → Follows config s
      → Keeps (Follows config) (run_event json (peer_client json rtc start_video) e s)
  unfolding run_event run
  run_event-Follows config e s a f = go (step (parse_signaling_message json) e s.call) refl
    where
      go :
          (m : Crashes (Call (peer_client json rtc start_video)))
          → step (parse_signaling_message json) e s.call ≡ m
          → Keeps
              (Follows config)
              (m >>= λ d. some (goes_on json (peer_client json rtc start_video) s d))
      go none h = tt
      go (some d) h = record {
        schedule = f.schedule ++ e ∷ [];
        all_answered =
            AllAnswered-++ json rtc start_video f.schedule (e ∷ []) f.all_answered (a, tt);
        leads = run_events-snoc f.schedule e _ s.call f.leads ∙ h;
        posted_answered = f.posted_answered;
      }

  work-Follows :
      (config : AppConfig) (rs : List Request) (w : Reply) (s : Sys)
      → CanRead json rtc start_video (works w)
      → Follows config s
      → Keeps (Follows config) (work json (peer_client json rtc start_video) rs w s)
  unfolding work
  work-Follows config [] w s c f = f
  work-Follows config (r ∷ rs) w s c f =
      >>=-Keeps_both (Postable json rtc start_video) (Follows config)
        (perform json (peer_client json rtc start_video) r w s.socket) _
        (performed json rtc start_video r w s.socket c)
        (λ q a. record {
          schedule = f.schedule;
          all_answered = f.all_answered;
          leads = f.leads;
          posted_answered = AllFollow-++ json rtc start_video s.posted q.1 f.posted_answered a;
        })

  call_back-Follows :
      (config : AppConfig) (cs : List (Callback json (peer_client json rtc start_video))) (s : Sys)
      → AllFollow json rtc start_video cs
      → Follows config s
      → Keeps (Follows config) (call_back json (peer_client json rtc start_video) cs s)
  unfolding call_back
  call_back-Follows config [] s a f = f
  call_back-Follows config (runs e ∷ cs) s (h, a) f =
      run_event-Follows config e (record s { posted = cs }) h
        (record {
          schedule = f.schedule;
          all_answered = f.all_answered;
          leads = f.leads;
          posted_answered = a;
        })
  call_back-Follows config (reads_response callback response ∷ cs) s a f =
      >>=-Keeps (Follows config) (send_to_room_answer json response) _ (λ status.
        run_event-Follows config
          (callback_event json (peer_client json rtc start_video) callback status)
          (record s { posted = cs }) (callback-Answered json rtc start_video callback status)
          (record {
            schedule = f.schedule;
            all_answered = f.all_answered;
            leads = f.leads;
            posted_answered = a;
          }))

  move-Follows :
      (config : AppConfig) (m : Move json (peer_client json rtc start_video)) (s : Sys)
      → CanRead json rtc start_video m
      → Follows config s
      → Keeps (Follows config) (move json (peer_client json rtc start_video) m s)
  unfolding move
  move-Follows config (works w) s c f = work-Follows config s.tasks w s c f
  move-Follows config (hears m) s c f =
      >>=-Keeps (Follows config) (S.on_web_socket_message json m s.socket) _ (λ q. record {
        schedule = f.schedule;
        all_answered = f.all_answered;
        leads = f.leads;
        posted_answered =
            AllFollow-++ json rtc start_video s.posted
              (socket_events json (peer_client json rtc start_video)
                (with_callbacks controller_callbacks q.1))
              f.posted_answered
              (heard-AllFollow json rtc start_video (with_callbacks controller_callbacks q.1));
      })
  move-Follows config calls_back s c f =
      if_cases (Keeps (Follows config)) s.call.quit (λ _. f)
        (λ _. call_back-Follows config s.posted s f.posted_answered f)
  move-Follows config (happens e) s c f =
      if_cases (Keeps (Follows config)) s.call.quit (λ _. f)
        (λ _.
          if_cases (Keeps (Follows config)) (is_own json (peer_client json rtc start_video) e)
            (λ o. run_event-Follows config e s (own-Answered json rtc start_video e o) f) (λ _. f))

  moves-Follows :
      (config : AppConfig) (ms : List (Move json (peer_client json rtc start_video))) (s : Sys)
      → AllCanRead json rtc start_video ms
      → Follows config s
      → Keeps (Follows config) (run_moves json (peer_client json rtc start_video) ms s)
  unfolding run_moves
  moves-Follows config [] s c f = f
  moves-Follows config (m ∷ ms) s (c, cs) f =
      >>=-Keeps_both (Follows config) (Follows config)
        (move json (peer_client json rtc start_video) m s)
        (run_moves json (peer_client json rtc start_video) ms) (move-Follows config m s c f)
        (λ t g. moves-Follows config ms t cs g)

  -- The threads refine the schedules of the controller: where no message that waits in the room makes
  -- jsoncpp throw, every run of the system that does not crash leads the controller to a state to
  -- which a schedule leads it, and the answer to a join in that schedule is one that `JoinRoomAsync`
  -- hands on. So what holds after every such schedule holds of the system: at most one negotiation
  -- action is under way, and exactly one if the flag of the controller says so, unless the thread was
  -- told to quit.
  pub run_system_refines :
      (config : AppConfig) (ms : List (Move json (peer_client json rtc start_video))) (s : Sys)
      → AllCanRead json rtc start_video ms
      → run_system json (peer_client json rtc start_video) config ms ≡ some s
      → (es : List Ev) × AllAnswered json rtc start_video es
        × (run_program json rtc start_video config es ≡ some s.call)
        × Safe (peer_laws json rtc start_video) 0 s.call
  unfolding run_system run run_events
  run_system_refines config ms s c h =
      let first : Follows config (start_system json (peer_client json rtc start_video) config) =
        record { schedule = []; all_answered = tt; leads = refl; posted_answered = tt } in
      let f =
        Keeps-some (Follows config) (run_system json (peer_client json rtc start_video) config ms)
          (moves-Follows config ms (start_system json (peer_client json rtc start_video) config) c
            first)
          h in
      let (d, e, v) = run_program_total json rtc start_video config f.schedule f.all_answered in
      let q : d ≡ s.call = cc in
      (f.schedule, f.all_answered, f.leads, subst (Safe (peer_laws json rtc start_video) 0) q v)
