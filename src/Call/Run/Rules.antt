-- ===== src/Call/Run/Rules.antt =====
-- The rule for predicates along a schedule.
use vcpkg_webrtc_sample.Prelude.{
  ℕ, zero, suc, ◌≡◌, refl, Bool, true, false, none, some, if_cases, if◌then◌else◌, String, List, [],
  ◌∷◌, Crashes, Error, Result, Status, Keeps, >>=-Keeps_both, Keeps-some,
}
use vcpkg_webrtc_sample.Common.Config.{AppConfig}
use vcpkg_webrtc_sample.Common.Join.{JoinResponse}
use vcpkg_webrtc_sample.Common.Message.{SignalingMessage}
use vcpkg_webrtc_sample.Peer.Api.{PeerApi}
use vcpkg_webrtc_sample.Call.State.{Call, new_call}
use vcpkg_webrtc_sample.Call.Handlers.{
  start, on_startup_timer, on_duration_timer, on_stats_timer, on_join_complete, on_web_socket_open,
  on_register_complete, on_inbound_signaling_message, on_description_sent, on_candidate_sent,
  on_signaling_error, on_bye_sent,
}
use vcpkg_webrtc_sample.Call.Run.{
  Event, join_complete, register_complete, description_sent, candidate_sent, bye_sent,
  startup_timer, duration_timer, stats_timer, web_socket_open, inbound, signaling_failure,
  peer_event, has, remove_first, take_one, claim, deliver, deliver_claimed, step, run_events, run,
}

module _ {api : PeerApi} (parse : String → Crashes (Result SignalingMessage)) where
  -- Every callback keeps the predicate, when it is its turn: its claim is taken from the state, and
  -- the thread was not told to quit.
  pub record StepRules (P : Call api → Type 0) : Type 0 where
    pub join_rule :
        (r : Result JoinResponse) (k : ℕ) (c : Call api)
        → c.join_callbacks ≡ suc k
        → P c
        → Keeps P (on_join_complete parse r (record c { join_callbacks = k }))
    pub register_rule :
        (s : Status) (k : ℕ) (c : Call api)
        → c.register_callbacks ≡ suc k
        → P c
        → Keeps P (on_register_complete s (record c { register_callbacks = k }))
    pub description_rule :
        (s : Status) (k : ℕ) (c : Call api)
        → c.description_callbacks ≡ suc k
        → P c
        → Keeps P (on_description_sent s (record c { description_callbacks = k }))
    pub candidate_rule :
        (s : Status) (k : ℕ) (c : Call api)
        → c.candidate_callbacks ≡ suc k
        → P c
        → P (on_candidate_sent s (record c { candidate_callbacks = k }))
    pub bye_rule :
        (k : ℕ) (c : Call api)
        → c.quit ≡ false
        → c.bye_callbacks ≡ suc k
        → P c
        → P (on_bye_sent (record c { bye_callbacks = k }))
    pub startup_rule :
        (g : ℕ) (c : Call api)
        → P c
        → P (on_startup_timer g (record c { startup_timers = remove_first g c.startup_timers }))
    pub duration_rule :
        (g : ℕ) (c : Call api)
        → P c
        → P (on_duration_timer g (record c { duration_timers = remove_first g c.duration_timers }))
    pub stats_rule : (c : Call api) → P c → P (on_stats_timer c)
    pub open_rule : (c : Call api) → P c → P (on_web_socket_open c)
    pub inbound_rule :
        (m : SignalingMessage) (c : Call api) → P c → Keeps P (on_inbound_signaling_message m c)
    pub error_rule : (e : Error) (c : Call api) → P c → P (on_signaling_error e c)
    pub peer_rule : (e : api.Event) (c : Call api) → P c → Keeps P (deliver parse (peer_event e) c)

  module _ (P : Call api → Type 0) (rules : StepRules P) where
    -- An event whose callback is counted, or that has a timer, leaves the call alone unless it is due.
    counted :
        (e : Event api) (c : Call api) (n : ℕ) (f : ℕ → Call api)
        → ((k : ℕ) → n ≡ suc k → Keeps P (deliver parse e (f k)))
        → P c
        → Keeps P (deliver_claimed parse e c (take_one n f))
    counted e c zero f h v = v
    counted e c (suc k) f h v = h k refl

    timed :
        (e : Event api) (c d : Call api) (due : Bool)
        → Keeps P (deliver parse e d)
        → P c
        → Keeps P (deliver_claimed parse e c (if due then some d else none))
    timed e c d true h v = h
    timed e c d false h v = v

    claimed-Keeps :
        (e : Event api) (c : Call api)
        → c.quit ≡ false
        → P c
        → Keeps P (deliver_claimed parse e c (claim e c))
    unfolding claim deliver
    claimed-Keeps (join_complete r) c q v =
        counted (join_complete r) c c.join_callbacks _ (λ k b. rules.join_rule r k c b v) v
    claimed-Keeps (register_complete s) c q v =
        counted (register_complete s) c c.register_callbacks _
          (λ k b. rules.register_rule s k c b v) v
    claimed-Keeps (description_sent s) c q v =
        counted (description_sent s) c c.description_callbacks _
          (λ k b. rules.description_rule s k c b v) v
    claimed-Keeps (candidate_sent s) c q v =
        counted (candidate_sent s) c c.candidate_callbacks _ (λ k b. rules.candidate_rule s k c b v)
          v
    claimed-Keeps (bye_sent s) c q v =
        counted (bye_sent s) c c.bye_callbacks _ (λ k b. rules.bye_rule k c q b v) v
    claimed-Keeps (startup_timer g) c q v =
        let left = remove_first g c.startup_timers in
        timed (startup_timer g) c (record c { startup_timers = left }) (has g c.startup_timers)
          (rules.startup_rule g c v) v
    claimed-Keeps (duration_timer g) c q v =
        let left = remove_first g c.duration_timers in
        timed (duration_timer g) c (record c { duration_timers = left }) (has g c.duration_timers)
          (rules.duration_rule g c v) v
    claimed-Keeps stats_timer c q v = rules.stats_rule c v
    claimed-Keeps web_socket_open c q v = rules.open_rule c v
    claimed-Keeps (inbound m) c q v = rules.inbound_rule m c v
    claimed-Keeps (signaling_failure e) c q v = rules.error_rule e c v
    claimed-Keeps (peer_event e) c q v = rules.peer_rule e c v

    pub step-Keeps : (e : Event api) (c : Call api) → P c → Keeps P (step parse e c)
    unfolding step
    step-Keeps e c v = if_cases (Keeps P) c.quit (λ _. v) (λ q. claimed-Keeps e c q v)

    pub run_events-Keeps :
        (es : List (Event api)) (c : Call api) → P c → Keeps P (run_events parse es c)
    unfolding run_events
    run_events-Keeps [] c v = v
    run_events-Keeps (e ∷ es) c v =
        >>=-Keeps_both P P (step parse e c) (run_events parse es) (step-Keeps e c v)
          (run_events-Keeps es)

    pub run-Keeps :
        (config : AppConfig) (es : List (Event api)) {c : Call api}
        → P (start (new_call api config))
        → run parse config es ≡ some c
        → P c
    unfolding run
    run-Keeps config es v h =
        Keeps-some P (run parse config es) (run_events-Keeps es (start (new_call api config)) v) h
