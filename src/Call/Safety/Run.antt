-- ===== src/Call/Safety/Run.antt =====
-- Crashes and whole schedules.
use vcpkg_webrtc_sample.Prelude.{
  ℕ, zero, suc, ◌+◌, ◌≡◌, refl, ◌⊎◌, Bool, true, false, none, some, List, [], ◌∷◌, Crashes, Result,
  Returns, >>=-Returns, Returns-eq, Returns-some, Returns-Keeps, if_cases, if◌then◌else◌, arith,
  String,
}
use vcpkg_webrtc_sample.Common.Config.{AppConfig}
use vcpkg_webrtc_sample.Common.Message.{SignalingMessage}
use vcpkg_webrtc_sample.Peer.Api.{PeerApi, PeerLaws, completions}
use vcpkg_webrtc_sample.Call.State.{Call, new_call}
use vcpkg_webrtc_sample.Call.Finish.{complete_finish}
use vcpkg_webrtc_sample.Call.Handlers.{start, on_bye_sent}
use vcpkg_webrtc_sample.Call.Run.{
  Event, join_complete, register_complete, description_sent, candidate_sent, bye_sent,
  startup_timer, duration_timer, stats_timer, web_socket_open, inbound, signaling_failure,
  peer_event, has, remove_first, take_one, claim, deliver, deliver_claimed, step, run_events, run,
}
use vcpkg_webrtc_sample.Call.Kept.{core}
use vcpkg_webrtc_sample.Call.Ending.{Ending, start-Ending, step-Ending}
use vcpkg_webrtc_sample.Call.Safety.{Safe}
use vcpkg_webrtc_sample.Call.Safety.Handlers.{
  Checked, startup_timer-Safe, duration_timer-Safe, stats_timer-Safe, join_complete-Safe,
  web_socket_open-Safe, register_complete-Safe, inbound-Safe, description_sent-Safe,
  candidate_sent-Safe, signaling_error-Safe,
}
use vcpkg_webrtc_sample.Call.Safety.Notices.{notify_all-Safe}

module _ {api : PeerApi} (laws : PeerLaws api)
    (parse : String → Crashes (Result SignalingMessage)) where
  -- An answer to the join is one that the signaling client passes on.
  abbrev pub Readable : Event api → Type 0
  Readable (join_complete r) = Checked laws parse r
  Readable e = Unit

  abbrev pub AllReadable : List (Event api) → Type 0
  AllReadable [] = Unit
  AllReadable (e ∷ es) = Readable e × AllReadable es

  -- An event that waits for a callback.
  counted :
      (e : Event api) (c : Call api) (n : ℕ) (f : ℕ → Call api)
      → ((k : ℕ) → n ≡ suc k → Returns (Safe laws 0) (deliver parse e (f k)))
      → Safe laws 0 c
      → Returns (Safe laws 0) (deliver_claimed parse e c (take_one n f))
  counted e c zero f h v = v
  counted e c (suc k) f h v = h k refl

  timed :
      (e : Event api) (c d : Call api) (due : Bool)
      → Returns (Safe laws 0) (deliver parse e d)
      → Safe laws 0 c
      → Returns (Safe laws 0) (deliver_claimed parse e c (if due then some d else none))
  timed e c d true h v = h
  timed e c d false h v = v

  bye_sent-Safe :
      (n k : ℕ) (c : Call api)
      → c.bye_callbacks ≡ suc k
      → Ending (core c)
      → Safe laws 0 c
      → Safe laws 0 (on_bye_sent (record c { bye_callbacks = n }))
  unfolding on_bye_sent complete_finish
  bye_sent-Safe n k c b g v = ground arith

  open_or_idle :
      (c : Call api)
      → c.quit ≡ false
      → Safe laws 0 c
      → (laws.is_open c.peer ≡ true) ⊎ (laws.busy c.peer ≡ 0)
  open_or_idle c q v = ground arith

  peer_moved :
      (c : Call api) (p : api.State) (n : ℕ)
      → c.quit ≡ false
      → laws.busy p + n ≡ laws.busy c.peer
      → laws.is_open p ≡ laws.is_open c.peer
      → Safe laws 0 c
      → Safe laws n (record c { peer = p })
  peer_moved c p n q b o v = ground arith

  claimed-Safe :
      (e : Event api) (c : Call api)
      → Readable e
      → c.quit ≡ false
      → Ending (core c)
      → Safe laws 0 c
      → Returns (Safe laws 0) (deliver_claimed parse e c (claim e c))
  unfolding claim deliver
  claimed-Safe (join_complete r) c a q g v =
      counted (join_complete r) c c.join_callbacks _
        (λ k _. join_complete-Safe laws parse r (record c { join_callbacks = k }) a v) v
  claimed-Safe (register_complete s) c a q g v =
      counted (register_complete s) c c.register_callbacks _
        (λ k h. register_complete-Safe laws s k c h v) v
  claimed-Safe (description_sent s) c a q g v =
      counted (description_sent s) c c.description_callbacks _
        (λ k h. description_sent-Safe laws s k c q h v) v
  claimed-Safe (candidate_sent s) c a q g v =
      counted (candidate_sent s) c c.candidate_callbacks _
        (λ k _. candidate_sent-Safe laws s (record c { candidate_callbacks = k }) v) v
  claimed-Safe (bye_sent s) c a q g v =
      counted (bye_sent s) c c.bye_callbacks _ (λ k h. bye_sent-Safe k k c h g v) v
  claimed-Safe (startup_timer i) c a q g v =
      let left = remove_first i c.startup_timers in
      timed (startup_timer i) c (record c { startup_timers = left }) (has i c.startup_timers)
        (startup_timer-Safe laws i (record c { startup_timers = left }) v) v
  claimed-Safe (duration_timer i) c a q g v =
      let left = remove_first i c.duration_timers in
      timed (duration_timer i) c (record c { duration_timers = left }) (has i c.duration_timers)
        (duration_timer-Safe laws i (record c { duration_timers = left }) v) v
  claimed-Safe stats_timer c a q g v = stats_timer-Safe laws c v
  claimed-Safe web_socket_open c a q g v = web_socket_open-Safe laws c v
  claimed-Safe (inbound m) c a q g v = inbound-Safe laws m c v
  claimed-Safe (signaling_failure e) c a q g v = signaling_error-Safe laws e c v
  claimed-Safe (peer_event e) c a q g v =
      let (p, ns, h, b, o) = laws.handle_lem e c.peer (open_or_idle c q v) in
      Returns-eq (Safe laws 0) _ h
        (notify_all-Safe laws ns (record c { peer = p }) (peer_moved c p (completions ns) q b o v))

  step-Safe :
      (e : Event api) (c : Call api)
      → Readable e
      → Ending (core c)
      → Safe laws 0 c
      → Returns (Safe laws 0) (step parse e c)
  unfolding step
  step-Safe e c a g v =
      if_cases (Returns (Safe laws 0)) c.quit (λ _. v) (λ q. claimed-Safe e c a q g v)

  run_events-Safe :
      (es : List (Event api)) (c : Call api)
      → AllReadable es
      → Ending (core c)
      → Safe laws 0 c
      → Returns (Safe laws 0) (run_events parse es c)
  unfolding run_events
  run_events-Safe [] c a g v = v
  run_events-Safe (e ∷ es) c a g v =
      >>=-Returns (λ d. Ending (core d) × Safe laws 0 d) (Safe laws 0) (step parse e c)
        (run_events parse es)
        (Returns-Keeps (λ d. Ending (core d)) (Safe laws 0) (step parse e c)
          (step-Ending parse e c g) (step-Safe e c a.0 g v))
        (λ d w. run_events-Safe es d a.1 w.0 w.1)

  start-Safe : (config : AppConfig) → Safe laws 0 (start (new_call api config))
  unfolding start
  start-Safe config = ground (arith, laws.initial_idle)

  -- No schedule crashes the program, whatever answers and failures it holds.
  pub run_total :
      (config : AppConfig) (es : List (Event api))
      → AllReadable es
      → (c : Call api) × (run parse config es ≡ some c) × Safe laws 0 c
  unfolding run
  run_total config es a = Returns-some (Safe laws 0) (run parse config es) (
      run_events-Safe es (start (new_call api config)) a (start-Ending api config)
        (start-Safe config))
