-- ===== src/Call/Timers/Closing.antt =====
-- The events that close a call: its timers, and the callback of the bye.
use vcpkg_webrtc_sample.Prelude.{
  ℕ, ◌≡◌, refl, Bool, true, false, if◌then◌else◌, none, some, ok_status, Result, Crashes, Returns,
  Returns-some, >>=-Returns, Returns-Keeps, ◌>>=◌, String, List, [], ◌∷◌, arith,
}
use vcpkg_webrtc_sample.Common.Config.{AppConfig}
use vcpkg_webrtc_sample.Common.Message.{SignalingMessage}
use vcpkg_webrtc_sample.Peer.Api.{PeerApi}
use vcpkg_webrtc_sample.Call.State.{Call}
use vcpkg_webrtc_sample.Call.Finish.{finish, complete_finish}
use vcpkg_webrtc_sample.Call.Handlers.{on_startup_timer, on_duration_timer, on_bye_sent}
use vcpkg_webrtc_sample.Call.Run.{
  Event, bye_sent, startup_timer, duration_timer, claim, deliver, step, run_events, run,
}
use vcpkg_webrtc_sample.Call.Kept.{core}
use vcpkg_webrtc_sample.Call.Ending.{Ending, step-Ending, run-Ending}
use vcpkg_webrtc_sample.Call.Timers.{Timed, run-Timed}

module _ {api : PeerApi} (parse : String → Crashes (Result SignalingMessage)) where
  -- The events that end a call when nothing else happens.
  abbrev pub closing : Bool → Bool → Call api → List (Event api)
  closing true established c = bye_sent ok_status ∷ []
  closing false false c = startup_timer c.startup_timeout_generation ∷ []
  closing false true c = duration_timer c.call_duration_generation ∷ bye_sent ok_status ∷ []

  abbrev EndsWith : ℕ → Call api → Type 0
  EndsWith n d = (d.quit ≡ true) × (d.exit_code ≡ n)

  startup_fires :
      (c : Call api)
      → c.quit ≡ false
      → c.finished ≡ false
      → c.call_established ≡ false
      → Timed (core c)
      → Returns (EndsWith 7) (step parse (startup_timer c.startup_timeout_generation) c)
  unfolding step claim deliver on_startup_timer finish
  startup_fires c q f e v = ground arith

  -- The call is finished; if no bye had to be sent, it has ended with success.
  abbrev Leaving : Call api → Type 0
  Leaving d = (d.finished ≡ true) × (d.quit ≡ true → d.exit_code ≡ 0)

  duration_fires :
      (c : Call api)
      → c.quit ≡ false
      → c.finished ≡ false
      → c.call_established ≡ true
      → Timed (core c)
      → Returns Leaving (step parse (duration_timer c.call_duration_generation) c)
  unfolding step claim deliver on_duration_timer finish
  duration_fires c q f e v = ground arith

  bye_fires :
      (c : Call api)
      → Leaving c
      → Ending (core c)
      → Returns (EndsWith 0) (step parse (bye_sent ok_status) c)
  unfolding step claim deliver on_bye_sent complete_finish
  bye_fires c l v = ground arith

  duration_ends :
      (c : Call api)
      → c.quit ≡ false
      → c.finished ≡ false
      → c.call_established ≡ true
      → Timed (core c)
      → Ending (core c)
      → Returns
          (EndsWith 0)
          (run_events parse (duration_timer c.call_duration_generation ∷ bye_sent ok_status ∷ []) c)
  unfolding run_events
  duration_ends c q f e t v =
      let first = duration_timer c.call_duration_generation in
      >>=-Returns (λ d. Ending (core d) × Leaving d) (EndsWith 0) (step parse first c) _
        (Returns-Keeps (λ d. Ending (core d)) Leaving (step parse first c)
          (step-Ending parse first c v) (duration_fires c q f e t))
        (λ d w. last (step parse (bye_sent ok_status) d) (bye_fires d w.1 w.0))
    where
      last :
          (m : Crashes (Call api))
          → Returns (EndsWith 0) m
          → Returns (EndsWith 0) (m >>= λ d. some d)
      last none h = h
      last (some d) h = h

  single :
      (n : ℕ) (e : Event api) (c : Call api)
      → Returns (EndsWith n) (step parse e c)
      → Returns (EndsWith n) (run_events parse (e ∷ []) c)
  unfolding run_events
  single n e c h = >>=-Returns (EndsWith n) (EndsWith n) (step parse e c) _ h (λ d w. w)

  closing_ends :
      (c : Call api) (finished established : Bool)
      → c.finished ≡ finished
      → c.call_established ≡ established
      → c.quit ≡ false
      → Timed (core c)
      → Ending (core c)
      → Returns
          (EndsWith (if established then 0 else 7))
          (run_events parse (closing finished established c) c)
  closing_ends c true true f e q t v = single 0 (bye_sent ok_status) c (bye_fires c (f, λ h. cc) v)
  closing_ends c true false f e q t v = absurd (ground arith)
  closing_ends c false false f e q t v = single 7 _ c (startup_fires c q f e t)
  closing_ends c false true f e q t v = duration_ends c q f e t v

  -- From every state that a schedule reaches before the thread quits, the timers of the current
  -- generations, and the callback of the bye, end the call, without a crash: with exit code 0 if
  -- the call was established, and otherwise with the code of a timeout.
  pub timers_end_call :
      (config : AppConfig) (es : List (Event api)) (c : Call api)
      → run parse config es ≡ some c
      → c.quit ≡ false
      → (d : Call api) × (run_events parse (closing c.finished c.call_established c) c ≡ some d)
        × (d.quit ≡ true)
        × (d.exit_code ≡ (if c.call_established then 0 else 7))
  timers_end_call config es c h q =
      let n : ℕ = if c.call_established then 0 else 7 in
      let ends =
        closing_ends c c.finished c.call_established refl refl q (run-Timed parse config es h)
          (run-Ending parse config es h) in
      let (d, e, w) = Returns-some (EndsWith n) _ ends in (d, e, w.0, w.1)
