-- ===== src/Call/Ending.antt =====
-- How a call of src/apprtc_call.cc ends: the reason, the exit code and the final state.
use vcpkg_webrtc_sample.Prelude.{
  ℕ, suc, ◌≡◌, refl, Bool, true, false, Option, none, some, Result, Status, Crashes, Keeps, String,
  List, arith,
}
use vcpkg_webrtc_sample.Common.Config.{AppConfig, success, to_int}
use vcpkg_webrtc_sample.Common.Message.{SignalingMessage}
use vcpkg_webrtc_sample.Peer.Api.{PeerApi}
use vcpkg_webrtc_sample.Call.Types.{TerminalReason, stopping, finished_state, exit_code_for_reason}
use vcpkg_webrtc_sample.Call.State.{Call, new_call}
use vcpkg_webrtc_sample.Call.Finish.{finish, complete_finish, maybe_mark_call_established}
use vcpkg_webrtc_sample.Call.Handlers.{start, on_startup_timer, on_duration_timer, on_bye_sent}
use vcpkg_webrtc_sample.Call.Run.{Event, remove_first, step, run}
use vcpkg_webrtc_sample.Call.Kept.{Claimed, Core, core, Justified, Kept}
use vcpkg_webrtc_sample.Call.Kept.Steps.{step-Kept, run-Kept}

-- The exit code is that of the reason that was logged, and success wants an established call.
abbrev pub Reported : Option (TerminalReason × Status) → ℕ → Bool → Type 0
Reported none exit_code established = ⊥
Reported (some (reason, status)) exit_code established =
    (exit_code ≡ to_int (exit_code_for_reason reason))
    × (exit_code_for_reason reason ≡ success → established ≡ true)

pub record Ending (k : Core) : Type 0 where
  pub open_ended : k.quit ≡ false → (k.terminal ≡ none) × (k.exit_code ≡ 8)
  pub unfinished : k.finished ≡ false → (k.quit ≡ false) × (k.bye_callbacks ≡ 0)
  pub saying_bye :
      k.finished ≡ true
      → k.quit ≡ false
      → (k.bye_callbacks ≡ 1) × (k.call_established ≡ true) × (k.state ≡ stopping)
  pub ended :
      k.quit ≡ true
      → (k.state ≡ finished_state) × Reported k.terminal k.exit_code k.call_established

module _ (api : PeerApi) where
  finish-Ending :
      (r : TerminalReason) (s : Status) (c : Call api)
      → Justified r c
      → Ending (core c)
      → Ending (core (finish r s c))
  unfolding finish
  finish-Ending r s c j v = ground arith

  mark-Ending :
      (c : Call api)
      → c.finished ≡ false
      → Ending (core c)
      → Ending (core (maybe_mark_call_established c))
  unfolding maybe_mark_call_established
  mark-Ending c f v = ground arith

  -- The callback of the bye finds a call that was established and is finished.
  bye_sent-Ending :
      (n : ℕ) (c : Call api)
      → c.quit ≡ false
      → c.bye_callbacks ≡ suc n
      → Ending (core c)
      → Ending (core (on_bye_sent (record c { bye_callbacks = n })))
  unfolding on_bye_sent complete_finish
  bye_sent-Ending n c q b v = ground arith

  startup_timer-Ending :
      (g : ℕ) (c : Call api)
      → Ending (core c)
      → Ending (
          core (on_startup_timer g (record c { startup_timers = remove_first g c.startup_timers })))
  unfolding on_startup_timer finish
  startup_timer-Ending g c v = ground arith

  duration_timer-Ending :
      (g : ℕ) (c : Call api)
      → Ending (core c)
      → Ending (
          core
            (on_duration_timer g (record c { duration_timers = remove_first g c.duration_timers })))
  unfolding on_duration_timer finish
  duration_timer-Ending g c v = ground arith

  pub Ending-Kept : Kept api Ending
  Ending-Kept = record {
    finish_kept = finish-Ending;
    mark_kept = mark-Ending;
    restate_kept = λ s c f v. ground arith;
    joined_kept = λ jr c f v. ground arith;
    connect_kept = λ jr c v. ground arith;
    register_kept = λ jr c v. ground arith;
    description_kept = λ jr payload c v. ground arith;
    candidate_kept = λ jr payload c v. ground arith;
  }

  pub Ending-Claimed : Claimed api Ending
  Ending-Claimed = record {
    join_claimed = λ n c b v. ground arith;
    register_claimed = λ n c b v. ground arith;
    description_claimed = λ n c b v. ground arith;
    candidate_claimed = λ n c b v. ground arith;
    bye_kept = bye_sent-Ending;
    startup_kept = startup_timer-Ending;
    duration_kept = duration_timer-Ending;
  }

  pub start-Ending : (config : AppConfig) → Ending (core (start (new_call api config)))
  unfolding start
  start-Ending config = ground arith

-- The last part takes the reason's exit code apart.
Reported-reason :
    (terminal : Option (TerminalReason × Status)) (exit_code : ℕ) (established : Bool)
    → Reported terminal exit_code established
    → (reason : TerminalReason) × (status : Status) × (terminal ≡ some (reason, status))
      × (exit_code ≡ to_int (exit_code_for_reason reason))
      × (exit_code ≡ 0 → established ≡ true)
Reported-reason none x b h = absurd h
Reported-reason (some (r, s)) x b h = (r, s, refl, h.0, ground arith)

module _ {api : PeerApi} (parse : String → Crashes (Result SignalingMessage)) where
  pub step-Ending :
      (e : Event api) (c : Call api)
      → Ending (core c)
      → Keeps (λ d. Ending (core d)) (step parse e c)
  step-Ending = step-Kept Ending (Ending-Kept api) (Ending-Claimed api) parse

  pub run-Ending :
      (config : AppConfig) (es : List (Event api)) {c : Call api}
      → run parse config es ≡ some c
      → Ending (core c)
  run-Ending config es h =
      run-Kept Ending (Ending-Kept api) (Ending-Claimed api) parse config es
        (start-Ending api config) h

  -- After any schedule, once the thread has been told to quit: one reason has been logged, the exit
  -- code is the one of that reason, the state is `kFinished`, and the exit code is 0 only if the
  -- call had been established.
  pub exit_code_of_run :
      (config : AppConfig) (es : List (Event api)) (c : Call api)
      → run parse config es ≡ some c
      → c.quit ≡ true
      → (reason : TerminalReason) × (status : Status) × (c.terminal ≡ some (reason, status))
        × (c.exit_code ≡ to_int (exit_code_for_reason reason))
        × (c.state ≡ finished_state)
        × (c.exit_code ≡ 0 → c.call_established ≡ true)
  exit_code_of_run config es c h q =
      let v = run-Ending config es h in
      let (r, s, t, x, e) = Reported-reason c.terminal c.exit_code _ (v.ended q).1 in
      (r, s, t, x, (v.ended q).0, e)
