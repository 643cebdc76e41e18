-- ===== src/Call/Timers.antt =====
-- The timers and their generations.
pub mod Closing
use vcpkg_webrtc_sample.Prelude.{
  flag, ℕ, ◌+◌, ◌==◌, ◌≡◌, ◌≤◌, refl, true, false, some, Result, Status, Crashes, String, List, [],
  ◌∷◌, arith,
}
use vcpkg_webrtc_sample.Common.Config.{AppConfig}
use vcpkg_webrtc_sample.Common.Message.{SignalingMessage}
use vcpkg_webrtc_sample.Peer.Api.{PeerApi}
use vcpkg_webrtc_sample.Call.Types.{TerminalReason}
use vcpkg_webrtc_sample.Call.State.{Call, new_call}
use vcpkg_webrtc_sample.Call.Finish.{finish, complete_finish, maybe_mark_call_established}
use vcpkg_webrtc_sample.Call.Handlers.{start, on_startup_timer, on_duration_timer, on_bye_sent}
use vcpkg_webrtc_sample.Call.Run.{Event, has, remove_first, run}
use vcpkg_webrtc_sample.Call.Kept.{Claimed, Core, core, Justified, Kept}
use vcpkg_webrtc_sample.Call.Kept.Steps.{run-Kept}

-- Another timer of the list stays when one fires.
has-remove_first_ne :
    (g h : ℕ) (ts : List ℕ) → g == h ≡ false → has h (remove_first g ts) ≡ has h ts
unfolding has remove_first
has-remove_first_ne g h [] e = refl
has-remove_first_ne g h (t ∷ ts) e = ground (arith, has-remove_first_ne g h ts e)

has-cons_self : (g : ℕ) (ts : List ℕ) → has g (g ∷ ts) ≡ true
unfolding has
has-cons_self g ts = ground arith

pub record Timed (k : Core) : Type 0 where
  pub startup_due :
      k.finished ≡ false
      → k.call_established ≡ false
      → has k.startup_timeout_generation k.startup_timers ≡ true
  pub duration_due :
      k.finished ≡ false
      → k.call_established ≡ true
      → has k.call_duration_generation k.duration_timers ≡ true
  pub startup_exact : k.startup_timeout_generation ≡ 1 + flag k.call_established + flag k.finished
  pub duration_exact : k.call_duration_generation ≡ flag k.call_established + flag k.finished

module _ (api : PeerApi) where
  finish-Timed :
      (r : TerminalReason) (s : Status) (c : Call api)
      → Justified r c
      → Timed (core c)
      → Timed (core (finish r s c))
  unfolding finish
  finish-Timed r s c j v = ground arith

  mark-Timed :
      (c : Call api)
      → c.finished ≡ false
      → Timed (core c)
      → Timed (core (maybe_mark_call_established c))
  unfolding maybe_mark_call_established
  mark-Timed c f v =
      ground (arith, has-cons_self (c.call_duration_generation + 1) c.duration_timers)

  startup_timer-Timed :
      (g : ℕ) (c : Call api)
      → Timed (core c)
      → Timed (
          core (on_startup_timer g (record c { startup_timers = remove_first g c.startup_timers })))
  unfolding on_startup_timer finish
  startup_timer-Timed g c v =
      ground (arith, has-remove_first_ne g c.startup_timeout_generation c.startup_timers)

  duration_timer-Timed :
      (g : ℕ) (c : Call api)
      → Timed (core c)
      → Timed (
          core
            (on_duration_timer g (record c { duration_timers = remove_first g c.duration_timers })))
  unfolding on_duration_timer finish
  duration_timer-Timed g c v =
      ground (arith, has-remove_first_ne g c.call_duration_generation c.duration_timers)

  bye_sent-Timed :
      (n : ℕ) (c : Call api)
      → Timed (core c)
      → Timed (core (on_bye_sent (record c { bye_callbacks = n })))
  unfolding on_bye_sent complete_finish
  bye_sent-Timed n c v = ground arith

  Timed-Kept : Kept api Timed
  Timed-Kept = record {
    finish_kept = finish-Timed;
    mark_kept = mark-Timed;
    restate_kept = λ s c f v. ground arith;
    joined_kept = λ jr c f v. ground arith;
    connect_kept = λ jr c v. ground arith;
    register_kept = λ jr c v. ground arith;
    description_kept = λ jr payload c v. ground arith;
    candidate_kept = λ jr payload c v. ground arith;
  }

  Timed-Claimed : Claimed api Timed
  Timed-Claimed = record {
    join_claimed = λ n c b v. ground arith;
    register_claimed = λ n c b v. ground arith;
    description_claimed = λ n c b v. ground arith;
    candidate_claimed = λ n c b v. ground arith;
    bye_kept = λ n c q b v. bye_sent-Timed n c v;
    startup_kept = startup_timer-Timed;
    duration_kept = duration_timer-Timed;
  }

  start-Timed : (config : AppConfig) → Timed (core (start (new_call api config)))
  unfolding start
  start-Timed config = ground (arith, has-cons_self 1 [])

module _ {api : PeerApi} (parse : String → Crashes (Result SignalingMessage)) where
  pub run-Timed :
      (config : AppConfig) (es : List (Event api)) {c : Call api}
      → run parse config es ≡ some c
      → Timed (core c)
  run-Timed config es h =
      run-Kept Timed (Timed-Kept api) (Timed-Claimed api) parse config es (start-Timed api config) h

  -- In every state that a schedule reaches, the startup generation is at most 3 and the duration
  -- generation at most 2, so the `int` counters do not overflow.
  pub generation_bounds :
      (config : AppConfig) (es : List (Event api)) (c : Call api)
      → run parse config es ≡ some c
      → (c.startup_timeout_generation ≤ 3) × (c.call_duration_generation ≤ 2)
  generation_bounds config es c h = let v = run-Timed config es h in ground arith
