-- ===== src/Call/Goodbye.antt =====
-- The bye and the leaving of the room: `SendByeAndFinish`, and the `CloseAsync` of `CompleteFinish`.
pub mod Steps
use vcpkg_webrtc_sample.Prelude.{
  ℕ, suc, ◌+◌, ◌==◌, ◌&&◌, not, ◌≡◌, refl, Bool, true, false, if◌then◌else◌, flag, Option, none,
  some, Status, String, List, [], ◌∷◌, if_cases, arith,
}
use vcpkg_webrtc_sample.Common.Join.{JoinResponse}
use vcpkg_webrtc_sample.Peer.Api.{PeerApi}
use vcpkg_webrtc_sample.Call.Types.{TerminalReason, local_duration_reached, startup_timeout}
use vcpkg_webrtc_sample.Call.State.{
  Call, SendCallback, after_description, after_candidate, after_bye, Request, send_to_room,
  send_web_socket_message, close_signaling,
}
use vcpkg_webrtc_sample.Call.Finish.{
  bye_message, finish, end_call, complete_finish, close_requests, send_bye_and_finish, send_payload,
  maybe_mark_call_established,
}
use vcpkg_webrtc_sample.Call.Handlers.{on_startup_timer, on_duration_timer, on_bye_sent}
use vcpkg_webrtc_sample.Call.Kept.{sending_description, sending_candidate}

abbrev pub is_bye : SendCallback → Bool
is_bye after_bye = true
is_bye callback = false

-- How many of the requests send a bye, and how many leave the room.
abbrev pub byes : List Request → ℕ
byes [] = 0
byes (send_to_room url room client message callback ∷ rs) = flag (is_bye callback) + byes rs
byes (send_web_socket_message message callback ∷ rs) = flag (is_bye callback) + byes rs
byes (r ∷ rs) = byes rs

abbrev pub leaves : List Request → ℕ
leaves [] = 0
leaves (close_signaling jr ∷ rs) = suc (leaves rs)
leaves (r ∷ rs) = leaves rs

abbrev pub has_joined : Option JoinResponse → Bool
has_joined none = false
has_joined (some jr) = true

abbrev pub is_duration : TerminalReason → Bool
is_duration local_duration_reached = true
is_duration r = false

abbrev pub reached_duration : Option (TerminalReason × Status) → Bool
reached_duration none = false
reached_duration (some (r, s)) = is_duration r

-- The byes and the leavings that there are to be.
pub record Counted (said left : ℕ) (finished quit : Bool)
    (terminal : Option (TerminalReason × Status)) (joined : Option JoinResponse) : Type 0 where
  pub byes_sent :
      said ≡ (if quit then flag (reached_duration terminal && has_joined joined) else flag finished)
  pub times_left : left ≡ (if quit then flag (has_joined joined) else 0)
  pub was_joined : finished ≡ true → quit ≡ false → has_joined joined ≡ true

module _ (api : PeerApi) where
  abbrev Sound : Call api → Type 0
  Sound c =
      Counted (byes c.requests) (leaves c.requests) c.finished c.quit c.terminal c.join_response

  byes-send_payload :
      (jr : JoinResponse) (payload : String) (callback : SendCallback) (c : Call api)
      → (byes (send_payload jr payload callback c).requests
          ≡ flag (is_bye callback) + byes c.requests)
        × (leaves (send_payload jr payload callback c).requests ≡ leaves c.requests)
  byes-send_payload jr payload callback c = ground arith

  leaves-close_requests :
      (j : Option JoinResponse) (rs : List Request)
      → (byes (close_requests j rs) ≡ byes rs)
        × (leaves (close_requests j rs) ≡ flag (has_joined j) + leaves rs)
  unfolding close_requests
  leaves-close_requests none rs = ground arith
  leaves-close_requests (some jr) rs = ground arith

  -- What the end asks for, in terms of the requests before it.
  completed-Goodbye :
      (r : TerminalReason) (s : Status) (c : Call api)
      → byes c.requests ≡ flag (is_duration r && has_joined c.join_response)
      → leaves c.requests ≡ 0
      → Sound (complete_finish r s c)
  unfolding complete_finish
  completed-Goodbye r s c b l =
      let e = leaves-close_requests c.join_response c.requests in
      record {
        byes_sent = omega (arith, e.0, b);
        times_left = omega (arith, e.1, l);
        was_joined = λ f q. cc;
      }

  bye-Goodbye :
      (jr : JoinResponse) (c : Call api)
      → c.finished ≡ true
      → c.quit ≡ false
      → c.join_response ≡ some jr
      → byes c.requests ≡ 0
      → leaves c.requests ≡ 0
      → Sound (send_bye_and_finish jr c)
  unfolding send_bye_and_finish
  bye-Goodbye jr c f q j b l =
      let e = byes-send_payload jr bye_message after_bye c in
      record {
        byes_sent = rw (q, f) (omega (arith, e.0, b));
        times_left = rw q (omega (arith, e.1, l));
        was_joined = λ _ _. rw j refl;
      }

  ended-Goodbye :
      (r : TerminalReason) (s : Status) (j : Option JoinResponse) (c : Call api)
      → c.finished ≡ true
      → c.quit ≡ false
      → c.join_response ≡ j
      → byes c.requests ≡ 0
      → leaves c.requests ≡ 0
      → Sound (end_call r s j c)
  unfolding end_call
  ended-Goodbye local_duration_reached s none c f q e b l =
      completed-Goodbye local_duration_reached s c (rw e b) l
  ended-Goodbye local_duration_reached s (some jr) c f q e b l = bye-Goodbye jr c f q e b l
  ended-Goodbye r s j c f q e b l = completed-Goodbye r s c b l

  pub finish-Goodbye :
      (r : TerminalReason) (s : Status) (c : Call api)
      → (c.finished ≡ false → c.quit ≡ false)
      → Sound c
      → Sound (finish r s c)
  unfolding finish
  finish-Goodbye r s c e v =
      if_cases Sound c.finished (λ _. v)
        (λ f.
          let b : byes c.requests ≡ 0 = ground (arith, f, e f, v.byes_sent) in
          let l : leaves c.requests ≡ 0 = ground (arith, e f, v.times_left) in
          ended-Goodbye r s c.join_response _ refl (e f) refl b l)

  pub startup_timer-Goodbye :
      (g : ℕ) (c : Call api)
      → (c.finished ≡ false → c.quit ≡ false)
      → Sound c
      → Sound (on_startup_timer g c)
  unfolding on_startup_timer
  startup_timer-Goodbye g c e v =
      if_cases Sound c.finished (λ _. v)
        (λ _.
          if_cases Sound (g == c.startup_timeout_generation && not c.call_established)
            (λ _. finish-Goodbye startup_timeout _ c e v) (λ _. v))

  pub duration_timer-Goodbye :
      (g : ℕ) (c : Call api)
      → (c.finished ≡ false → c.quit ≡ false)
      → Sound c
      → Sound (on_duration_timer g c)
  unfolding on_duration_timer
  duration_timer-Goodbye g c e v =
      if_cases Sound c.finished (λ _. v)
        (λ _.
          if_cases Sound (g == c.call_duration_generation && c.call_established)
            (λ _. finish-Goodbye local_duration_reached _ c e v) (λ _. v))

  pub mark-Goodbye : (c : Call api) → Sound c → Sound (maybe_mark_call_established c)
  unfolding maybe_mark_call_established
  mark-Goodbye c v = ground arith

  pub joined-Goodbye :
      (jr : JoinResponse) (c : Call api)
      → c.quit ≡ false
      → Sound c
      → Sound (record c { join_response = some jr })
  joined-Goodbye jr c q v = ground arith

  pub described-Goodbye :
      (jr : JoinResponse) (payload : String) (c : Call api)
      → Sound c
      → Sound (sending_description jr payload c)
  described-Goodbye jr payload c v =
      ground (arith, byes-send_payload jr payload after_description c)

  pub candidate-Goodbye :
      (jr : JoinResponse) (payload : String) (c : Call api)
      → Sound c
      → Sound (sending_candidate jr payload c)
  candidate-Goodbye jr payload c v = ground (arith, byes-send_payload jr payload after_candidate c)

  -- The callback of the bye runs when the call is finished.
  pub bye_sent-Goodbye :
      (n : ℕ) (c : Call api)
      → c.finished ≡ true
      → c.quit ≡ false
      → Sound c
      → Sound (on_bye_sent (record c { bye_callbacks = n }))
  unfolding on_bye_sent
  bye_sent-Goodbye n c f q v =
      completed-Goodbye local_duration_reached _ (record c { bye_callbacks = n })
        (ground (arith, f, q, v.byes_sent, v.was_joined f q)) (ground (arith, q, v.times_left))
