-- ===== src/Call/Kept.antt =====
-- Invariants over the part of the state that decides how a call ends.
--
-- The children derive from the rules of `Kept` that every callback keeps a predicate on the core;
-- whatever does not touch the core needs no rule. With those of `Claimed` it is an invariant.
pub mod Pump
pub mod Handlers
pub mod Steps
use vcpkg_webrtc_sample.Prelude.{
  ℕ, suc, ◌+◌, String, ◌≡◌, Bool, true, false, Option, some, List, Status,
}
use vcpkg_webrtc_sample.Common.Config.{success}
use vcpkg_webrtc_sample.Peer.Api.{PeerApi}
use vcpkg_webrtc_sample.Call.Types.{CallState, TerminalReason, exit_code_for_reason}
use vcpkg_webrtc_sample.Common.Join.{JoinResponse}
use vcpkg_webrtc_sample.Call.State.{
  Call, Request, connect_web_socket, register, after_description, after_candidate,
}
use vcpkg_webrtc_sample.Call.Finish.{request, send_payload, finish, maybe_mark_call_established}
use vcpkg_webrtc_sample.Call.Handlers.{on_startup_timer, on_duration_timer, on_bye_sent}
use vcpkg_webrtc_sample.Call.Run.{remove_first}

pub record Core : Type 0 where
  pub finished : Bool
  pub quit : Bool
  pub call_established : Bool
  pub state : CallState
  pub exit_code : ℕ
  pub terminal : Option (TerminalReason × Status)
  pub bye_callbacks : ℕ
  pub startup_timeout_generation : ℕ
  pub call_duration_generation : ℕ
  pub startup_timers : List ℕ
  pub duration_timers : List ℕ
  pub requests : List Request
  pub join_callbacks : ℕ
  pub register_callbacks : ℕ
  pub description_callbacks : ℕ
  pub candidate_callbacks : ℕ
  pub join_response : Option JoinResponse

module _ {api : PeerApi} where
  abbrev pub core : Call api → Core
  core c = record {
    finished = c.finished;
    quit = c.quit;
    call_established = c.call_established;
    state = c.state;
    exit_code = c.exit_code;
    terminal = c.terminal;
    bye_callbacks = c.bye_callbacks;
    startup_timeout_generation = c.startup_timeout_generation;
    call_duration_generation = c.call_duration_generation;
    startup_timers = c.startup_timers;
    duration_timers = c.duration_timers;
    requests = c.requests;
    join_callbacks = c.join_callbacks;
    register_callbacks = c.register_callbacks;
    description_callbacks = c.description_callbacks;
    candidate_callbacks = c.candidate_callbacks;
    join_response = c.join_response;
  }

  -- What three of the callbacks do with the requests.
  abbrev pub registering_call : JoinResponse → Call api → Call api
  registering_call jr c = record (request (register jr) c) {
    register_callbacks = c.register_callbacks + 1;
  }

  abbrev pub sending_description : JoinResponse → String → Call api → Call api
  sending_description jr payload c = record (send_payload jr payload after_description c) {
    description_callbacks = c.description_callbacks + 1;
  }

  abbrev pub sending_candidate : JoinResponse → String → Call api → Call api
  sending_candidate jr payload c = record (send_payload jr payload after_candidate c) {
    candidate_callbacks = c.candidate_callbacks + 1;
  }

  -- Success is claimed only for an established call.
  abbrev pub Justified : TerminalReason → Call api → Type 0
  Justified r c = exit_code_for_reason r ≡ success → c.call_established ≡ true

pub record Kept (api : PeerApi) (P : Core → Type 0) : Type 1 where
  pub finish_kept :
      (r : TerminalReason) (s : Status) (c : Call api)
      → Justified r c
      → P (core c)
      → P (core (finish r s c))
  pub mark_kept :
      (c : Call api) → c.finished ≡ false → P (core c) → P (core (maybe_mark_call_established c))
  pub restate_kept :
      (s : CallState) (c : Call api)
      → c.finished ≡ false
      → P (core c)
      → P (core (record c { state = s }))
  pub joined_kept :
      (jr : JoinResponse) (c : Call api)
      → c.finished ≡ false
      → P (core c)
      → P (core (record c { join_response = some jr }))
  pub connect_kept :
      (jr : JoinResponse) (c : Call api) → P (core c) → P (core (request (connect_web_socket jr) c))
  pub register_kept :
      (jr : JoinResponse) (c : Call api) → P (core c) → P (core (registering_call jr c))
  pub description_kept :
      (jr : JoinResponse) (payload : String) (c : Call api)
      → P (core c)
      → P (core (sending_description jr payload c))
  pub candidate_kept :
      (jr : JoinResponse) (payload : String) (c : Call api)
      → P (core c)
      → P (core (sending_candidate jr payload c))

-- The rules for a schedule: an event takes its callback, or its timer, from the state.
pub record Claimed (api : PeerApi) (P : Core → Type 0) : Type 1 where
  pub join_claimed :
      (n : ℕ) (c : Call api)
      → c.join_callbacks ≡ suc n
      → P (core c)
      → P (core (record c { join_callbacks = n }))
  pub register_claimed :
      (n : ℕ) (c : Call api)
      → c.register_callbacks ≡ suc n
      → P (core c)
      → P (core (record c { register_callbacks = n }))
  pub description_claimed :
      (n : ℕ) (c : Call api)
      → c.description_callbacks ≡ suc n
      → P (core c)
      → P (core (record c { description_callbacks = n }))
  pub candidate_claimed :
      (n : ℕ) (c : Call api)
      → c.candidate_callbacks ≡ suc n
      → P (core c)
      → P (core (record c { candidate_callbacks = n }))
  pub bye_kept :
      (n : ℕ) (c : Call api)
      → c.quit ≡ false
      → c.bye_callbacks ≡ suc n
      → P (core c)
      → P (core (on_bye_sent (record c { bye_callbacks = n })))
  pub startup_kept :
      (g : ℕ) (c : Call api)
      → P (core c)
      → P (
          core (on_startup_timer g (record c { startup_timers = remove_first g c.startup_timers })))
  pub duration_kept :
      (g : ℕ) (c : Call api)
      → P (core c)
      → P (
          core
            (on_duration_timer g (record c { duration_timers = remove_first g c.duration_timers })))
