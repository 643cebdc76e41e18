-- ===== src/Call/Requests/Grown.antt =====
-- Every callback that the controller hands out comes with a request of its kind.
use vcpkg_webrtc_sample.Prelude.{
  ℕ, ◌+◌, ◌≡◌, refl, ap, ◌∙◌, not, ◌&&◌, ◌==◌, if◌then◌else◌, flag, Option, none, some, String,
  List, [], ◌∷◌, ◌++◌, Status, ok_status, if_cases, arith,
}
use vcpkg_webrtc_sample.Common.Join.{JoinResponse}
use vcpkg_webrtc_sample.Peer.Api.{PeerApi}
use vcpkg_webrtc_sample.Call.Types.{TerminalReason, local_duration_reached, startup_timeout}
use vcpkg_webrtc_sample.Call.State.{
  Call, Request, SendCallback, after_description, after_candidate, after_bye, connect_web_socket,
  register, send_to_room, send_web_socket_message, close_signaling,
}
use vcpkg_webrtc_sample.Call.Finish.{
  request, bye_message, finish, end_call, complete_finish, close_requests, send_bye_and_finish,
  send_payload, maybe_mark_call_established,
}
use vcpkg_webrtc_sample.Call.Handlers.{on_bye_sent, on_startup_timer, on_duration_timer}
use vcpkg_webrtc_sample.Call.Kept.{
  Core, core, Kept, registering_call, sending_description, sending_candidate,
}
use vcpkg_webrtc_sample.Call.Requests.{Kind, sends_for, is_of, count, callbacks}

-- The requests since then, and a callback more for each of them that has one.
pub record Grown (base c : Core) : Type 0 where
  pub made : List Request
  pub on_top : c.requests ≡ made ++ base.requests
  pub balanced : (k : Kind) → callbacks k c ≡ callbacks k base + count k made

-- One request more.
one_more :
    (r : Request) (base c d : Core)
    → d.requests ≡ r ∷ c.requests
    → ((k : Kind) → callbacks k d ≡ flag (is_of r k) + callbacks k c)
    → Grown base c
    → Grown base d
one_more r base c d e b g = record {
  made = r ∷ g.made;
  on_top = e ∙ ap (λ rs. r ∷ rs) g.on_top;
  balanced = λ k. omega (arith, b k, g.balanced k);
}

pub Grown-refl : (c : Core) → Grown c c
Grown-refl c = record { made = []; on_top = refl; balanced = λ k. omega arith }

-- The requests stay as they were.
pub no_more :
    (base c d : Core)
    → d.requests ≡ c.requests
    → ((k : Kind) → callbacks k d ≡ callbacks k c)
    → Grown base c
    → Grown base d
no_more base c d e b g = record {
  made = g.made;
  on_top = e ∙ g.on_top;
  balanced = λ k. b k ∙ g.balanced k;
}

module _ (api : PeerApi) (base : Core) where
  abbrev Good : Call api → Type 0
  Good c = Grown base (core c)

  connected-Grown :
      (jr : JoinResponse) (c : Call api) → Good c → Good (request (connect_web_socket jr) c)
  connected-Grown jr c g =
      one_more (connect_web_socket jr) base (core c) (core (request (connect_web_socket jr) c)) refl
        (λ k. ground arith) g

  registering-Grown : (jr : JoinResponse) (c : Call api) → Good c → Good (registering_call jr c)
  registering-Grown jr c g =
      one_more (register jr) base (core c) (core (registering_call jr c)) refl (λ k. ground arith) g

  -- Where a message goes makes no difference.
  payload_request : JoinResponse → String → SendCallback → Call api → Request
  payload_request jr payload callback c =
      if jr.is_initiator
      then send_to_room c.config.room_server_url jr.room_id jr.client_id payload callback
      else send_web_socket_message payload callback

  payload_of :
      (jr : JoinResponse) (payload : String) (callback : SendCallback) (c : Call api) (k : Kind)
      → is_of (payload_request jr payload callback c) k ≡ sends_for callback k
  unfolding payload_request
  payload_of jr payload callback c k =
      if_cases (λ r. is_of r k ≡ sends_for callback k) jr.is_initiator (λ _. refl) (λ _. refl)

  sent-Grown :
      (jr : JoinResponse) (payload : String) (callback : SendCallback) (c d : Call api)
      → d.requests ≡ (send_payload jr payload callback c).requests
      → ((k : Kind) → callbacks k (core d) ≡ flag (sends_for callback k) + callbacks k (core c))
      → Good c
      → Good d
  unfolding payload_request
  sent-Grown jr payload callback c d e b g =
      one_more (payload_request jr payload callback c) base (core c) (core d) e
        (λ k. rw (payload_of jr payload callback c k) (b k)) g

  described-Grown :
      (jr : JoinResponse) (payload : String) (c : Call api)
      → Good c
      → Good (sending_description jr payload c)
  described-Grown jr payload c g =
      sent-Grown jr payload after_description c (sending_description jr payload c) refl
        (λ k. ground arith) g

  candidate_sent-Grown :
      (jr : JoinResponse) (payload : String) (c : Call api)
      → Good c
      → Good (sending_candidate jr payload c)
  candidate_sent-Grown jr payload c g =
      sent-Grown jr payload after_candidate c (sending_candidate jr payload c) refl
        (λ k. ground arith) g

  completed-Grown :
      (r : TerminalReason) (s : Status) (j : Option JoinResponse) (c : Call api)
      → c.join_response ≡ j
      → Good c
      → Good (complete_finish r s c)
  unfolding complete_finish close_requests
  completed-Grown r s none c e g = no_more base (core c) _ (rw e refl) (λ k. ground arith) g
  completed-Grown r s (some jr) c e g =
      one_more (close_signaling jr) base (core c) _ (rw e refl) (λ k. ground arith) g

  bye-Grown : (jr : JoinResponse) (c : Call api) → Good c → Good (send_bye_and_finish jr c)
  unfolding send_bye_and_finish
  bye-Grown jr c g =
      sent-Grown jr bye_message after_bye c (send_bye_and_finish jr c) refl (λ k. ground arith) g

  ended-Grown :
      (r : TerminalReason) (s : Status) (j : Option JoinResponse) (c : Call api)
      → c.join_response ≡ j
      → Good c
      → Good (end_call r s j c)
  unfolding end_call
  ended-Grown local_duration_reached s none c e g =
      completed-Grown local_duration_reached s none c e g
  ended-Grown local_duration_reached s (some jr) c e g = bye-Grown jr c g
  ended-Grown r s j c e g = completed-Grown r s j c e g

  finish-Grown : (r : TerminalReason) (s : Status) (c : Call api) → Good c → Good (finish r s c)
  unfolding finish
  finish-Grown r s c g =
      if_cases Good c.finished (λ _. g)
        (λ _.
          ended-Grown r s c.join_response _ refl
            (no_more base (core c) _ refl (λ k. ground arith) g))

  mark-Grown : (c : Call api) → Good c → Good (maybe_mark_call_established c)
  unfolding maybe_mark_call_established
  mark-Grown c g =
      no_more base (core c) (core (maybe_mark_call_established c)) (ground arith)
        (λ k. ground arith) g

  pub Grown-Kept : Kept api (Grown base)
  Grown-Kept = record {
    finish_kept = λ r s c j g. finish-Grown r s c g;
    mark_kept = λ c f g. mark-Grown c g;
    restate_kept =
        λ s c f g. no_more base (core c) (core (record c { state = s })) refl (λ k. ground arith) g;
    joined_kept = λ jr c f g.
        no_more base (core c) (core (record c { join_response = some jr })) refl (λ k. ground arith)
          g;
    connect_kept = connected-Grown;
    register_kept = registering-Grown;
    description_kept = described-Grown;
    candidate_kept = candidate_sent-Grown;
  }

  pub bye_sent-Grown : (c : Call api) → Good c → Good (on_bye_sent c)
  unfolding on_bye_sent
  bye_sent-Grown c g = completed-Grown local_duration_reached ok_status c.join_response c refl g

  pub startup_timer-Grown : (g : ℕ) (c : Call api) → Good c → Good (on_startup_timer g c)
  unfolding on_startup_timer
  startup_timer-Grown g c v =
      if_cases Good c.finished (λ _. v)
        (λ _.
          if_cases Good (g == c.startup_timeout_generation && not c.call_established)
            (λ _. finish-Grown startup_timeout _ c v) (λ _. v))

  pub duration_timer-Grown : (g : ℕ) (c : Call api) → Good c → Good (on_duration_timer g c)
  unfolding on_duration_timer
  duration_timer-Grown g c v =
      if_cases Good c.finished (λ _. v)
        (λ _.
          if_cases Good (g == c.call_duration_generation && c.call_established)
            (λ _. finish-Grown local_duration_reached _ c v) (λ _. v))
