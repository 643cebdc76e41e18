-- ===== src/Call/Heard.antt =====
-- What reaches the peer connection of the messages that arrive.
pub mod Pump
pub mod Handlers
pub mod Arriving
pub mod Claimed
pub mod Steps
use mathlib.Core.List.Sublist
use mathlib.Core.List.{sublist-append_left}
use vcpkg_webrtc_sample.Prelude.{
  ℕ, zero, suc, ◌≡◌, refl, String, Bool, false, none, some, List, [], ◌∷◌, ◌++◌, Sublist, Crashes,
  Result, ok, err, ◌>>=◌,
}
use vcpkg_webrtc_sample.Common.Message.{SignalingMessage}
use vcpkg_webrtc_sample.Common.Join.{JoinResponse}
use vcpkg_webrtc_sample.Peer.Api.{PeerApi}
use vcpkg_webrtc_sample.Call.State.{Call}
use vcpkg_webrtc_sample.Call.Queue.{parse_messages, stable_sort}
use vcpkg_webrtc_sample.Call.Run.{Event, join_complete, inbound}

-- A result with a message more in the list, if it is no error.
abbrev pub with_heard {ℓ} :
    {State : Type ℓ}
    → SignalingMessage
    → List SignalingMessage
    → Result State
    → Result (State × List SignalingMessage)
with_heard m heard (ok p) = ok (p, heard ++ m ∷ [])
with_heard m heard (err e) = err e

-- Any peer connection client, with a list of the messages that it was given: a candidate in any case,
-- a description unless the client refused it at once.
abbrev pub listening : PeerApi → PeerApi
listening api = record {
  State = api.State × List SignalingMessage;
  Event = api.Event;
  initial = (api.initial, []);
  initialize = λ jr p. api.initialize jr p.0 >>= λ r. some (r.0, (r.1, p.1));
  start_media = λ p. api.start_media p.0 >>= λ r. some (r.0, (r.1, p.1));
  create_offer = λ p. api.create_offer p.0 >>= λ q. some (q, p.1);
  set_remote_offer_and_create_answer =
      λ m p. api.set_remote_offer_and_create_answer m p.0 >>= λ r. some (with_heard m p.1 r);
  set_remote_answer = λ m p. api.set_remote_answer m p.0 >>= λ r. some (with_heard m p.1 r);
  add_remote_candidate =
      λ m p. api.add_remote_candidate m p.0 >>= λ r. some (r.0, (r.1, p.1 ++ m ∷ []));
  log_stats = λ p. (api.log_stats p.0, p.1);
  close = λ p. (api.close p.0, p.1);
  handle = λ e p. api.handle e p.0 >>= λ r. some ((r.0, p.1), r.1);
}

abbrev pub sorted_messages : Crashes (List SignalingMessage) → List SignalingMessage
sorted_messages none = []
sorted_messages (some ms) = stable_sort ms

-- The messages that waited in the room.
abbrev pub joined :
    (String → Crashes (Result SignalingMessage)) → Result JoinResponse → List SignalingMessage
joined parse (ok jr) = sorted_messages (parse_messages parse jr.messages)
joined parse (err e) = []

abbrev pub one_fewer : ℕ → ℕ
one_fewer zero = zero
one_fewer (suc n) = n

abbrev pub if_left : ℕ → List SignalingMessage → List SignalingMessage
if_left zero ms = []
if_left (suc n) ms = ms

-- What arrives with the events, if the given number of joins can complete.
abbrev pub arrivals :
    {api : PeerApi}
    → (String → Crashes (Result SignalingMessage))
    → ℕ
    → List (Event api)
    → List SignalingMessage
arrivals parse n [] = []
arrivals parse n (join_complete r ∷ es) =
    if_left n (joined parse r) ++ arrivals parse (one_fewer n) es
arrivals parse n (inbound m ∷ es) = m ∷ arrivals parse n es
arrivals parse n (e ∷ es) = arrivals parse n es

pub sublist-++ {ℓ} :
    {A : Type ℓ} {xs : List A} (ys zs : List A) → Sublist xs ys → Sublist xs (ys ++ zs)
sublist-++ ys zs h = Sublist.trans h (sublist-append_left ys zs)

pub without_one {ℓ} :
    {A : Type ℓ} (xs : List A) (x : A) (ys : List A) → Sublist (xs ++ ys) (xs ++ x ∷ ys)
without_one [] x ys = Sublist.cons x (Sublist.refl ys)
without_one (y ∷ xs) x ys = Sublist.cons-cons y (without_one xs x ys)

-- What was given to the peer connection and then what waits: a part of what arrived, in its order,
-- and all of it as long as the call goes on.
pub record Told (n : ℕ) (arrived told : List SignalingMessage) (finished quit : Bool) (joins : ℕ)
    : Type 0 where
  pub joins_left : joins ≡ n
  pub is_part : Sublist told arrived
  pub is_all : finished ≡ false → quit ≡ false → told ≡ arrived

module _ (api : PeerApi) where
  abbrev pub told : Call (listening api) → List SignalingMessage
  told c = c.peer.1 ++ c.pending_signaling_messages

  abbrev pub Heard : ℕ → List SignalingMessage → Call (listening api) → Type 0
  Heard n arrived c = Told n arrived (told c) c.finished c.quit c.join_callbacks
