-- ===== src/Peer/Api.antt =====
-- The interface between the call controller and the peer connection client.
--
-- The client calls back in tail position only, so a call of it returns the callbacks that it made,
-- in order, as `Notice`s. What it hands to the WebRTC library completes later, by an event.
use vcpkg_webrtc_sample.Prelude.{
  ℕ, suc, ◌+◌, ◌≡◌, String, Bool, true, ◌⊎◌, List, [], ◌∷◌, some, Crashes, Error, Result, ok, err,
  Status, ok_status,
}
use vcpkg_webrtc_sample.Common.Message.{SignalingMessage}
use vcpkg_webrtc_sample.Common.Join.{JoinResponse}

pub data Notice : Type 0 where
  -- The callback of `CreateOffer` or `SetRemoteOfferAndCreateAnswer`.
  description_done : Result String → Notice
  -- The callback of `SetRemoteAnswer`.
  answer_done : Status → Notice
  -- The four callbacks that the controller sets once.
  local_message : String → Notice
  connection_changed : Bool → Notice
  remote_media : Notice
  peer_error : Error → Notice

-- How many calls of the controller a notice completes.
abbrev pub completions : List Notice → ℕ
completions [] = 0
completions (description_done r ∷ ns) = suc (completions ns)
completions (answer_done s ∷ ns) = suc (completions ns)
completions (local_message s ∷ ns) = completions ns
completions (connection_changed b ∷ ns) = completions ns
completions (remote_media ∷ ns) = completions ns
completions (peer_error e ∷ ns) = completions ns

-- The public operations. An `err` of the two asynchronous ones with a message is the callback
-- made at once, with the state as it was.
pub record PeerApi : Type 1 where
  pub State : Type 0
  pub Event : Type 0
  pub initial : State
  pub initialize : JoinResponse → State → Crashes (Status × State)
  pub start_media : State → Crashes (Status × State)
  pub create_offer : State → Crashes State
  pub set_remote_offer_and_create_answer : SignalingMessage → State → Crashes (Result State)
  pub set_remote_answer : SignalingMessage → State → Crashes (Result State)
  pub add_remote_candidate : SignalingMessage → State → Crashes (Status × State)
  pub log_stats : State → State
  pub close : State → State
  pub handle : Event → State → Crashes (State × List Notice)

-- What the controller may rely on, in terms of two observations: whether the connection exists,
-- and how many calls with a callback have not completed.
pub record PeerLaws (api : PeerApi) : Type 1 where
  pub is_open : api.State → Bool
  pub busy : api.State → ℕ
  pub Accepts : JoinResponse → Type 0
  pub initial_idle : busy api.initial ≡ 0
  pub initialize_lem :
      (jr : JoinResponse) (p : api.State)
      → Accepts jr
      → (s : Status) × (q : api.State) × (api.initialize jr p ≡ some (s, q))
        × (busy q ≡ busy p)
        × (s ≡ ok_status → is_open q ≡ true)
  pub start_media_lem :
      (p : api.State)
      → is_open p ≡ true
      → (s : Status) × (q : api.State) × (api.start_media p ≡ some (s, q))
        × (busy q ≡ busy p)
        × (is_open q ≡ true)
  pub create_offer_lem :
      (p : api.State)
      → is_open p ≡ true
      → (q : api.State) × (api.create_offer p ≡ some q)
        × (busy q ≡ suc (busy p))
        × (is_open q ≡ true)
  pub set_remote_offer_lem :
      (m : SignalingMessage) (p : api.State)
      → is_open p ≡ true
      → ((e : Error) × (api.set_remote_offer_and_create_answer m p ≡ some (err e)))
        ⊎ ((q : api.State) × (api.set_remote_offer_and_create_answer m p ≡ some (ok q))
            × (busy q ≡ suc (busy p))
            × (is_open q ≡ true))
  pub set_remote_answer_lem :
      (m : SignalingMessage) (p : api.State)
      → is_open p ≡ true
      → ((e : Error) × (api.set_remote_answer m p ≡ some (err e)))
        ⊎ ((q : api.State) × (api.set_remote_answer m p ≡ some (ok q))
            × (busy q ≡ suc (busy p))
            × (is_open q ≡ true))
  pub add_remote_candidate_lem :
      (m : SignalingMessage) (p : api.State)
      → is_open p ≡ true
      → (s : Status) × (q : api.State) × (api.add_remote_candidate m p ≡ some (s, q))
        × (busy q ≡ busy p)
        × (is_open q ≡ true)
  pub log_stats_lem :
      (p : api.State) → (busy (api.log_stats p) ≡ busy p) × (is_open (api.log_stats p) ≡ is_open p)
  pub handle_lem :
      (e : api.Event) (p : api.State)
      → (is_open p ≡ true) ⊎ (busy p ≡ 0)
      → (q : api.State) × (ns : List Notice) × (api.handle e p ≡ some (q, ns))
        × (busy q + completions ns ≡ busy p)
        × (is_open q ≡ is_open p)
