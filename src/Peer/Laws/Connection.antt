-- ===== src/Peer/Laws/Connection.antt =====
-- The laws of the operations on the connection.
use vcpkg_webrtc_sample.Prelude.{
  suc, ◌≡◌, refl, true, has_value, if_cases, Option, none, some, List, [], ◌∷◌, String, Crashes,
  Result, ok, err, Status, ok_status, Returns, >>=-Returns, arith,
}
use vcpkg_webrtc_sample.Common.Json.{Json}
use vcpkg_webrtc_sample.Common.Ice.{parse_ice_servers}
use vcpkg_webrtc_sample.Common.Message.{SignalingMessage}
use vcpkg_webrtc_sample.Common.Join.{JoinResponse}
use vcpkg_webrtc_sample.Peer.Rtc.{Rtc}
use vcpkg_webrtc_sample.Peer.State.{Peer}
use vcpkg_webrtc_sample.Peer.Setup.{initialize, start_media, log_stats}
use vcpkg_webrtc_sample.Peer.Candidates.{
  apply_candidate, add_remote_candidate, flush_next, flush_loop, flushed,
  flush_pending_remote_candidates,
}
use vcpkg_webrtc_sample.Peer.Negotiation.{
  create_offer, create_answer, apply_local_description, apply_remote_description, set_remote_answer,
  set_remote_offer_and_create_answer,
}
use vcpkg_webrtc_sample.Peer.Laws.{is_open, busy}

abbrev HasConnection : {C : Type 0} → Status × Option C → Type 0
HasConnection r = has_value r.1 ≡ true

module _ (rtc : Rtc) where
  apply_candidate_total :
      (refusal : String) (m : SignalingMessage) (c : Option rtc.Connection)
      → has_value c ≡ true
      → Returns HasConnection (apply_candidate rtc refusal m c)
  unfolding apply_candidate
  apply_candidate_total refusal m none h = cc
  apply_candidate_total refusal m (some c) h = ground arith

  flush_next_total :
      (rest : Option rtc.Connection → Crashes (Status × Option rtc.Connection))
      → ((c : Option rtc.Connection) → has_value c ≡ true → Returns HasConnection (rest c))
      → (r : Status × Option rtc.Connection) → HasConnection r
      → Returns HasConnection (flush_next rtc rest r)
  flush_next_total rest k (ok _, d) h = k d h
  flush_next_total rest k (err e, d) h = h

  flush_loop_total :
      (ms : List SignalingMessage) (c : Option rtc.Connection)
      → has_value c ≡ true
      → Returns HasConnection (flush_loop rtc ms c)
  unfolding flush_loop
  flush_loop_total [] c h = h
  flush_loop_total (m ∷ ms) c h =
      >>=-Returns HasConnection HasConnection _ (flush_next rtc (flush_loop rtc ms))
        (apply_candidate_total "AddIceCandidate failed while flushing" m c h)
        (flush_next_total (flush_loop rtc ms) (flush_loop_total ms))

module _ {rtc : Rtc} where
  -- As many observers wait as before, and the connection is as open.
  abbrev pub Same : Peer rtc → Status × Peer rtc → Type 0
  Same p (s, q) = (busy q ≡ busy p) × (is_open q ≡ is_open p)

  -- One more observer waits.
  abbrev pub Waits : Peer rtc → Peer rtc → Type 0
  Waits p q = (busy q ≡ suc (busy p)) × (is_open q ≡ true)

  flushed-Same :
      (p : Peer rtc) (r : Status × Option rtc.Connection)
      → is_open p ≡ true
      → HasConnection r
      → Same p (flushed p r)
  flushed-Same p (ok _, c) o h = ground arith
  flushed-Same p (err e, c) o h = ground arith

  pub flush_total :
      (p : Peer rtc) → is_open p ≡ true → Returns (Same p) (flush_pending_remote_candidates p)
  unfolding flush_pending_remote_candidates
  flush_total p o =
      >>=-Returns HasConnection (Same p) _ _
        (flush_loop_total rtc p.pending_remote_candidates p.connection (ground arith))
        (λ r h. flushed-Same p r o h)

  pub add_remote_candidate_total :
      (m : SignalingMessage) (p : Peer rtc)
      → is_open p ≡ true
      → Returns (Same p) (add_remote_candidate m p)
  unfolding add_remote_candidate
  add_remote_candidate_total m p o =
      if_cases (Returns (Same p)) p.remote_description_set
        (λ _.
          >>=-Returns HasConnection (Same p) _ _
            (apply_candidate_total rtc "AddIceCandidate failed" m p.connection (ground arith))
            (λ r h. ground arith))
        (λ _. (refl, refl))

  pub create_offer_total : (p : Peer rtc) → is_open p ≡ true → Returns (Waits p) (create_offer p)
  unfolding create_offer
  create_offer_total p o = ground arith

  pub create_answer_total : (p : Peer rtc) → is_open p ≡ true → Returns (Waits p) (create_answer p)
  unfolding create_answer
  create_answer_total p o = ground arith

  pub apply_local_total :
      (d : rtc.Description) (text : String) (p : Peer rtc)
      → is_open p ≡ true
      → Returns (Waits p) (apply_local_description d text p)
  unfolding apply_local_description
  apply_local_total d text p o = ground arith

  -- The description does not parse, or one more observer waits.
  abbrev pub Begins : Peer rtc → Result (Peer rtc) → Type 0
  Begins p (err e) = Unit
  Begins p (ok q) = Waits p q

  pub set_remote_answer_total :
      (m : SignalingMessage) (p : Peer rtc)
      → is_open p ≡ true
      → Returns (Begins p) (set_remote_answer m p)
  unfolding set_remote_answer apply_remote_description
  set_remote_answer_total m p o = ground arith

  pub set_remote_offer_total :
      (m : SignalingMessage) (p : Peer rtc)
      → is_open p ≡ true
      → Returns (Begins p) (set_remote_offer_and_create_answer m p)
  unfolding set_remote_offer_and_create_answer apply_remote_description
  set_remote_offer_total m p o = ground arith

  pub start_media_total :
      (s : Status) (p : Peer rtc) → is_open p ≡ true → Returns (Same p) (start_media s p)
  unfolding start_media
  start_media_total s p o = ground arith

  pub log_stats-Same : (p : Peer rtc) → Same p (ok_status, log_stats p)
  unfolding log_stats
  log_stats-Same p = ground arith

  -- The connection is there if the status is OK.
  abbrev pub Initialized : Peer rtc → Status × Peer rtc → Type 0
  Initialized p (s, q) = (busy q ≡ busy p) × (s ≡ ok_status → is_open q ≡ true)

  pub initialize_total :
      (json : Json) (jr : JoinResponse) (p : Peer rtc)
      → Returns (λ r. Unit) (parse_ice_servers json jr.pc_config_json)
      → Returns (Initialized p) (initialize json jr p)
  unfolding initialize
  initialize_total json jr p a = ground arith
