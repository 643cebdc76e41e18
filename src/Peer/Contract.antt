-- ===== src/Peer/Contract.antt =====
-- The laws of the interface, for the client.
use vcpkg_webrtc_sample.Prelude.{
  suc, ◌≡◌, refl, ◌⊎◌, inl, inr, true, some, Crashes, Error, Result, ok, err, Status, ◌∙◌, Returns,
  Returns-some,
}
use vcpkg_webrtc_sample.Common.Json.{Json}
use vcpkg_webrtc_sample.Common.Ice.{parse_ice_servers}
use vcpkg_webrtc_sample.Peer.Api.{PeerLaws}
use vcpkg_webrtc_sample.Peer.Rtc.{Rtc}
use vcpkg_webrtc_sample.Peer.State.{Peer}
use vcpkg_webrtc_sample.Peer.Candidates.{add_remote_candidate}
use vcpkg_webrtc_sample.Peer.Setup.{initialize, start_media}
use vcpkg_webrtc_sample.Peer.Negotiation.{
  create_offer, set_remote_answer, set_remote_offer_and_create_answer,
}
use vcpkg_webrtc_sample.Peer.Events.{handle}
use vcpkg_webrtc_sample.Peer.Client.{peer_client}
use vcpkg_webrtc_sample.Peer.Laws.{is_open, busy}
use vcpkg_webrtc_sample.Peer.Laws.Connection.{
  Same, Waits, Begins, Initialized, initialize_total, start_media_total, create_offer_total,
  set_remote_offer_total, set_remote_answer_total, add_remote_candidate_total, log_stats-Same,
}
use vcpkg_webrtc_sample.Peer.Laws.Observers.{Handled, handle_total}

module _ {rtc : Rtc} where
  -- A call that leaves an open connection open.
  pub from_Same :
      (p : Peer rtc) (m : Crashes (Status × Peer rtc))
      → is_open p ≡ true
      → Returns (Same p) m
      → (s : Status) × (q : Peer rtc) × (m ≡ some (s, q)) × (busy q ≡ busy p) × (is_open q ≡ true)
  from_Same p m o r = let ((s, q), e, (b, o')) = Returns-some (Same p) m r in (s, q, e, b, o' ∙ o)

  pub from_Begins :
      (p : Peer rtc) (m : Crashes (Result (Peer rtc)))
      → Returns (Begins p) m
      → ((e : Error) × (m ≡ some (err e)))
        ⊎ ((q : Peer rtc) × (m ≡ some (ok q)) × (busy q ≡ suc (busy p)) × (is_open q ≡ true))
  from_Begins p m r = let (a, e, b) = Returns-some (Begins p) m r in go a e b
    where
      go :
          (a : Result (Peer rtc))
          → m ≡ some a
          → Begins p a
          → ((e : Error) × (m ≡ some (err e)))
            ⊎ ((q : Peer rtc) × (m ≡ some (ok q)) × (busy q ≡ suc (busy p)) × (is_open q ≡ true))
      go (err x) e b = inl (x, e)
      go (ok q) e b = inr (q, e, b.0, b.1)

  pub from_Waits :
      (p : Peer rtc) (m : Crashes (Peer rtc))
      → Returns (Waits p) m
      → (q : Peer rtc) × (m ≡ some q) × (busy q ≡ suc (busy p)) × (is_open q ≡ true)
  from_Waits p m r = let (q, e, w) = Returns-some (Waits p) m r in (q, e, w.0, w.1)

-- The contract holds for every WebRTC library and every JSON library. A join response is accepted
-- if reading its list of ICE servers does not throw.
abbrev pub peer_laws :
    (json : Json) (rtc : Rtc) (start_video : Status) → PeerLaws (peer_client json rtc start_video)
peer_laws json rtc start_video = record {
  is_open = is_open;
  busy = busy;
  Accepts = λ jr. Returns (λ r. Unit) (parse_ice_servers json jr.pc_config_json);
  initial_idle = refl;
  initialize_lem = λ jr p a.
      let (r, e, i) =
        Returns-some (Initialized p) (initialize json jr p) (initialize_total json jr p a) in
      (r.0, r.1, e, i.0, i.1);
  start_media_lem =
      λ p o. from_Same p (start_media start_video p) o (start_media_total start_video p o);
  create_offer_lem = λ p o. from_Waits p (create_offer p) (create_offer_total p o);
  set_remote_offer_lem = λ m p o.
      from_Begins p (set_remote_offer_and_create_answer m p) (set_remote_offer_total m p o);
  set_remote_answer_lem =
      λ m p o. from_Begins p (set_remote_answer m p) (set_remote_answer_total m p o);
  add_remote_candidate_lem =
      λ m p o. from_Same p (add_remote_candidate m p) o (add_remote_candidate_total m p o);
  log_stats_lem = log_stats-Same;
  handle_lem = λ e p h.
      let (r, x, v) =
        Returns-some (Handled (busy p) (is_open p)) (handle json e p) (handle_total json e p h) in
      (r.0, r.1, x, v.0, v.1);
}
