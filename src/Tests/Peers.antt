-- ===== src/Tests/Peers.antt =====
-- Runs of the peer connection client by itself.
use vcpkg_webrtc_sample.Prelude.{
  ◌+◌, ◌≡◌, if◌then◌else◌, refl, none, some, List, [], ◌∷◌, ok_status, map, arith,
}
use vcpkg_webrtc_sample.Tests.{text_json, counting_rtc, test_response}
use vcpkg_webrtc_sample.Peer.Api.{Notice, remote_media}
use vcpkg_webrtc_sample.Peer.Rtc.{done}
use vcpkg_webrtc_sample.Peer.State.{
  Peer, PeerEvent, called_back, frame_arrived, created, initial_peer,
}
use vcpkg_webrtc_sample.Peer.Setup.{initialize, start_media, close}
use vcpkg_webrtc_sample.Peer.Negotiation.{create_offer}
use vcpkg_webrtc_sample.Peer.Calls.{
  PeerCall, initializes, starts_media, creates_offer, hears, peer_call, peer_calls,
}
use vcpkg_webrtc_sample.Peer.Calls.Late.{AllLate, any_slips_in, close_cuts_off}
use vcpkg_webrtc_sample.Common.Ice.{parse_ice_servers}

-- An offer is being created.
abbrev offering : List (PeerCall counting_rtc)
offering = initializes test_response ∷ starts_media ok_status ∷ creates_offer ∷ []

abbrev peer_after : Peer counting_rtc × List Notice
peer_after = elim (peer_calls text_json offering (initial_peer counting_rtc)) [
  | none ↦ (initial_peer counting_rtc, [])
  | some r ↦ r
]

offering_runs :
    peer_calls text_json offering (initial_peer counting_rtc) ≡ some (peer_after.0, peer_after.1)
unfolding peer_calls peer_call initialize start_media create_offer parse_ice_servers
offering_runs = refl

-- The offer comes after all, and two frames, one from before and one that slipped in.
abbrev late_events : List (PeerEvent counting_rtc)
late_events =
    called_back 0 (created (done "offer"))
    ∷ frame_arrived 0
    ∷ frame_arrived (peer_after.0.safety + 1)
    ∷ []

late_events-AllLate : AllLate peer_after.0.safety late_events
unfolding peer_calls peer_call initialize start_media create_offer parse_ice_servers
late_events-AllLate = (tt, (omega arith, (omega arith, tt)))

close_cuts_off_example :
    (q : Peer counting_rtc) × (peer_calls text_json (map hears late_events) (close peer_after.0)
      ≡ some (q, if any_slips_in peer_after.0.safety late_events then remote_media ∷ [] else []))
    × (q ≡ record (close peer_after.0) {
      observers = q.observers;
      remote_media_seen = any_slips_in peer_after.0.safety late_events;
    })
close_cuts_off_example =
    close_cuts_off text_json offering late_events peer_after.0 peer_after.1 offering_runs
      late_events-AllLate
