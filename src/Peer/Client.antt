-- ===== src/Peer/Client.antt =====
-- The client as the controller sees it: the operations, behind their interface.
use vcpkg_webrtc_sample.Prelude.{Status}
use vcpkg_webrtc_sample.Common.Json.{Json}
use vcpkg_webrtc_sample.Peer.Api.{PeerApi}
use vcpkg_webrtc_sample.Peer.Rtc.{Rtc}
use vcpkg_webrtc_sample.Peer.State.{Peer, PeerEvent, initial_peer}
use vcpkg_webrtc_sample.Peer.Setup.{initialize, start_media, close, log_stats}
use vcpkg_webrtc_sample.Peer.Candidates.{add_remote_candidate}
use vcpkg_webrtc_sample.Peer.Negotiation.{
  create_offer, set_remote_answer, set_remote_offer_and_create_answer,
}
use vcpkg_webrtc_sample.Peer.Events.{handle}

-- `start_video` is what `FileVideoSource::Start` gives for the configured path.
abbrev pub peer_client : Json → Rtc → Status → PeerApi
peer_client json rtc start_video = record {
  State = Peer rtc;
  Event = PeerEvent rtc;
  initial = initial_peer rtc;
  initialize = initialize json;
  start_media = start_media start_video;
  create_offer = create_offer;
  set_remote_offer_and_create_answer = set_remote_offer_and_create_answer;
  set_remote_answer = set_remote_answer;
  add_remote_candidate = add_remote_candidate;
  log_stats = log_stats;
  close = close;
  handle = handle json;
}
