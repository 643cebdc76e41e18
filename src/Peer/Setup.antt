-- ===== src/Peer/Setup.antt =====
-- The constructor and the destructor, `Initialize`, `StartMedia`, `Close` and `LogStats`.
use vcpkg_webrtc_sample.Prelude.{
  ◌+◌, Bool, true, false, ◌&&◌, if◌then◌else◌, Option, none, some, List, [], Crashes, Result, ok,
  err, Status, ok_status, fail, ◌>>=◌, internal,
}
use vcpkg_webrtc_sample.Common.Json.{Json}
use vcpkg_webrtc_sample.Common.Ice.{IceServer, parse_ice_servers}
use vcpkg_webrtc_sample.Common.Join.{JoinResponse}
use vcpkg_webrtc_sample.Peer.Rtc.{Rtc, RtcResult, done, rtc_error}
use vcpkg_webrtc_sample.Peer.State.{Peer, initial_peer}

module _ {rtc : Rtc} where
  connected_to : Peer rtc → RtcResult rtc.Connection → Status × Peer rtc
  connected_to p (rtc_error m) = (fail internal m, p)
  connected_to p (done c) = (
    ok_status,
    record p {
      connection = some c;
      remote_frame_sink = true;
      connected = false;
      remote_media_seen = false;
      remote_description_set = false;
      pending_remote_candidates = [];
    },
  )

  with_servers : Peer rtc → Result (List IceServer) → Status × Peer rtc
  unfolding connected_to
  with_servers p (err e) = (err e, p)
  with_servers p (ok servers) = connected_to p (rtc.create_peer_connection servers)

  -- The second track, and then the first.
  audio_added : Peer rtc → RtcResult rtc.Connection → Status × Peer rtc
  audio_added p (rtc_error m) = (fail internal m, p)
  audio_added p (done c) = (ok_status, record p { connection = some c })

  video_added : Peer rtc → RtcResult rtc.Connection → Status × Peer rtc
  unfolding audio_added
  video_added p (rtc_error m) = (fail internal m, p)
  video_added p (done c) =
      audio_added (record p { connection = some c }) (rtc.add_track c "tone-audio")

  -- Both pointers are dereferenced here.
  add_tracks : Bool → Option rtc.Connection → Peer rtc → Crashes (Status × Peer rtc)
  unfolding video_added
  add_tracks false c p = none
  add_tracks true none p = none
  add_tracks true (some c) p = some (video_added p (rtc.add_track c "video-file"))

  video_started : Status → Peer rtc → Crashes (Status × Peer rtc)
  unfolding add_tracks
  video_started (err e) p = some (err e, p)
  video_started (ok _) p = add_tracks p.factory p.connection p

  -- `start_video` is `FileVideoSource::Start` at the configured path.
  unfoldable pub start_media : Status → Peer rtc → Crashes (Status × Peer rtc)
  unfolding video_started
  start_media start_video p = video_started start_video (record p { video_source = true })

  -- The old safety flag is cleared, so the tasks and observers that captured it do nothing.
  unfoldable pub close : Peer rtc → Peer rtc
  close p = record p {
    safety = p.safety + 1;
    connection = none;
    pending_remote_candidates = [];
    remote_description_set = false;
    connected = false;
    remote_media_seen = false;
    video_source = false;
    factory = false;
    remote_frame_sink = false;
  }

  -- The constructor checks that there is a signaling thread.
  abbrev pub new_peer_client : Bool → Crashes (Peer rtc)
  new_peer_client has_signaling_thread =
      if has_signaling_thread then some (initial_peer rtc) else none

  abbrev pub destroy_peer_client : Peer rtc → Peer rtc
  unfolding close
  destroy_peer_client p = close p

  unfoldable pub log_stats : Peer rtc → Peer rtc
  log_stats p = elim p.connection [
    | none ↦ p
    | some c ↦ record p { connection = some (rtc.get_stats c) }
  ]

  unfoldable pub initialize : Json → JoinResponse → Peer rtc → Crashes (Status × Peer rtc)
  unfolding with_servers
  initialize json jr p =
      let p' = record p { join_response = some jr } in
      if rtc.network_thread_starts && rtc.worker_thread_starts
      then if rtc.factory_created
        then (parse_ice_servers json jr.pc_config_json >>= λ servers.
            some (with_servers (record p' { factory = true }) servers))
        else some (
          fail internal "failed to create peer connection factory",
          record p' { factory = false },
        )
      else some (fail internal "failed to start webrtc threads", p')
