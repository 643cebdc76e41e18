-- ===== src/Call/Pump.antt =====
-- `PumpSignalingMessages`: what waits is handled in order, one negotiation action at a time.
use vcpkg_webrtc_sample.Prelude.{
  Bool, true, false, if◌then◌else◌, ◌&&◌, not, Option, none, some, List, [], ◌∷◌, Crashes, Error,
  Result, ok, err, Status, fail, ◌>>=◌, cancelled, failed_precondition, unimplemented,
}
use vcpkg_webrtc_sample.Common.Message.{
  SignalingMessage, SignalingMessageType, offer, answer, candidate, bye, unknown,
}
use vcpkg_webrtc_sample.Common.Join.{JoinResponse}
use vcpkg_webrtc_sample.Peer.Api.{PeerApi}
use vcpkg_webrtc_sample.Call.Types.{
  negotiating, remote_bye_after_established, remote_bye_before_established, signaling_error,
  peer_connection_error,
}
use vcpkg_webrtc_sample.Call.State.{Call}
use vcpkg_webrtc_sample.Call.Finish.{set_state, finish}

module _ {api : PeerApi} where
  -- The condition of the loop.
  abbrev pub can_pump : Call api → Bool
  can_pump c = not c.finished && (c.negotiation_ready && not c.signaling_action_in_flight)

  -- The start of a negotiation action.
  abbrev pub begin_action : Call api → Call api
  begin_action c = record (set_state negotiating c) { signaling_action_in_flight = true }

  -- The callbacks of the three actions on an error.
  abbrev pub action_failed : Error → Call api → Call api
  action_failed e c =
      finish peer_connection_error (err e) (record c { signaling_action_in_flight = false })

  unfoldable pub on_bye : Call api → Call api
  on_bye c =
      if c.call_established
      then finish remote_bye_after_established
          (fail cancelled "remote hangup after established call") c
      else finish remote_bye_before_established
          (fail failed_precondition "remote hangup before call establishment") c

  -- The result of one of the two actions on a remote description: with an error it has called
  -- back at once.
  unfoldable pub action_begun : Call api → Result api.State → Call api
  action_begun c (ok p) = record c { peer = p }
  action_begun c (err e) = action_failed e c

  -- The `continue` of the loop, or its `return`.
  unfoldable pub candidate_added :
      (Call api → Crashes (Call api)) → Call api → Status × api.State → Crashes (Call api)
  candidate_added continue c (ok _, p) = continue (record c { peer = p })
  candidate_added continue c (err e, p) =
      some (finish peer_connection_error (err e) (record c { peer = p }))

  unfoldable pub handle_message :
      SignalingMessageType
      → SignalingMessage
      → (Call api → Crashes (Call api))
      → Call api
      → Crashes (Call api)
  unfolding on_bye action_begun candidate_added
  handle_message bye m continue c = some (on_bye c)
  handle_message candidate m continue c =
      api.add_remote_candidate m c.peer >>= candidate_added continue c
  handle_message answer m continue c =
      api.set_remote_answer m c.peer >>= λ r. some (action_begun (begin_action c) r)
  handle_message offer m continue c = api.set_remote_offer_and_create_answer m c.peer >>= λ r.
      some (action_begun (begin_action c) r)
  handle_message unknown m continue c =
      some (finish signaling_error (fail unimplemented "unknown signaling message") c)

  -- The end of the loop's body, when no message waits.
  unfoldable pub start_offer : Bool → Call api → Crashes (Call api)
  start_offer false c = some c
  start_offer true c =
      if c.offer_started
      then some c
      else (api.create_offer c.peer >>= λ p.
          some (record (begin_action c) { offer_started = true; peer = p }))

  -- The loop, over the queue.
  unfoldable pub pump_loop : Bool → List SignalingMessage → Call api → Crashes (Call api)
  unfolding start_offer handle_message
  pump_loop initiator [] c = if can_pump c then start_offer initiator c else some c
  pump_loop initiator (m ∷ ms) c =
      let rest = pump_loop initiator ms in
      if can_pump c
      then handle_message m.kind m rest (record c { pending_signaling_messages = ms })
      else some c

  -- The guard in front of the loop tests the same and `join_response_`.
  unfoldable pub pump : Option JoinResponse → Call api → Crashes (Call api)
  pump none c = some c
  pump (some jr) c = pump_loop jr.is_initiator c.pending_signaling_messages c

  unfoldable pub pump_signaling_messages : Call api → Crashes (Call api)
  unfolding pump
  pump_signaling_messages c = pump c.join_response c
