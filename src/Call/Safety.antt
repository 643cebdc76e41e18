-- ===== src/Call/Safety.antt =====
-- Crashes and the controller: the invariant between its flags and the peer connection client.
pub mod Pump
pub mod Handlers
pub mod Notices
pub mod Run
use vcpkg_webrtc_sample.Prelude.{
  flag, ℕ, ◌+◌, ◌≡◌, ◌≢◌, Bool, true, false, none, Status, has_value, arith,
}
use vcpkg_webrtc_sample.Peer.Api.{PeerApi, PeerLaws}
use vcpkg_webrtc_sample.Call.Types.{TerminalReason, local_duration_reached}
use vcpkg_webrtc_sample.Call.State.{Call}
use vcpkg_webrtc_sample.Call.Finish.{finish, maybe_mark_call_established}

-- `remaining` callbacks of the client have been made and are still to be handled.
pub record SafeOf (busy : ℕ) (is_open joined ready in_flight quit finished : Bool)
    (registers descriptions remaining : ℕ) : Type 0 where
  -- At most one negotiation action is under way, and it is where the flag says.
  pub counted : quit ≡ false → descriptions + busy + remaining ≡ flag in_flight
  pub opened : quit ≡ false → joined ≡ true → is_open ≡ true
  pub unjoined :
      joined ≡ false → (ready ≡ false) × (in_flight ≡ false) × (registers ≡ 0) × (remaining ≡ 0)
  pub unready : ready ≡ false → in_flight ≡ false
  pub quit_finished : quit ≡ true → finished ≡ true

module _ {api : PeerApi} (laws : PeerLaws api) where
  abbrev pub Safe : ℕ → Call api → Type 0
  Safe remaining c =
      SafeOf (laws.busy c.peer) (laws.is_open c.peer) (has_value c.join_response)
        c.negotiation_ready c.signaling_action_in_flight c.quit c.finished c.register_callbacks
        c.description_callbacks remaining

  pub finish-Safe :
      (n : ℕ) (r : TerminalReason) (s : Status) (c : Call api) → Safe n c → Safe n (finish r s c)
  unfolding finish
  finish-Safe n r s c v = ground arith

  -- A failure before the connection is there: it ends the call at once.
  pub finish-Safe_failed :
      (r : TerminalReason) (s : Status) (c : Call api)
      → r ≢ local_duration_reached
      → c.finished ≡ false
      → c.join_response ≢ none
      → (c.negotiation_ready ≡ false → c.signaling_action_in_flight ≡ false)
      → Safe 0 (finish r s c)
  unfolding finish
  finish-Safe_failed r s c l f j u = ground arith

  pub maybe_mark-Safe : (n : ℕ) (c : Call api) → Safe n c → Safe n (maybe_mark_call_established c)
  unfolding maybe_mark_call_established
  maybe_mark-Safe n c v = ground arith
