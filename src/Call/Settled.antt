-- ===== src/Call/Settled.antt =====
-- What waits: the messages in the queue, and the offer of the initiator.
pub mod Pump
pub mod Handlers
pub mod Steps
use vcpkg_webrtc_sample.Prelude.{
  ℕ, ◌+◌, ◌≤◌, ◌≡◌, Bool, true, false, Option, none, some, List, [], Status, flag, has_value, arith,
}
use vcpkg_webrtc_sample.Common.Join.{JoinResponse}
use vcpkg_webrtc_sample.Common.Message.{SignalingMessage}
use vcpkg_webrtc_sample.Peer.Api.{PeerApi}
use vcpkg_webrtc_sample.Call.Types.{TerminalReason}
use vcpkg_webrtc_sample.Call.State.{Call}
use vcpkg_webrtc_sample.Call.Finish.{finish, maybe_mark_call_established}

abbrev pub initiates : Option JoinResponse → Bool
initiates none = false
initiates (some jr) = jr.is_initiator

-- The call has joined once at most, before it registers, and registers before it negotiates.
pub record BootOf (ready : Bool) (join : Option JoinResponse) (joins registers : ℕ) : Type 0 where
  pub one_join : joins + flag (has_value join) ≤ 1
  pub ready_joined : ready ≡ true → has_value join ≡ true
  pub unjoined : has_value join ≡ false → registers ≡ 0

-- Where no action is under way, nothing is left to do.
pub record RestOf (finished ready in_flight offer_started : Bool) (pending : List SignalingMessage)
    (join : Option JoinResponse) : Type 0 where
  pub no_message : finished ≡ false → ready ≡ true → in_flight ≡ false → pending ≡ []
  pub offered :
      finished ≡ false
      → ready ≡ true
      → in_flight ≡ false
      → initiates join ≡ true
      → offer_started ≡ true

module _ {api : PeerApi} where
  abbrev pub Boot : Call api → Type 0
  Boot c = BootOf c.negotiation_ready c.join_response c.join_callbacks c.register_callbacks

  abbrev pub Rest : Call api → Type 0
  Rest c =
      RestOf c.finished c.negotiation_ready c.signaling_action_in_flight c.offer_started
        c.pending_signaling_messages c.join_response

  abbrev pub Settled : Call api → Type 0
  Settled c = Boot c × Rest c

  -- A call that is ending has nothing to do.
  pub finish-Settled :
      (r : TerminalReason) (s : Status) (c : Call api) → Boot c → Settled (finish r s c)
  unfolding finish
  finish-Settled r s c v = ground arith

  pub mark-Settled : (c : Call api) → Settled c → Settled (maybe_mark_call_established c)
  unfolding maybe_mark_call_established
  mark-Settled c v = ground arith
