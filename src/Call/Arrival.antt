-- ===== src/Call/Arrival.antt =====
-- `QueueJoinMessages` as a whole.
use vcpkg_webrtc_sample.Prelude.{◌≡◌, ap, String, some, List, ◌++◌, Crashes, Result}
use vcpkg_webrtc_sample.Common.Message.{SignalingMessage}
use vcpkg_webrtc_sample.Common.Join.{JoinResponse}
use vcpkg_webrtc_sample.Peer.Api.{PeerApi}
use vcpkg_webrtc_sample.Call.State.{Call}
use vcpkg_webrtc_sample.Call.Queue.{parse_messages}
use vcpkg_webrtc_sample.Call.Queue.Order.{by_kind, stable_sort-by_kind}
use vcpkg_webrtc_sample.Call.Handlers.{queue_join_messages}

-- If reading the texts of a join response does not crash, queueing them does not either: the messages
-- that could be parsed are appended to those that wait already, first the offers and answers, then
-- the candidates, then the byes, then the messages of an unknown type, each group in the order of
-- the response, and nothing else of the call changes.
pub queue_join_messages-by_kind :
    {api : PeerApi} (parse : String → Crashes (Result SignalingMessage)) (jr : JoinResponse)
    (c : Call api) (ms : List SignalingMessage)
    → parse_messages parse jr.messages ≡ some ms
    → queue_join_messages parse jr c
      ≡ some (record c { pending_signaling_messages = c.pending_signaling_messages ++ by_kind ms })
unfolding queue_join_messages
queue_join_messages-by_kind {api} parse jr c ms p = rw p (
    ap {A = List SignalingMessage} {B = Crashes (Call api)}
      (λ l. some (record c { pending_signaling_messages = c.pending_signaling_messages ++ l }))
      (stable_sort-by_kind ms))
