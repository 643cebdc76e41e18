-- ===== src/Call/Queue.antt =====
-- `QueueJoinMessages`: the messages that waited in the room, parsed and sorted.
pub mod Order
use vcpkg_webrtc_sample.Prelude.{
  ℕ, String, if◌then◌else◌, leb, List, [], ◌∷◌, some, Crashes, Result, ok, err, ◌>>=◌,
}
use vcpkg_webrtc_sample.Common.Message.{SignalingMessage}
use vcpkg_webrtc_sample.Call.Types.{queued_message_priority}

abbrev pub priority : SignalingMessage → ℕ
priority m = queued_message_priority m.kind

-- `std::stable_sort` by a key: a message goes behind those before it with an equal key.
unfoldable pub insert_stable : SignalingMessage → List SignalingMessage → List SignalingMessage
insert_stable m [] = m ∷ []
insert_stable m (x ∷ xs) =
    if leb (priority m) (priority x) then m ∷ x ∷ xs else x ∷ insert_stable m xs

unfoldable pub stable_sort : List SignalingMessage → List SignalingMessage
unfolding insert_stable
stable_sort [] = []
stable_sort (m ∷ ms) = insert_stable m (stable_sort ms)

module _ (parse : String → Crashes (Result SignalingMessage)) where
  abbrev pub keep_parsed : Result SignalingMessage → List SignalingMessage → List SignalingMessage
  keep_parsed (ok m) ms = m ∷ ms
  keep_parsed (err e) ms = ms

  -- The loop over the texts: one that is no signaling message is passed over.
  unfoldable pub parse_messages : List String → Crashes (List SignalingMessage)
  parse_messages [] = some []
  parse_messages (text ∷ texts) =
      parse text >>= λ r. parse_messages texts >>= λ ms. some (keep_parsed r ms)
