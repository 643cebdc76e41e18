-- ===== src/Video/Decoding/Ends.antt =====
-- The decoder thread ends once it is stopped.
use vcpkg_webrtc_sample.Prelude.{
  ℕ, zero, suc, ◌+◌, ◌≤◌, ◌<◌, ◌≡◌, refl, Bool, true, false, not, Option, none, some, List,
  if_cases, Returns, >>=-Returns, Returns-some, arith,
}
use vcpkg_webrtc_sample.Prelude.Int.{ℤ}
use vcpkg_webrtc_sample.Video.Decoder.{Source}
use vcpkg_webrtc_sample.Video.Sinks.{SinkEntry}
use vcpkg_webrtc_sample.Video.Decoding.{
  Received, again, end_of_file, failed_receive, picture, World, Decoding, new_decoding, are_same,
  tested, rewind, fill_packet, unref_packet, deliver, frame_received, receive_loop, packet_read,
  decode_loop,
}

-- Between two steps no packet is held, and none was lost.
record CleanOf (holds_packet : Bool) (lost_packets : ℕ) : Type 0 where
  holds_none : holds_packet ≡ false
  lost_none : lost_packets ≡ 0

abbrev IsClean : Decoding → Type 0
IsClean d = CleanOf d.holds_packet d.lost_packets

module _ {ℓ} {Wants : Type ℓ} (w : World Wants) (source : Source) (n : ℕ)
    (stays : (t : ℕ) → n ≤ t → w.stop t ≡ true) where
  unstopped : (t : ℕ) → w.stop t ≡ false → t < n
  unstopped t h = ground (arith, stays t)

  -- How the inner loop ends, and the outer one.
  abbrev Left : ℕ → Decoding → Type 0
  Left start d = IsClean d × (start ≤ d.tests) × (d.tests ≤ n + 1)

  abbrev Ended : Decoding → Type 0
  Ended d = IsClean d × (d.tests ≤ n + 2)

  frame_received-Left :
      (continue : Decoding → Option Decoding) (start : ℕ) (r : Received)
      (entries : List (SinkEntry Wants)) (d : Decoding)
      → IsClean d
      → start ≤ d.tests
      → d.tests ≤ n
      → ((frame : ℕ) → Returns (Left start) (continue (deliver w source entries frame d)))
      → Returns (Left start) (frame_received w source continue r entries d)
  unfolding frame_received
  frame_received-Left continue start again entries d c s t h = (c, s, omega arith)
  frame_received-Left continue start end_of_file entries d c s t h = (c, s, omega arith)
  frame_received-Left continue start failed_receive entries d c s t h = (c, s, omega arith)
  frame_received-Left continue start (picture frame) entries d c s t h = h frame

  receive_loop-Left :
      (fuel start : ℕ) (d : Decoding)
      → IsClean d
      → start ≤ d.tests
      → d.tests ≤ n
      → n < fuel + d.tests
      → Returns (Left start) (receive_loop w source fuel d)
  unfolding receive_loop
  receive_loop-Left zero start d c s t f = absurd (omega arith)
  receive_loop-Left (suc fuel) start d c s t f =
      if_cases (Returns (Left start)) (w.stop d.tests) (λ _. (c, omega arith, omega arith))
        (λ h.
          let later = unstopped d.tests h in
          frame_received-Left (receive_loop w source fuel) start (w.receive d.tests)
            (w.sinks d.tests) (tested d) c (omega arith) (omega arith)
            (λ frame.
              receive_loop-Left fuel start (deliver w source (w.sinks d.tests) frame (tested d)) c
                (omega arith) (omega arith) (omega arith)))

  packet_read-Ended :
      (rest frames : Decoding → Option Decoding) (packet : Option ℤ) (takes : Bool) (d : Decoding)
      → IsClean d
      → ((e : Decoding) → Left d.tests e → Returns Ended (rest e))
      → d.tests ≤ n
      → ((e : Decoding) → IsClean e → e.tests ≡ d.tests → Returns (Left d.tests) (frames e))
      → Returns Ended (packet_read w source rest frames packet takes d)
  unfolding packet_read
  packet_read-Ended rest frames none takes d c hr t hf = hr (rewind d) (c, omega arith, omega arith)
  packet_read-Ended rest frames (some stream_index) takes d c hr t hf =
      let d' = unref_packet (fill_packet d) in
      let c' : IsClean d' = ground arith in
      let passed = hr d' (c', omega arith, omega arith) in
      if_cases (Returns Ended) (not (are_same stream_index source.video_stream_index)) (λ _. passed)
        (λ _.
          if_cases (Returns Ended) (not takes) (λ _. passed)
            (λ _. >>=-Returns (Left d.tests) Ended (frames d') rest (hf d' c' refl) hr))

  decode_loop-Ended :
      (fuel : ℕ) (d : Decoding)
      → IsClean d
      → d.tests ≤ n + 1
      → n + 1 < fuel + d.tests
      → Returns Ended (decode_loop w source fuel d)
  unfolding decode_loop
  decode_loop-Ended zero d c t f = absurd (omega arith)
  decode_loop-Ended (suc fuel) d c t f =
      if_cases (Returns Ended) (w.stop d.tests) (λ _. (c, omega arith))
        (λ h.
          let later = unstopped d.tests h in
          packet_read-Ended (decode_loop w source fuel) (receive_loop w source fuel)
            (w.read d.tests) (w.takes d.tests) (tested d) c
            (λ e l. decode_loop-Ended fuel e l.0 l.2 (omega (arith, l.1))) (omega arith)
            (λ e c' q.
              receive_loop-Left fuel (d.tests + 1) e c' (omega arith) (omega arith) (omega arith)))

  -- The decoder thread ends, so the destructor, which joins it, does not wait forever: if `stop_` is
  -- set before test number n, and stays set, `DecodeLoop` is through after n + 2 tests at most,
  -- whatever FFmpeg answers and whatever sinks come and go. At the end `packet_` holds no data, and
  -- no packet was overwritten by the next read before it was released.
  pub decode_loop_ends :
      (d : Decoding) × (decode_loop w source (n + 2) new_decoding ≡ some d)
      × (d.tests ≤ n + 2)
      × (d.holds_packet ≡ false)
      × (d.lost_packets ≡ 0)
  decode_loop_ends =
      let (d, e, r) = Returns-some Ended (decode_loop w source (n + 2) new_decoding) (
        decode_loop-Ended (n + 2) new_decoding (record { holds_none = refl; lost_none = refl })
          (omega arith) (omega arith)) in
      (d, e, r.1, r.0.holds_none, r.0.lost_none)
