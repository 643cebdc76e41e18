-- ===== src/Video/Decoding.antt =====
-- `DecodeLoop` of `FileVideoSource`: packets are read, decoded and handed to the sinks until the
-- source is stopped.
--
-- Another thread may set `stop_` and change the sinks at any time, and FFmpeg may answer anything:
-- what the loop meets is given for each test of `stop_`, by the number of the tests before it. Each
-- test is followed by one read or one receive. The loops run on fuel, `none` is the end of it.
pub mod Ends
use vcpkg_webrtc_sample.Prelude.{
  ℕ, zero, suc, ◌+◌, Bool, true, false, not, ◌&&◌, if◌then◌else◌, Option, none, some, List, [],
  ◌++◌, map, flag, ◌>>=◌,
}
use vcpkg_webrtc_sample.Prelude.Int.{ℤ, leb_ℤ}
use vcpkg_webrtc_sample.Video.Decoder.{Source}
use vcpkg_webrtc_sample.Video.Sinks.{SinkEntry, broadcast_frame}

-- What `avcodec_receive_frame` gives: `EAGAIN`, `AVERROR_EOF`, another error, or a picture.
pub data Received : Type 0 where
  again end_of_file failed_receive : Received
  picture : ℕ → Received

pub record World {ℓ} (Wants : Type ℓ) : Type ℓ where
  pub stop : ℕ → Bool
  -- The stream of the packet that `av_read_frame` gives, `none` if it fails.
  pub read : ℕ → Option ℤ
  -- Whether `avcodec_send_packet` takes the packet.
  pub takes : ℕ → Bool
  pub receive : ℕ → Received
  pub sinks : ℕ → List (SinkEntry Wants)

pub record Decoding : Type 0 where
  -- The tests of `stop_` so far.
  pub tests : ℕ
  -- Whether `packet_` holds data, and how often data that it held was overwritten by a read.
  pub holds_packet : Bool
  pub lost_packets : ℕ
  -- How often the file was set back to its beginning.
  pub rewinds : ℕ
  -- The sinks that were given a picture, with the picture, in order.
  pub delivered : List (ℕ × ℕ)
  pub slept_us : ℕ

abbrev pub new_decoding : Decoding
new_decoding = record {
  tests = 0;
  holds_packet = false;
  lost_packets = 0;
  rewinds = 0;
  delivered = [];
  slept_us = 0;
}

abbrev pub are_same : ℤ → ℤ → Bool
are_same a b = leb_ℤ a b && leb_ℤ b a

abbrev pub tested : Decoding → Decoding
tested d = record d { tests = d.tests + 1 }

-- `av_seek_frame` and `avcodec_flush_buffers`.
abbrev pub rewind : Decoding → Decoding
rewind d = record d { rewinds = d.rewinds + 1 }

-- A read that succeeds fills `packet_`, whatever it held.
abbrev pub fill_packet : Decoding → Decoding
fill_packet d = record d {
  lost_packets = d.lost_packets + flag d.holds_packet;
  holds_packet = true;
}

abbrev pub unref_packet : Decoding → Decoding
unref_packet d = record d { holds_packet = false }

module _ {ℓ} {Wants : Type ℓ} (w : World Wants) (source : Source) where
  -- The sinks are those at the time; then the loop sleeps for an interval.
  abbrev pub deliver : List (SinkEntry Wants) → ℕ → Decoding → Decoding
  deliver entries frame d = record d {
    delivered = d.delivered ++ map (λ sink. (sink, frame)) (broadcast_frame entries);
    slept_us = d.slept_us + source.frame_interval_us;
  }

  -- The body of the inner loop: `break`, or on with the next frame.
  unfoldable pub frame_received :
      (Decoding → Option Decoding) → Received → List (SinkEntry Wants) → Decoding → Option Decoding
  frame_received continue again entries d = some d
  frame_received continue end_of_file entries d = some d
  frame_received continue failed_receive entries d = some d
  frame_received continue (picture frame) entries d = continue (deliver entries frame d)

  -- The inner loop.
  unfoldable pub receive_loop : ℕ → Decoding → Option Decoding
  unfolding frame_received
  receive_loop zero d = none
  receive_loop (suc fuel) d =
      let rest = receive_loop fuel in
      if w.stop d.tests
      then some (tested d)
      else frame_received rest (w.receive d.tests) (w.sinks d.tests) (tested d)

  -- The body of the outer loop: `rest` is the next round, `frames` the inner loop.
  unfoldable pub packet_read :
      (Decoding → Option Decoding)
      → (Decoding → Option Decoding)
      → Option ℤ
      → Bool
      → Decoding
      → Option Decoding
  packet_read rest frames none takes d = rest (rewind d)
  packet_read rest frames (some stream_index) takes d =
      let d' = fill_packet d in
      if not (are_same stream_index source.video_stream_index)
      then rest (unref_packet d')
      else if not takes
      then rest (unref_packet d')
      else frames (unref_packet d') >>= rest

  unfoldable pub decode_loop : ℕ → Decoding → Option Decoding
  unfolding receive_loop packet_read
  decode_loop zero d = none
  decode_loop (suc fuel) d =
      let rest = decode_loop fuel in
      if w.stop d.tests
      then some (tested d)
      else packet_read rest (receive_loop fuel) (w.read d.tests) (w.takes d.tests) (tested d)

-- `GetStats`, with whether it is given a place for them: the width and the height.
unfoldable pub get_stats : Bool → Source → Option (ℤ × ℤ)
get_stats false source = none
get_stats true source = some (source.width, source.height)
