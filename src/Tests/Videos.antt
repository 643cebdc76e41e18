-- ===== src/Tests/Videos.antt =====
-- Runs of the video source.
use vcpkg_webrtc_sample.Prelude.{
  ◌==◌, ◌≡◌, ◌≤◌, leb, arith, true, false, if◌then◌else◌, not, none, some, List, [], ◌∷◌, String,
}
use vcpkg_webrtc_sample.Prelude.Int.{pos}
use vcpkg_webrtc_sample.Video.Decoder.{Ffmpeg, packet_memory, new_source, start, destroy}
use vcpkg_webrtc_sample.Video.Decoder.Resources.{times, start-destroy}
use vcpkg_webrtc_sample.Video.Decoder.Ready.{Outcome, start-Outcome}
use vcpkg_webrtc_sample.Video.Decoding.{World, Decoding, new_decoding, again, picture, decode_loop}
use vcpkg_webrtc_sample.Video.Decoding.Ends.{decode_loop_ends}
use vcpkg_webrtc_sample.Video.Sinks.{SinkCall, adds, removes, apply_calls, broadcast_frame}
use vcpkg_webrtc_sample.Video.Sinks.Registry.{wants_of, table_after, apply_calls-table_after}
use vcpkg_webrtc_sample.Video.Sinks.Delivery.{
  times as sink_times, is_registered, broadcast_frame-is_registered,
}

-- A file that decodes, and one whose frames have no area.
abbrev good_file : Ffmpeg
good_file = record {
  input_opens = true;
  has_stream_info = true;
  best_stream = pos 1;
  has_decoder = true;
  allocates_context = true;
  takes_parameters = true;
  codec_opens = true;
  allocates_frame = true;
  allocates_packet = true;
  width = pos 640;
  height = pos 480;
  allocates_scaler = true;
  frame_interval_us = some 40000;
}

abbrev flat_file : Ffmpeg
flat_file = record good_file { height = pos 0 }

start-destroy_example :
    times packet_memory (destroy (start flat_file new_source).1).freed
    ≡ times packet_memory (destroy (start flat_file new_source).1).allocated
start-destroy_example = start-destroy flat_file packet_memory

start-Outcome_example : Outcome (start good_file new_source)
start-Outcome_example = start-Outcome good_file

abbrev sink_calls : List (SinkCall String)
sink_calls = adds 7 "a" ∷ adds 8 "b" ∷ adds 7 "c" ∷ removes 8 ∷ adds 0 "d" ∷ []

broadcast_frame-is_registered_example :
    sink_times 7 (broadcast_frame (apply_calls sink_calls []))
    ≡ (if 7 == 0 then 0 else if is_registered 7 false sink_calls then 1 else 0)
broadcast_frame-is_registered_example = broadcast_frame-is_registered sink_calls 7

apply_calls-table_after_example :
    wants_of 7 (apply_calls sink_calls []) ≡ table_after sink_calls (λ k. none) 7
apply_calls-table_after_example = apply_calls-table_after sink_calls 7

-- A packet with two pictures, one that the decoder does not take, and the end of the file; the
-- source is stopped before the eighth test.
abbrev test_world : World String
test_world = record {
  stop = λ t. leb 7 t;
  read = λ t. if leb 6 t then none else some (pos 1);
  takes = λ t. not (t == 5);
  receive = λ t. if leb t 3 then picture t else again;
  sinks = λ t. apply_calls sink_calls [];
}

decode_loop_ends_example :
    (d : Decoding) × (decode_loop test_world (start good_file new_source).1 9 new_decoding ≡ some d)
    × (d.tests ≤ 9)
    × (d.holds_packet ≡ false)
    × (d.lost_packets ≡ 0)
decode_loop_ends_example =
    decode_loop_ends test_world (start good_file new_source).1 7 (λ t h. ground arith)
