-- ===== src/Tests/Audios.antt =====
-- Runs of the audio device and its buffer loops.
use vcpkg_webrtc_sample.Prelude.{ℕ, ◌*◌, ◌≤◌, ◌==◌, ltb, false, ◌≡◌, refl, ◌+◌, some, List, [], ◌∷◌}
use vcpkg_webrtc_sample.Audio.Capture.{
  ten_milliseconds, Wave, Schedule, Capture, new_capture, capture_loop,
}
use vcpkg_webrtc_sample.Audio.Capture.Tone.{heard_blocks, capture_loop_tone}
use vcpkg_webrtc_sample.Audio.Device.{
  Device, new_device, DeviceCall, init_recording, starts_recording, stops_recording, device_calls,
  device_calls_total,
}
use vcpkg_webrtc_sample.Audio.Buffer.{fill_frames}
use vcpkg_webrtc_sample.Audio.Buffer.Interleaved.{interleaved, fill_frames_buffer}

abbrev recording_calls : List DeviceCall
recording_calls =
    init_recording ∷ starts_recording ∷ starts_recording ∷ stops_recording ∷ starts_recording ∷ []

device_calls_total_example :
    (d : Device) × (device_calls recording_calls new_device ≡ some d)
    × (d.capture_thread ≡ d.recording)
device_calls_total_example = device_calls_total recording_calls

-- Two channels, three frames.
abbrev stereo_buffer : List ℕ
stereo_buffer = 0 ∷ 0 ∷ 0 ∷ 0 ∷ 0 ∷ 0 ∷ []

fill_frames_buffer_example :
    fill_frames 2 (λ i. i + 10) 0 3 stereo_buffer ≡ some (interleaved 2 (λ i. i + 10) 0 3)
fill_frames_buffer_example = fill_frames_buffer 2 (λ i. i + 10) 3 stereo_buffer refl

-- A wave of numbers, recorded for two blocks, the first of them without a callback, both late.
abbrev counting_wave : Wave
counting_wave = record {
  Phase = ℕ;
  Sample = ℕ;
  outset = 5;
  advance_phase = λ p. p + 1;
  sample_of = λ p. p;
  silence = 0;
}

abbrev two_blocks : Schedule
two_blocks = record { recording = λ t. ltb t 2; has_callback = λ t. t == 1; took = λ t. 15000000 }

capture_loop_tone_example :
    (d : Capture counting_wave) × (k : ℕ) × (capture_loop counting_wave two_blocks 3 2 4
        (new_capture counting_wave two_blocks 3 2)
      ≡ some d)
    × (k ≤ 3)
    × (two_blocks.recording k ≡ false)
    × (d.delivered ≡ heard_blocks counting_wave two_blocks 3 2 0 k)
    × (d.next_tick ≡ ten_milliseconds * k)
    × (d.next_tick ≤ d.now)
capture_loop_tone_example = capture_loop_tone counting_wave two_blocks 3 2 3 refl
