-- ===== src/Audio/Capture.antt =====
-- `CaptureLoop`: a block of ten milliseconds after the other, until the recording is stopped.
--
-- The phase of the sine and its samples are floating point numbers of which only the operations of
-- the loop are used. Another thread may clear `recording_` and set `audio_callback_` at any time:
-- what the loop meets is given for each test of `recording_`, by the number of the tests before it.
-- The loop runs on fuel, `none` is the end of it, or a write out of range.
pub mod Tone
use vcpkg_webrtc_sample.Prelude.{
  ℕ, zero, suc, ◌+◌, ◌*◌, Bool, if◌then◌else◌, leb, Option, none, some, List, [], ◌∷◌, ◌++◌, ◌>>=◌,
}
use vcpkg_webrtc_sample.Audio.Buffer.{fill_frames}

pub record Wave : Type 1 where
  pub Phase : Type 0
  pub Sample : Type 0
  -- `phase` at the start, its increment with the step back by two pi, and the sample of a phase.
  pub outset : Phase
  pub advance_phase : Phase → Phase
  pub sample_of : Phase → Sample
  -- What a new vector is filled with.
  pub silence : Sample

pub record Schedule : Type 0 where
  pub recording : ℕ → Bool
  pub has_callback : ℕ → Bool
  -- The nanoseconds that a round takes, its sleep aside: filling the buffer, the callback, and what
  -- the sleep before it was longer than asked for.
  pub took : ℕ → ℕ

abbrev pub ten_milliseconds : ℕ
ten_milliseconds = 10000000

-- `sleep_until`: a deadline that has passed does not stop the thread.
abbrev pub slept_until : ℕ → ℕ → ℕ
slept_until deadline now = if leb deadline now then now else deadline

-- The phase after some frames.
abbrev pub phase_after : (w : Wave) → ℕ → w.Phase → w.Phase
phase_after w zero p = p
phase_after w (suc n) p = phase_after w n (w.advance_phase p)

pub record Capture (w : Wave) : Type 0 where
  -- The tests of `recording_` so far.
  pub tests : ℕ
  pub phase : w.Phase
  pub buffer : List w.Sample
  -- The buffers that `RecordedDataIsAvailable` was given, in order.
  pub delivered : List (List w.Sample)
  -- The deadline, and the time, in nanoseconds since the start of the loop.
  pub next_tick : ℕ
  pub now : ℕ

abbrev pub silent : (w : Wave) → ℕ → List w.Sample
silent w zero = []
silent w (suc n) = w.silence ∷ silent w n

module _ (w : Wave) (s : Schedule) (samples_per_channel num_channels : ℕ) where
  abbrev pub new_capture : Capture w
  new_capture = record {
    tests = 0;
    phase = w.outset;
    buffer = silent w (samples_per_channel * num_channels);
    delivered = [];
    next_tick = 0;
    now = 0;
  }

  -- What follows the loops that fill the buffer.
  abbrev pub block_done : Bool → ℕ → Capture w → List w.Sample → Capture w
  block_done has_callback took c buffer = record c {
    phase = phase_after w samples_per_channel c.phase;
    buffer = buffer;
    delivered = c.delivered ++ (if has_callback then buffer ∷ [] else []);
    next_tick = c.next_tick + ten_milliseconds;
    now = slept_until (c.next_tick + ten_milliseconds) (c.now + took);
  }

  abbrev pub fill_block : Capture w → Option (List w.Sample)
  fill_block c =
      fill_frames num_channels (λ i. w.sample_of (phase_after w i c.phase)) 0 samples_per_channel
        c.buffer

  unfoldable pub capture_loop : ℕ → Capture w → Option (Capture w)
  capture_loop zero c = none
  capture_loop (suc fuel) c =
      let c' = record c { tests = c.tests + 1 } in
      let rest = capture_loop fuel in
      if s.recording c.tests
      then (fill_block c' >>= λ buffer.
          rest (block_done (s.has_callback c.tests) (s.took c.tests) c' buffer))
      else some c'
