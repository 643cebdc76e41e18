-- ===== src/Audio/Buffer.antt =====
-- The buffer of `CaptureLoop`: one sample for all channels of a frame.
pub mod Interleaved
use vcpkg_webrtc_sample.Prelude.{ℕ, zero, suc, ◌+◌, ◌*◌, List, [], ◌∷◌, none, some, Crashes, ◌>>=◌}

module _ {ℓ} {Sample : Type ℓ} where
  -- `buffer[index] = sample`. Out of range, that is undefined.
  unfoldable pub write_at : ℕ → Sample → List Sample → Crashes (List Sample)
  write_at index sample [] = none
  write_at zero sample (x ∷ xs) = some (sample ∷ xs)
  write_at (suc index) sample (x ∷ xs) = write_at index sample xs >>= λ ys. some (x ∷ ys)

  -- The inner loop, from a channel on, for as many as are left.
  unfoldable pub fill_channels : ℕ → ℕ → ℕ → Sample → List Sample → Crashes (List Sample)
  fill_channels base channel zero sample buffer = some buffer
  fill_channels base channel (suc left) sample buffer =
      write_at (base + channel) sample buffer >>= fill_channels base (channel + 1) left sample

  module _ (num_channels : ℕ) (sample : ℕ → Sample) where
    -- The outer loop, from a frame on. `sample i` is the value of the sine for frame `i`.
    unfoldable pub fill_frames : ℕ → ℕ → List Sample → Crashes (List Sample)
    fill_frames i zero buffer = some buffer
    fill_frames i (suc left) buffer =
        fill_channels (i * num_channels) 0 num_channels (sample i) buffer
        >>= fill_frames (i + 1) left
