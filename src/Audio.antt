-- ===== src/Audio.antt =====
-- src/sine_wave_capturer.cc: the audio device that records a tone.
pub mod Buffer
pub mod Device
pub mod Capture
