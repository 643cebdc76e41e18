-- ===== src/Video.antt =====
-- src/file_video_source.cc: the decoder that is set up for a file, and the sinks of its frames.
pub mod Decoder
pub mod Sinks
pub mod Decoding
