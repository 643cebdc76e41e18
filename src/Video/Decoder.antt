-- ===== src/Video/Decoder.antt =====
-- `InitializeDecoder`, `CleanupDecoder`, `Start` and the destructor of `FileVideoSource`.
pub mod Resources
pub mod Ready
use vcpkg_webrtc_sample.Prelude.{
  ℕ, Bool, true, false, if◌then◌else◌, ◌&&◌, ◌||◌, Option, none, some, List, [], ◌∷◌, ok, err,
  Status, ok_status, fail, not_found, internal, unimplemented, invalid_argument,
}
use vcpkg_webrtc_sample.Common.Config.{is_not_positive}
use vcpkg_webrtc_sample.Prelude.Int.{ℤ, pos, negsuc, leb_ℤ}

-- What FFmpeg answers for the file. `frame_interval_us` is what the conversion of the frame rate
-- gives, in floating point: `none` for a rate that is not positive or not above one per second.
pub record Ffmpeg : Type 0 where
  pub input_opens : Bool
  pub has_stream_info : Bool
  pub best_stream : ℤ
  pub has_decoder : Bool
  pub allocates_context : Bool
  pub takes_parameters : Bool
  pub codec_opens : Bool
  pub allocates_frame : Bool
  pub allocates_packet : Bool
  pub width : ℤ
  pub height : ℤ
  pub allocates_scaler : Bool
  pub frame_interval_us : Option ℕ

pub data SourceState : Type 0 where
  initializing live ended : SourceState

pub data Resource : Type 0 where
  format_memory codec_memory frame_memory packet_memory scaler_memory : Resource

-- A pointer is the flag that it is not null. `allocated` and `freed` are what FFmpeg was made to
-- allocate and to free, the newest first.
pub record Source : Type 0 where
  pub state : SourceState
  pub format_context : Bool
  pub codec_context : Bool
  pub decoded_frame : Bool
  pub packet : Bool
  pub sws_context : Bool
  pub video_stream_index : ℤ
  pub width : ℤ
  pub height : ℤ
  pub frame_interval_us : ℕ
  pub stop : Bool
  pub decoder_thread : Bool
  pub allocated : List Resource
  pub freed : List Resource

abbrev pub new_source : Source
new_source = record {
  state = initializing;
  format_context = false;
  codec_context = false;
  decoded_frame = false;
  packet = false;
  sws_context = false;
  video_stream_index = negsuc 0;
  width = pos 0;
  height = pos 0;
  frame_interval_us = 33333;
  stop = false;
  decoder_thread = false;
  allocated = [];
  freed = [];
}

-- `InitializeDecoder`, from its end to its beginning.
unfoldable pub set_interval : Option ℕ → Source → Status × Source
set_interval none s = (ok_status, s)
set_interval (some n) s = (ok_status, record s { frame_interval_us = n })

-- The dimensions and the scaler.
unfoldable pub prepare_scaler : Ffmpeg → Source → Status × Source
unfolding set_interval
prepare_scaler f s =
    let s' = record s { width = f.width; height = f.height } in
    if is_not_positive f.width || is_not_positive f.height
    then (fail invalid_argument "decoded dimensions are invalid", s')
    else if f.allocates_scaler
    then set_interval f.frame_interval_us
        (record s' { sws_context = true; allocated = scaler_memory ∷ s'.allocated })
    else (fail internal "sws_getContext failed", s')

abbrev pub allocate_frame : Bool → Source → Source
allocate_frame false s = s
allocate_frame true s = record s { decoded_frame = true; allocated = frame_memory ∷ s.allocated }

abbrev pub allocate_packet : Bool → Source → Source
allocate_packet false s = s
allocate_packet true s = record s { packet = true; allocated = packet_memory ∷ s.allocated }

-- Both are allocated before either is tested.
unfoldable pub prepare_frames : Ffmpeg → Source → Status × Source
unfolding prepare_scaler
prepare_frames f s =
    let s' = allocate_packet f.allocates_packet (allocate_frame f.allocates_frame s) in
    if f.allocates_frame && f.allocates_packet
    then prepare_scaler f s'
    else (fail internal "failed to allocate FFmpeg frame state", s')

unfoldable pub prepare_codec : Ffmpeg → Source → Status × Source
unfolding prepare_frames
prepare_codec f s =
    let s' = record s { codec_context = true; allocated = codec_memory ∷ s.allocated } in
    if f.allocates_context
    then if f.takes_parameters
      then if f.codec_opens then prepare_frames f s' else (fail internal "avcodec_open2 failed", s')
      else (fail internal "avcodec_parameters_to_context failed", s')
    else (fail internal "avcodec_alloc_context3 failed", s)

unfoldable pub prepare_stream : Ffmpeg → Source → Status × Source
unfolding prepare_codec
prepare_stream f s =
    let s' = record s { video_stream_index = f.best_stream } in
    if leb_ℤ (pos 0) f.best_stream
    then if f.has_decoder
      then prepare_codec f s'
      else (fail unimplemented "no decoder available for input video", s')
    else (fail not_found "no video stream found", s')

unfoldable pub initialize_decoder : Ffmpeg → Source → Status × Source
unfolding prepare_stream
initialize_decoder f s =
    let s' = record s { format_context = true; allocated = format_memory ∷ s.allocated } in
    if f.input_opens
    then if f.has_stream_info
      then prepare_stream f s'
      else (fail internal "avformat_find_stream_info failed", s')
    else (fail not_found "avformat_open_input failed", s)

-- Each is freed if it is there, and its pointer is null afterwards.
abbrev pub free_packet : Source → Source
free_packet s = if s.packet then record s { packet = false; freed = packet_memory ∷ s.freed } else s

abbrev pub free_frame : Source → Source
free_frame s =
    if s.decoded_frame
    then record s { decoded_frame = false; freed = frame_memory ∷ s.freed }
    else s

abbrev pub free_codec : Source → Source
free_codec s =
    if s.codec_context
    then record s { codec_context = false; freed = codec_memory ∷ s.freed }
    else s

abbrev pub free_format : Source → Source
free_format s =
    if s.format_context
    then record s { format_context = false; freed = format_memory ∷ s.freed }
    else s

abbrev pub free_scaler : Source → Source
free_scaler s =
    if s.sws_context then record s { sws_context = false; freed = scaler_memory ∷ s.freed } else s

unfoldable pub cleanup_decoder : Source → Source
cleanup_decoder s = free_scaler (free_format (free_codec (free_frame (free_packet s))))

unfoldable pub started : Status × Source → Status × Source
started (err e, s) = (err e, record s { state = ended })
started (ok _, s) = (ok_status, record s { state = live; decoder_thread = true })

unfoldable pub start : Ffmpeg → Source → Status × Source
unfolding started
start f s = started (initialize_decoder f s)

-- The destructor: the decoder thread is joined before anything is freed.
unfoldable pub destroy : Source → Source
unfolding cleanup_decoder
destroy s = record (cleanup_decoder (record s { stop = true; decoder_thread = false })) {
  state = ended;
}
