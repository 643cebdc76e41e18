-- ===== src/Lib.antt =====
-- A console client for AppRTC calls over the WebRTC library: it joins a room by HTTP, exchanges
-- signaling messages over HTTP and a web socket, negotiates a peer connection, and hangs up after a
-- set time. The exit code of the process says how the call ended.
--
-- Parts of the program and of this development:
--
--   src/apprtc_common.h, .cc           Common: Config (AppConfig, ValidateConfig), Message
--                                      (ParseSignalingMessage, SerializeSessionDescription,
--                                      SerializeIceCandidate), Ice (ParseIceServers), Join
--                                      (JoinResponse), Json (the calls of jsoncpp, an interface)
--   src/apprtc_peer_connection.h, .cc  Peer: State, Setup (Initialize, StartMedia, Close, LogStats),
--                                      Candidates (AddRemoteCandidate, FlushPendingRemoteCandidates),
--                                      Negotiation (offers, answers, the observers), Events (what the
--                                      WebRTC library calls back), Stats (StatsCollector), Calls
--                                      (sequences of calls and callbacks), Rtc (that library, an
--                                      interface)
--   src/apprtc_call.h, .cc             Call: Types, State (the members of CallController), Queue
--                                      (QueueJoinMessages), Pump (PumpSignalingMessages), Finish
--                                      (Finish, SendByeAndFinish, CompleteFinish, the timers),
--                                      Handlers (the callbacks), Run (the message loop), App
--                                      (RunAppRtcCall)
--   src/apprtc_signaling_client.h, .cc Signaling: Transfer (PostJson, PostEmpty, Delete), Http (urls,
--                                      ParseMessageResponse), Join (what
--                                      JoinRoomAsync makes of an answer), Socket (the web socket,
--                                      ConnectWebSocketAsync to CloseAsync), Callbacks
--                                      (SetEventCallbacks, NotifyError)
--   src/file_video_source.h, .cc       Video: Decoder (InitializeDecoder, CleanupDecoder, Start, the
--                                      destructor), Decoding (DecodeLoop, GetStats), Sinks
--                                      (AddOrUpdateSink, RemoveSink, BroadcastFrame)
--   src/sine_wave_capturer.h, .cc      Audio: Device (StartRecording, StopRecording and the other
--                                      setters), Capture (CaptureLoop), Buffer (its
--                                      inner loops)
--   src/main.cc                        Main: the flags and main
--
-- The controller uses the peer connection client through the interface Peer.Api.PeerApi, with the laws
-- PeerLaws; Peer.Client gives the operations, Peer.Contract the laws for them, and Call.Program puts
-- the two together. The answers of the signaling client are events of the controller; Call.Program
-- ties the answer to a join to what Signaling.Join makes of the text of the room server. System has the
-- threads: the tasks of the network thread are the requests of the controller in their order, and what
-- they post is run by the signaling thread in its order; the response to SendToRoomAsync is read there,
-- that to JoinRoomAsync on the network thread. For the order of the messages of the other side
-- (Call.Heard), any peer connection client is run with a list of the messages that it is given; so the
-- list is no part of the model of the program. A function of
-- the model has the name of the C++ function in snake case; what stands in a lambda of the source is a
-- function of its own.
--
-- State is passed explicitly. Code that may end the process (a failed RTC_CHECK, a null pointer, an
-- exception of jsoncpp, which nothing catches) gives Crashes, where none is the crash; absl::Status
-- and absl::StatusOr are Result. All of the controller runs on one thread, so a run is a list of
-- events (Call.Run), in any order: the state counts the callbacks that it has handed out, and an event
-- whose callback is not outstanding is passed over. Two threads never share this state. Loops are
-- structural recursion, over the queue in PumpSignalingMessages, so there is no fuel, except for
-- DecodeLoop (Video.Decoding) and CaptureLoop (Audio.Capture), which run until another thread stops
-- them: their fuel is the number of tests of the flag, and two or one more than before the flag is set
-- are enough.
--
-- Parameters: jsoncpp (Common.Json), the WebRTC library (Peer.Rtc), what libcurl and IXWebSocket answer
-- (arguments in Signaling), what FFmpeg answers (Video.Decoder.Ffmpeg, Video.Decoding.World), the result of
-- FileVideoSource::Start where only that matters, the phase and the samples of the tone (Audio.Capture.Wave), how long a round of CaptureLoop takes
-- (Audio.Capture.Schedule), and the process-wide
-- libraries (Call.App.Environment).
--
-- Not modelled: the pixels that DecodeLoop of src/file_video_source.cc converts, the values of the sine in
-- src/sine_wave_capturer.cc, the parsing of the command line, and trace output. They are arithmetic of
-- floating point numbers, code of libraries, or print.
pub mod Prelude
pub mod Common
pub mod Peer
pub mod Signaling
pub mod Video
pub mod Audio
pub mod Call
pub mod System
pub mod Main
mod Tests
