-- ===== src/Signaling/Callbacks.antt =====
-- The constructor and the destructor of `AppRtcSignalingClient`, `SetEventCallbacks`, and what is
-- posted for an event: nothing, where its `std::function` is empty.
use vcpkg_webrtc_sample.Prelude.{
  Bool, true, false, ◌&&◌, if◌then◌else◌, none, some, List, [], ◌∷◌, ◌++◌, Error, Crashes,
}
use vcpkg_webrtc_sample.Common.Message.{SignalingMessage}
use vcpkg_webrtc_sample.Signaling.Socket.{
  Posted, socket_opened, message_received, error_raised, answered, Socket, new_socket,
}

-- Whether the function objects have a target.
pub record EventCallbacks : Type 0 where
  pub on_websocket_open : Bool
  pub on_signaling_message : Bool
  pub on_error : Bool

abbrev pub no_callbacks : EventCallbacks
no_callbacks = record { on_websocket_open = false; on_signaling_message = false; on_error = false }

-- The arguments replace what was there.
abbrev pub set_event_callbacks : Bool → Bool → Bool → EventCallbacks → EventCallbacks
set_event_callbacks on_websocket_open on_signaling_message on_error callbacks = record callbacks {
  on_websocket_open = on_websocket_open;
  on_signaling_message = on_signaling_message;
  on_error = on_error;
}

-- The checks on the thread for the callbacks and on the network thread.
abbrev pub new_client : Bool → Bool → Crashes (Socket × EventCallbacks)
new_client has_callback_thread network_thread_starts =
    if has_callback_thread && network_thread_starts then some (new_socket, no_callbacks) else none

abbrev pub destroy_client : Socket → Socket
destroy_client s = record s { closing = true }

abbrev pub notify_error : EventCallbacks → Error → List Posted
notify_error callbacks e = if callbacks.on_error then error_raised e ∷ [] else []

abbrev pub notify_open : EventCallbacks → List Posted
notify_open callbacks = if callbacks.on_websocket_open then socket_opened ∷ [] else []

abbrev pub notify_message : EventCallbacks → SignalingMessage → List Posted
notify_message callbacks m = if callbacks.on_signaling_message then message_received m ∷ [] else []

-- What is posted of the events of the web socket.
abbrev pub with_callbacks : EventCallbacks → List Posted → List Posted
with_callbacks callbacks [] = []
with_callbacks callbacks (socket_opened ∷ ps) = notify_open callbacks ++ with_callbacks callbacks ps
with_callbacks callbacks (message_received m ∷ ps) =
    notify_message callbacks m ++ with_callbacks callbacks ps
with_callbacks callbacks (error_raised e ∷ ps) =
    notify_error callbacks e ++ with_callbacks callbacks ps
with_callbacks callbacks (answered status ∷ ps) = answered status ∷ with_callbacks callbacks ps
