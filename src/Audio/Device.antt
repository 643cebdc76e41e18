-- ===== src/Audio/Device.antt =====
-- Starting and stopping the capture thread of `SineWaveAudioDeviceModule`.
use vcpkg_webrtc_sample.Prelude.{
  ◌≡◌, refl, Bool, true, false, if◌then◌else◌, List, [], ◌∷◌, none, some, Crashes, ◌>>=◌, Returns,
  >>=-Returns, Returns-some, arith,
}

pub record Device : Type 0 where
  pub initialized : Bool
  pub recording_initialized : Bool
  pub playout_initialized : Bool
  pub playing : Bool
  pub stereo_recording : Bool
  pub recording : Bool
  -- `capture_thread_.joinable()`.
  pub capture_thread : Bool
  -- Whether `audio_callback_` is set.
  pub audio_callback : Bool

abbrev pub new_device : Device
new_device = record {
  initialized = false;
  recording_initialized = false;
  playout_initialized = false;
  playing = false;
  stereo_recording = false;
  recording = false;
  capture_thread = false;
  audio_callback = false;
}

-- Assigning to a thread that is joinable ends the process.
unfoldable pub launch : Device → Crashes Device
launch d = if d.capture_thread then none else some (record d { capture_thread = true })

unfoldable pub start_recording : Device → Crashes Device
unfolding launch
start_recording d = if d.recording then some d else launch (record d { recording = true })

-- The thread is joined if it is joinable.
unfoldable pub stop_recording : Device → Device
stop_recording d = record d { recording = false; capture_thread = false }

unfoldable pub terminate : Device → Device
unfolding stop_recording
terminate d = record (stop_recording d) { initialized = false }

-- The calls that change the state.
pub data DeviceCall : Type 0 where
  init terminates init_recording starts_recording stops_recording : DeviceCall
  init_playout starts_playout stops_playout : DeviceCall
  set_stereo_recording register_audio_callback : Bool → DeviceCall

unfoldable pub device_call : DeviceCall → Device → Crashes Device
unfolding start_recording stop_recording terminate
device_call init d = some (record d { initialized = true })
device_call terminates d = some (terminate d)
device_call init_recording d = some (record d { recording_initialized = true })
device_call starts_recording d = start_recording d
device_call stops_recording d = some (stop_recording d)
device_call init_playout d = some (record d { playout_initialized = true })
device_call starts_playout d = some (record d { playing = true })
device_call stops_playout d = some (record d { playing = false })
device_call (set_stereo_recording b) d = some (record d { stereo_recording = b })
device_call (register_audio_callback b) d = some (record d { audio_callback = b })

-- The methods that fill in an answer check that there is a place for it.
unfoldable pub answer : Bool → Bool → Crashes Bool
answer has_place value = if has_place then some value else none

unfoldable pub is_available : Bool → Crashes Bool
unfolding answer
is_available has_place = answer has_place true

unfoldable pub stereo_recording : Bool → Device → Crashes Bool
unfolding answer
stereo_recording has_place d = answer has_place d.stereo_recording

unfoldable pub device_calls : List DeviceCall → Device → Crashes Device
device_calls [] d = some d
device_calls (x ∷ xs) d = device_call x d >>= device_calls xs

-- The thread is there exactly while the flag that its loop tests is set.
abbrev Matched : Device → Type 0
Matched d = d.capture_thread ≡ d.recording

device_call-Matched : (x : DeviceCall) (d : Device) → Matched d → Returns Matched (device_call x d)
unfolding device_call
device_call-Matched x d h = ground arith

device_calls-Matched :
    (xs : List DeviceCall) (d : Device) → Matched d → Returns Matched (device_calls xs d)
unfolding device_calls
device_calls-Matched [] d h = h
device_calls-Matched (x ∷ xs) d h =
    >>=-Returns Matched Matched (device_call x d) _ (device_call-Matched x d h)
      (device_calls-Matched xs)

-- No sequence of calls on a new device assigns to a thread that still has to be joined, and after
-- it the thread is there exactly if the device is recording.
pub device_calls_total :
    (xs : List DeviceCall)
    → (d : Device) × (device_calls xs new_device ≡ some d) × (d.capture_thread ≡ d.recording)
device_calls_total xs =
    Returns-some Matched (device_calls xs new_device) (device_calls-Matched xs new_device refl)
