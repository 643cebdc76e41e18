-- ===== src/Call.antt =====
-- src/apprtc_call.cc.
pub mod Types
pub mod State
pub mod Queue
pub mod Finish
pub mod Pump
pub mod Handlers
pub mod Run
pub mod Arrival
pub mod Heard
pub mod Kept
pub mod Requests
pub mod Ending
pub mod Goodbye
pub mod Timers
pub mod Safety
pub mod Settled
pub mod Program
pub mod App
