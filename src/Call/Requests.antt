-- ===== src/Call/Requests.antt =====
-- The callbacks that are outstanding, and the requests that they belong to.
pub mod Grown
pub mod Moved
use vcpkg_webrtc_sample.Prelude.{ℕ, ◌+◌, Bool, true, false, flag, List, [], ◌∷◌}
use vcpkg_webrtc_sample.Call.State.{
  SendCallback, after_description, after_candidate, after_bye, Request, join_room,
  connect_web_socket, register, send_to_room, send_web_socket_message, close_signaling,
}
use vcpkg_webrtc_sample.Call.Kept.{Core}

-- The kinds of callback.
pub data Kind : Type 0 where
  of_join of_register of_description of_candidate of_bye : Kind

abbrev pub sends_for : SendCallback → Kind → Bool
sends_for after_description of_description = true
sends_for after_candidate of_candidate = true
sends_for after_bye of_bye = true
sends_for callback k = false

abbrev pub joins_for : Kind → Bool
joins_for of_join = true
joins_for k = false

abbrev pub registers_for : Kind → Bool
registers_for of_register = true
registers_for k = false

-- Whether the callback of a request is of a kind.
abbrev pub is_of : Request → Kind → Bool
is_of (join_room url room) k = joins_for k
is_of (connect_web_socket jr) k = false
is_of (register jr) k = registers_for k
is_of (send_to_room url room client message callback) k = sends_for callback k
is_of (send_web_socket_message message callback) k = sends_for callback k
is_of (close_signaling jr) k = false

abbrev pub count : Kind → List Request → ℕ
count k [] = 0
count k (r ∷ rs) = flag (is_of r k) + count k rs

-- How many callbacks of a kind have not run.
abbrev pub callbacks : Kind → Core → ℕ
callbacks of_join c = c.join_callbacks
callbacks of_register c = c.register_callbacks
callbacks of_description c = c.description_callbacks
callbacks of_candidate c = c.candidate_callbacks
callbacks of_bye c = c.bye_callbacks
