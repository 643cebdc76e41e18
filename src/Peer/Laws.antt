-- ===== src/Peer/Laws.antt =====
-- The two observations in which the laws of the interface are stated.
pub mod Connection
pub mod Observers
use vcpkg_webrtc_sample.Prelude.{ℕ, suc, ◌==◌, ◌&&◌, Bool, if◌then◌else◌, has_value, List, [], ◌∷◌}
use vcpkg_webrtc_sample.Peer.Rtc.{Rtc}
use vcpkg_webrtc_sample.Peer.State.{Peer, Observer}

-- How many of the observers are not cut off by a reset of the safety flag.
abbrev pub alive : ℕ → List (ℕ × Observer) → ℕ
alive safety [] = 0
alive safety ((captured, ob) ∷ obs) =
    let n = alive safety obs in if captured == safety then suc n else n

abbrev pub is_open : {rtc : Rtc} → Peer rtc → Bool
is_open p = p.factory && has_value p.connection

abbrev pub busy : {rtc : Rtc} → Peer rtc → ℕ
busy p = alive p.safety p.observers
