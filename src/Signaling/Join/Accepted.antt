-- ===== src/Signaling/Join/Accepted.antt =====
-- The join responses that the controller is given.
use vcpkg_webrtc_sample.Prelude.{
  ◌≡◌, refl, String, str_eq, eq_iff, List, some, Crashes, Result, ok, err, Keeps, >>=-Keeps,
  Keeps-some, ◌>>=◌, none, if_cases,
}
use vcpkg_webrtc_sample.Common.Ice.{IceServer, parse_ice_servers}
use vcpkg_webrtc_sample.Common.Json.{Json}
use vcpkg_webrtc_sample.Common.Join.{JoinResponse}
use vcpkg_webrtc_sample.Signaling.Http.{parse_json}
use vcpkg_webrtc_sample.Signaling.Join.{
  checked_result, with_ice_servers, read_join_response, join_answer, join_room_answer,
}

module _ (json : Json) where
  -- The room server reported success, and the servers are those of the configuration in it.
  abbrev pub Accepted : JoinResponse → Type 0
  Accepted jr =
      (jr.result ≡ "SUCCESS")
      × (parse_ice_servers json jr.pc_config_json ≡ some (ok jr.ice_servers))

  abbrev Passed : Result JoinResponse → Type 0
  Passed (ok jr) = Accepted jr
  Passed (err e) = Unit

  checked_result-Passed :
      (jr : JoinResponse)
      → parse_ice_servers json jr.pc_config_json ≡ some (ok jr.ice_servers)
      → Passed (checked_result jr)
  unfolding checked_result
  checked_result-Passed jr h =
      if_cases Passed (str_eq jr.result "SUCCESS") (λ t. ((eq_iff jr.result "SUCCESS").0 t, h))
        (λ _. tt)

  servers-Passed :
      (jr : JoinResponse) (m : Crashes (Result (List IceServer)))
      → parse_ice_servers json jr.pc_config_json ≡ m
      → Keeps Passed (m >>= λ r. some (with_ice_servers jr r))
  unfolding with_ice_servers
  servers-Passed jr none h = tt
  servers-Passed jr (some (err e)) h = tt
  servers-Passed jr (some (ok servers)) h =
      checked_result-Passed (record jr { ice_servers = servers }) h

  join_answer-Passed : (r : Result json.Value) → Keeps Passed (join_answer json r)
  unfolding join_answer
  join_answer-Passed (err e) = tt
  join_answer-Passed (ok root) =
      >>=-Keeps Passed (read_join_response json root) _
        λ jr. servers-Passed jr (parse_ice_servers json jr.pc_config_json) refl

  join_room_answer-Passed : (r : Result String) → Keeps Passed (join_room_answer json r)
  unfolding join_room_answer
  join_room_answer-Passed (err e) = tt
  join_room_answer-Passed (ok response) = join_answer-Passed (parse_json json response)

  -- A join response that the callback of `JoinRoomAsync` is given without an error reports
  -- `SUCCESS`, and its `ice_servers` are what `ParseIceServers` reads in its `pc_config_json`,
  -- which reads without an error and without an exception.
  pub join_room_answer-Accepted :
      (answer : Result String) (jr : JoinResponse)
      → join_room_answer json answer ≡ some (ok jr)
      → Accepted jr
  join_room_answer-Accepted answer jr h =
      Keeps-some Passed (join_room_answer json answer) (join_room_answer-Passed answer) h
