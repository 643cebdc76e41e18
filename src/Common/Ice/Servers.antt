-- ===== src/Common/Ice/Servers.antt =====
-- What `ParseIceServers` gives.
use vcpkg_webrtc_sample.Prelude.{
  ◌≡◌, ◌≢◌, refl, String, if_cases, some, List, [], ◌∷◌, Result, ok, err, Keeps, >>=-Keeps,
  >>=-Keeps_both, Keeps-some,
}
use vcpkg_webrtc_sample.Common.Json.{Json, Parsed, parsed, malformed}
use vcpkg_webrtc_sample.Common.Ice.{
  IceServer, keep_if, read_server, read_servers, server_list, ice_servers_of, parse_ice_servers,
}

-- Every server has a url.
abbrev pub HaveUrls : List IceServer → Type 0
HaveUrls [] = Unit
HaveUrls (s ∷ ss) = (s.urls ≢ []) × HaveUrls ss

keep_if-HaveUrls :
    (urls : List String) (s : IceServer) (ss : List IceServer)
    → s.urls ≡ urls
    → HaveUrls ss
    → HaveUrls (keep_if urls s ss)
keep_if-HaveUrls [] s ss e h = h
keep_if-HaveUrls (u ∷ us) s ss e h = (λ k. cc, h)

module _ (json : Json) where
  read_servers-HaveUrls : (vs : List json.Value) → Keeps HaveUrls (read_servers json vs)
  unfolding read_servers
  read_servers-HaveUrls [] = tt
  read_servers-HaveUrls (v ∷ vs) = >>=-Keeps HaveUrls (read_server json v) _ λ s.
      >>=-Keeps_both HaveUrls HaveUrls (read_servers json vs) _ (read_servers-HaveUrls vs)
        (λ ss h. keep_if-HaveUrls s.urls s ss refl h)

  abbrev Usable : Result (List IceServer) → Type 0
  Usable (ok ss) = HaveUrls ss
  Usable (err e) = Unit

  server_list-Usable : (ice : json.Value) → Keeps Usable (server_list json ice)
  unfolding server_list
  server_list-Usable ice =
      if_cases (Keeps Usable) (json.is_array ice)
        (λ _.
          >>=-Keeps_both HaveUrls Usable (read_servers json (json.elements ice)) _
            (read_servers-HaveUrls (json.elements ice)) (λ ss h. h))
        (λ _. tt)

  ice_servers_of-Usable : (r : Parsed json.Value) → Keeps Usable (ice_servers_of json r)
  unfolding ice_servers_of
  ice_servers_of-Usable (malformed errors) = tt
  ice_servers_of-Usable (parsed root) =
      >>=-Keeps Usable (json.member root "iceServers") _ server_list-Usable

  -- If a text is read without an error, every server in the list has at least one url.
  pub parse_ice_servers-HaveUrls :
      (text : String) (servers : List IceServer)
      → parse_ice_servers json text ≡ some (ok servers)
      → HaveUrls servers
  unfolding parse_ice_servers
  parse_ice_servers-HaveUrls text servers h =
      Keeps-some Usable (parse_ice_servers json text) (ice_servers_of-Usable (json.parse text)) h
