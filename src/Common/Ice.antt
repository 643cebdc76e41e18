-- ===== src/Common/Ice.antt =====
-- `ParseIceServers` of src/apprtc_common.cc.
pub mod Servers
use vcpkg_webrtc_sample.Prelude.{
  String, if◌then◌else◌, some, Crashes, Result, ok, fail, ◌>>=◌, invalid_argument, List, [], ◌∷◌,
}
use vcpkg_webrtc_sample.Common.Json.{Json, Parsed, parsed, malformed}
use vcpkg_webrtc_sample.Common.Message.{json_error}

-- The fields of `webrtc::PeerConnectionInterface::IceServer` that the code fills. The struct
-- `IceServerConfig` has the same fields, with `credential` for `password`.
pub record IceServer : Type 0 where
  pub urls : List String
  pub username : String
  pub password : String

-- A server with no url is dropped.
abbrev pub keep_if : List String → IceServer → List IceServer → List IceServer
keep_if [] server rest = rest
keep_if (url ∷ urls) server rest = server ∷ rest

module _ (json : Json) where
  open json use {Value, parse, is_string, is_array, as_string, member, elements}

  -- The strings of an array of urls; other elements are passed over.
  unfoldable pub string_elements : List Value → Crashes (List String)
  string_elements [] = some []
  string_elements (v ∷ vs) =
      let rest = string_elements vs in
      if is_string v then (as_string v >>= λ s. rest >>= λ r. some (s ∷ r)) else rest

  unfoldable pub read_urls : Value → Crashes (List String)
  unfolding string_elements
  read_urls urls =
      if is_string urls
      then (as_string urls >>= λ s. some (s ∷ []))
      else if is_array urls
      then string_elements (elements urls)
      else some []

  -- `""` if the member is missing or no string.
  unfoldable pub optional_string : Value → String → Crashes String
  optional_string server name = do
    v ← member server name
    if is_string v then as_string v else some ""

  unfoldable pub read_server : Value → Crashes IceServer
  unfolding read_urls optional_string
  read_server server = do
    urls ← member server "urls"
    texts ← read_urls urls
    username ← optional_string server "username"
    password ← optional_string server "credential"
    some (record { urls = texts; username = username; password = password })

  unfoldable pub read_servers : List Value → Crashes (List IceServer)
  unfolding read_server
  read_servers [] = some []
  read_servers (v ∷ vs) = do s ← read_server v; rest ← read_servers vs; some (keep_if s.urls s rest)

  unfoldable pub server_list : Value → Crashes (Result (List IceServer))
  unfolding read_servers
  server_list ice =
      if is_array ice
      then (read_servers (elements ice) >>= λ servers. some (ok servers))
      else some (fail invalid_argument "pc_config does not contain iceServers")

  -- The parse of the text, and what follows it.
  unfoldable pub ice_servers_of : Parsed Value → Crashes (Result (List IceServer))
  unfolding server_list
  ice_servers_of (malformed errors) = some (json_error "failed to parse pc_config" errors)
  ice_servers_of (parsed root) = member root "iceServers" >>= server_list

  unfoldable pub parse_ice_servers : String → Crashes (Result (List IceServer))
  unfolding ice_servers_of
  parse_ice_servers text = ice_servers_of (parse text)
