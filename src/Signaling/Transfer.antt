-- ===== src/Signaling/Transfer.antt =====
-- The requests of the network thread: `PostJson`, `PostEmpty` and `Delete`.
--
-- What libcurl answers is a record; what it is called with is a list, in order. The cleanups run at
-- every return, the last one made first.
pub mod Released
use Prim.Native.String.{len}
use vcpkg_webrtc_sample.Prelude.{
  ℕ, String, ◌<>◌, Bool, true, false, if◌then◌else◌, ltb, leb, ◌||◌, List, [], ◌∷◌, ◌++◌, Result,
  ok, fail, Status, ok_status, err, internal,
}

pub data CurlCode : Type 0 where
  curl_ok : CurlCode
  -- With what `curl_easy_strerror` says of it.
  curl_error : String → CurlCode

pub record Transfer : Type 0 where
  -- `curl_easy_init` and `curl_slist_append` give a pointer.
  pub has_handle : Bool
  pub has_headers : Bool
  -- What `WriteCallback` is given, and what `curl_easy_perform` returns then.
  pub pieces : List String
  pub code : CurlCode
  pub response_code : ℕ
  -- The text of that number, as `std::to_string` writes it.
  pub response_text : String

-- The options, by the names that `curl_easy_setopt` has for them.
pub data CurlOption : Type 0 where
  url_option : String → CurlOption
  http_header post write_function write_data follow_location : CurlOption
  post_fields : String → CurlOption
  post_field_size : ℕ → CurlOption
  custom_request : String → CurlOption
  timeout : ℕ → CurlOption

pub data CurlCall : Type 0 where
  easy_init slist_append : Bool → CurlCall
  setopt : CurlOption → CurlCall
  perform get_response_code : CurlCall
  slist_free_all easy_cleanup : CurlCall

-- `WriteCallback`, for all pieces.
unfoldable pub write_pieces : List String → String → String
write_pieces [] response = response
write_pieces (piece ∷ pieces) response = write_pieces pieces (response <> piece)

unfoldable pub curl_code_to_status : CurlCode → String → Status
curl_code_to_status curl_ok context = ok_status
curl_code_to_status (curl_error text) context = fail internal (context <> (": " <> text))

-- `headers_cleanup`
abbrev pub free_headers : Transfer → List CurlCall
free_headers t = if t.has_headers then slist_free_all ∷ [] else []

-- A return: its value, and the calls until then with those of the cleanups.
abbrev pub returning : Result String → List CurlCall → List CurlCall → Result String × List CurlCall
returning r calls cleanups = (r, calls ++ cleanups)

unfoldable pub checked_response : Transfer → String → Result String
checked_response t response =
    if ltb t.response_code 200 || leb 300 t.response_code
    then fail internal ("unexpected HTTP response code: " <> t.response_text)
    else ok response

unfoldable pub posted_status :
    Status → Transfer → String → List CurlCall → List CurlCall → Result String × List CurlCall
unfolding checked_response
posted_status (err e) t response calls cleanups = returning (err e) calls cleanups
posted_status (ok _) t response calls cleanups =
    returning (checked_response t response) (calls ++ get_response_code ∷ []) cleanups

abbrev pub post_options : String → String → List CurlCall
post_options url body =
    setopt (url_option url)
    ∷ setopt http_header
    ∷ setopt post
    ∷ setopt (post_fields body)
    ∷ setopt (post_field_size (len body))
    ∷ setopt write_function
    ∷ setopt write_data
    ∷ setopt follow_location
    ∷ setopt (timeout 30)
    ∷ []

unfoldable pub post_json : Transfer → String → String → Result String × List CurlCall
unfolding write_pieces curl_code_to_status posted_status
post_json t url body =
    if t.has_handle
    then posted_status (curl_code_to_status t.code "HTTP POST failed") t (write_pieces t.pieces "")
        (easy_init true ∷ slist_append t.has_headers ∷ (post_options url body ++ perform ∷ []))
        (free_headers t ++ easy_cleanup ∷ [])
    else (fail internal "curl_easy_init failed", easy_init false ∷ [])

unfoldable pub post_empty : Transfer → String → Result String × List CurlCall
unfolding post_json
post_empty t url = post_json t url ""

abbrev pub delete_options : String → List CurlCall
delete_options url =
    setopt (url_option url)
    ∷ setopt (custom_request "DELETE")
    ∷ setopt write_function
    ∷ setopt write_data
    ∷ setopt follow_location
    ∷ setopt (timeout 30)
    ∷ []

-- The response code is not looked at.
unfoldable pub deleted_status :
    Status → String → List CurlCall → List CurlCall → Result String × List CurlCall
deleted_status (err e) response calls cleanups = returning (err e) calls cleanups
deleted_status (ok _) response calls cleanups = returning (ok response) calls cleanups

unfoldable pub delete : Transfer → String → Result String × List CurlCall
unfolding write_pieces curl_code_to_status deleted_status
delete t url =
    if t.has_handle
    then deleted_status (curl_code_to_status t.code "HTTP DELETE failed") (write_pieces t.pieces "")
        (easy_init true ∷ (delete_options url ++ perform ∷ [])) (easy_cleanup ∷ [])
    else (fail internal "curl_easy_init failed", easy_init false ∷ [])
