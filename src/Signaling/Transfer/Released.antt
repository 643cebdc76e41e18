-- ===== src/Signaling/Transfer/Released.antt =====
-- What a request leaves behind, and when it succeeds.
use vcpkg_webrtc_sample.Prelude.{
  ◌≡◌, refl, ◌≤◌, ◌<◌, ◌↔◌, String, Bool, true, false, not, ◌&&◌, ◌||◌, List, [], ◌∷◌, ◌<>◌, ok,
  arith, sym, ◌∙◌, subst,
}
use text.Mathlib.TextLemmas.{append-nil, append_assoc, nil-append}
use vcpkg_webrtc_sample.Signaling.Transfer.{
  CurlCode, curl_ok, curl_error, Transfer, http_header, CurlCall, easy_init, slist_append, setopt,
  perform, get_response_code, slist_free_all, easy_cleanup, write_pieces, checked_response,
  post_json, delete,
}

-- The rules of libcurl, for one handle and one list: a handle is used only while it is there, a list
-- that a handle was given is there whenever it performs, nothing is released that is not there, and
-- both are released in the end.
pub record Held : Type 0 where
  pub handle : Bool
  pub headers : Bool
  -- Whether the handle was given the list.
  pub given : Bool

-- What a call does to what is held, with whether it is allowed.
abbrev pub after_call : CurlCall → Held → Bool × Held
after_call (easy_init there) h = (not h.handle, record h { handle = there })
after_call (slist_append there) h = (not h.headers, record h { headers = there })
after_call (setopt http_header) h = (h.handle, record h { given = h.headers })
after_call (setopt o) h = (h.handle, h)
after_call perform h = (h.handle && (not h.given || h.headers), h)
after_call get_response_code h = (h.handle, h)
after_call slist_free_all h = (h.headers, record h { headers = false })
after_call easy_cleanup h = (h.handle, record h { handle = false })

abbrev pub all_allowed : Held → List CurlCall → Bool
all_allowed h [] = not h.handle && not h.headers
all_allowed h (x ∷ xs) = (after_call x h).0 && all_allowed (after_call x h).1 xs

abbrev pub nothing_held : Held
nothing_held = record { handle = false; headers = false; given = false }

with_code :
    (handle headers : Bool) (code : CurlCode) (t : Transfer) (url body : String)
    → all_allowed nothing_held
        (post_json
          (record t { has_handle = handle; has_headers = headers; code = code })
          url
          body).1
      ≡ true
unfolding post_json
with_code false headers code t url body = refl
with_code true false curl_ok t url body = refl
with_code true true curl_ok t url body = refl
with_code true false (curl_error text) t url body = refl
with_code true true (curl_error text) t url body = refl

deleted_with_code :
    (handle : Bool) (code : CurlCode) (t : Transfer) (url : String)
    → all_allowed nothing_held (delete (record t { has_handle = handle; code = code }) url).1 ≡ true
unfolding delete
deleted_with_code false code t url = refl
deleted_with_code true curl_ok t url = refl
deleted_with_code true (curl_error text) t url = refl

-- Whatever libcurl answers, `PostJson` and `Delete` use it by its rules and leave nothing behind:
-- no handle and no list is used before it is there or after it was released, and each is released
-- exactly once, on every return.
pub requests_release :
    (t : Transfer) (url body : String)
    → (all_allowed nothing_held (post_json t url body).1 ≡ true)
      × (all_allowed nothing_held (delete t url).1 ≡ true)
requests_release t url body = (
  with_code t.has_handle t.has_headers t.code t url body,
  deleted_with_code t.has_handle t.code t url,
)

-- The pieces of a response, one behind the other.
abbrev pub joined : List String → String
joined [] = ""
joined (piece ∷ pieces) = piece <> joined pieces

write_pieces-joined :
    (pieces : List String) (response : String)
    → write_pieces pieces response ≡ response <> joined pieces
unfolding write_pieces
write_pieces-joined [] response = sym (append-nil response)
write_pieces-joined (piece ∷ pieces) response =
    write_pieces-joined pieces (response <> piece) ∙ append_assoc response piece (joined pieces)

received : (t : Transfer) → write_pieces t.pieces "" ≡ joined t.pieces
received t = write_pieces-joined t.pieces "" ∙ nil-append (joined t.pieces)

checked_response-eq-ok :
    (t : Transfer) (text response : String)
    → (checked_response t text ≡ ok response)
      ↔ ((200 ≤ t.response_code) × (t.response_code < 300) × (response ≡ text))
unfolding checked_response
checked_response-eq-ok t text response = ground arith

posts_ok :
    (handle : Bool) (code : CurlCode) (t : Transfer) (url body response : String)
    → ((post_json (record t { has_handle = handle; code = code }) url body).0 ≡ ok response) ↔ (
        (handle ≡ true)
        × (code ≡ curl_ok)
        × (200 ≤ t.response_code)
        × (t.response_code < 300)
        × (response ≡ write_pieces t.pieces ""))
unfolding post_json
posts_ok false code t url body response = (λ h. cc, λ h. cc)
posts_ok true (curl_error text) t url body response = (λ h. cc, λ h. cc)
posts_ok true curl_ok t url body response =
    let (there, back) = checked_response-eq-ok t (write_pieces t.pieces "") response in
    (λ h. (refl, refl, (there h).0, (there h).1, (there h).2), λ (h, i, j, k, l). back (j, k, l))

-- `PostJson` succeeds exactly if there is a handle, the transfer went well, and the response code is
-- in the two hundreds; its value is then the pieces of the response in the order of their arrival.
pub post_json-eq-ok :
    (t : Transfer) (url body response : String)
    → ((post_json t url body).0 ≡ ok response) ↔ (
        (t.has_handle ≡ true)
        × (t.code ≡ curl_ok)
        × (200 ≤ t.response_code)
        × (t.response_code < 300)
        × (response ≡ joined t.pieces))
post_json-eq-ok t url body response =
    subst
      (λ text. ((post_json t url body).0 ≡ ok response) ↔ (
        (t.has_handle ≡ true)
        × (t.code ≡ curl_ok)
        × (200 ≤ t.response_code)
        × (t.response_code < 300)
        × (response ≡ text)))
      (received t) (posts_ok t.has_handle t.code t url body response)
