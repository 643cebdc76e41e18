-- ===== src/Common/Message/RoundTrip.antt =====
-- What is serialised is read back.
use vcpkg_webrtc_sample.Prelude.{◌≡◌, refl, String, some, ok, ◌∙◌, subst}
use vcpkg_webrtc_sample.Prelude.Int.{ℤ}
use vcpkg_webrtc_sample.Common.Json.{Json}
use vcpkg_webrtc_sample.Common.Json.Laws.{
  a_text, a_number, IsObject, empty, assigned, IsLawful, string_member_same, string_member_other,
}
use vcpkg_webrtc_sample.Common.Message.{
  SignalingMessageType, offer, answer, candidate, bye, unknown, SignalingMessage, blank,
  message_type_to_string, string_member, decode, decode_description, decode_candidate,
  parse_signaling_message, serialize_session_description, serialize_ice_candidate,
}

-- The types of a description that a peer connection makes.
pub data IsDescription : SignalingMessageType → Type 0 where
  an_offer : IsDescription offer
  an_answer : IsDescription answer

module _ {json : Json} (lawful : IsLawful json) where
  open json use {
    Value, parse, write, as_string, as_int, member, empty_object, of_string, of_int, with_member,
  }

  -- A text that is read as an object is decoded by the object's type.
  parsed_message :
      (root : Value) (type : String) (m : SignalingMessage)
      → IsObject json root
      → string_member json root "type" ≡ some type
      → decode json root type (blank (write root)) ≡ some m
      → parse_signaling_message json (write root) ≡ some (ok m)
  unfolding parse_signaling_message
  parsed_message root type m o t d =
      rw (parse_signaling_message, lawful.parse-write o) (rw t (rw d refl))

  abbrev description_of : String → String → Value
  description_of type text =
      with_member (with_member empty_object "type" (of_string type)) "sdp" (of_string text)

  typed : (type : String) → IsObject json (with_member empty_object "type" (of_string type))
  typed type = assigned "type" empty (a_text type)

  description_type_read :
      (type text : String) → string_member json (description_of type text) "type" ≡ some type
  description_type_read type text =
      string_member_other lawful "sdp" "type" (typed type) (a_text text) refl
      ∙ string_member_same lawful "type" type empty

  description_text_read :
      (type text : String) → string_member json (description_of type text) "sdp" ≡ some text
  description_text_read type text = string_member_same lawful "sdp" text (typed type)

  description_decoded :
      (kind : SignalingMessageType) (text raw : String)
      → IsDescription kind
      → decode json
          (description_of (message_type_to_string kind) text)
          (message_type_to_string kind)
          (blank raw)
        ≡ some
            (record (blank raw) { kind = kind; sdp_type = message_type_to_string kind; sdp = text })
  unfolding decode decode_description
  description_decoded offer text raw an_offer = rw (description_text_read "offer" text) refl
  description_decoded answer text raw an_answer = rw (description_text_read "answer" text) refl
  description_decoded candidate text raw k = elim k [ ]
  description_decoded bye text raw k = elim k [ ]
  description_decoded unknown text raw k = elim k [ ]

  -- A description is read back: the text that `SerializeSessionDescription` gives for an offer or an
  -- answer is one that `ParseSignalingMessage` reads without an exception or an error, as a message
  -- of the same type with the same SDP. jsoncpp reads an object of texts as it wrote it.
  pub parse_signaling_message-serialize_session_description :
      (kind : SignalingMessageType) (text written : String)
      → IsDescription kind
      → serialize_session_description json (message_type_to_string kind) (some text) ≡ ok written
      → parse_signaling_message json written
        ≡ some (
            ok (record (blank written) {
              kind = kind;
              sdp_type = message_type_to_string kind;
              sdp = text;
            }))
  unfolding serialize_session_description
  parse_signaling_message-serialize_session_description kind text written k h =
      let type = message_type_to_string kind in
      let root = description_of type text in
      let e : write root ≡ written = cc in
      subst
        (λ t.
          parse_signaling_message json t
          ≡ some (ok (record (blank t) { kind = kind; sdp_type = type; sdp = text })))
        e
        (parsed_message root type _ (assigned "sdp" (typed type) (a_text text))
          (description_type_read type text) (description_decoded kind text (write root) k))

  abbrev candidate_of : ℤ → String → String → Value
  candidate_of index mid text =
      let r = with_member empty_object "type" (of_string "candidate") in
      let r = with_member r "label" (of_int index) in
      let r = with_member r "id" (of_string mid) in with_member r "candidate" (of_string text)

  labelled :
      (index : ℤ)
      → IsObject json (
          with_member
            (with_member empty_object "type" (of_string "candidate"))
            "label"
            (of_int index))
  labelled index = assigned "label" (typed "candidate") (a_number index)

  named :
      (index : ℤ) (mid : String)
      → IsObject json (
          with_member
            (with_member
              (with_member empty_object "type" (of_string "candidate"))
              "label"
              (of_int index))
            "id"
            (of_string mid))
  named index mid = assigned "id" (labelled index) (a_text mid)

  candidate_type_read :
      (index : ℤ) (mid text : String)
      → string_member json (candidate_of index mid text) "type" ≡ some "candidate"
  candidate_type_read index mid text =
      string_member_other lawful "candidate" "type" (named index mid) (a_text text) refl
      ∙ (string_member_other lawful "id" "type" (labelled index) (a_text mid) refl
          ∙ (string_member_other lawful "label" "type" (typed "candidate") (a_number index) refl
              ∙ string_member_same lawful "type" "candidate" empty))

  candidate_text_read :
      (index : ℤ) (mid text : String)
      → string_member json (candidate_of index mid text) "candidate" ≡ some text
  candidate_text_read index mid text = string_member_same lawful "candidate" text (named index mid)

  candidate_id_read :
      (index : ℤ) (mid text : String)
      → string_member json (candidate_of index mid text) "id" ≡ some mid
  candidate_id_read index mid text =
      string_member_other lawful "candidate" "id" (named index mid) (a_text text) refl
      ∙ string_member_same lawful "id" mid (labelled index)

  candidate_label_read :
      (index : ℤ) (mid text : String)
      → member (candidate_of index mid text) "label" ≡ some (of_int index)
  candidate_label_read index mid text =
      lawful.member_other "candidate" "label" (named index mid) (a_text text) refl
      ∙ (lawful.member_other "id" "label" (labelled index) (a_text mid) refl
          ∙ lawful.member_same "label" (typed "candidate") (a_number index))

  candidate_decoded :
      (index : ℤ) (mid text raw : String)
      → decode json (candidate_of index mid text) "candidate" (blank raw)
        ≡ some (record (blank raw) {
          kind = candidate;
          candidate_text = text;
          sdp_mid = mid;
          sdp_mline_index = index;
        })
  unfolding decode decode_candidate
  candidate_decoded index mid text raw = rw (candidate_text_read index mid text) (
      rw (candidate_id_read index mid text)
        (rw (candidate_label_read index mid text) (rw (lawful.as_int-of_int index) refl)))

  -- A candidate is read back: the text that `SerializeIceCandidate` gives is one that
  -- `ParseSignalingMessage` reads without an exception or an error, as a candidate with the same
  -- text, mid and index. jsoncpp reads an object of texts and numbers as it wrote it.
  pub parse_signaling_message-serialize_ice_candidate :
      (index : ℤ) (mid text written : String)
      → serialize_ice_candidate json index mid (some text) ≡ ok written
      → parse_signaling_message json written
        ≡ some (
            ok (record (blank written) {
              kind = candidate;
              candidate_text = text;
              sdp_mid = mid;
              sdp_mline_index = index;
            }))
  unfolding serialize_ice_candidate
  parse_signaling_message-serialize_ice_candidate index mid text written h =
      let root = candidate_of index mid text in
      let e : write root ≡ written = cc in
      subst
        (λ t.
          parse_signaling_message json t
          ≡ some (
              ok (record (blank t) {
                kind = candidate;
                candidate_text = text;
                sdp_mid = mid;
                sdp_mline_index = index;
              })))
        e
        (parsed_message root "candidate" _ (assigned "candidate" (named index mid) (a_text text))
          (candidate_type_read index mid text) (candidate_decoded index mid text (write root)))
