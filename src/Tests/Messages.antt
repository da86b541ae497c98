-- ===== src/Tests/Messages.antt =====
-- The session at concrete messages. A JSON value is a tree, and the text of a message is the value.
use text.Mathlib.Text.{◌==◌ as str_eq}
use aone_webrtc_stt.Base.{
  ℤ, pos, ℕ, ◌+◌, String, ◌≡◌, refl, ◌≢◌, ◌↔◌, inl, inr, true, false, Option, none, some, List, [],
  ◌∷◌, arith, if◌then◌else◌, Bool-cases, ◌>>=◌, Status, ok,
}
use aone_webrtc_stt.Signaling.Json.{JsonApi, int_as_real}
use aone_webrtc_stt.Signaling.Attributes.{
  result_attr, success, id_attr, ice_info_attr, url_attr, user_name_attr,
}
use aone_webrtc_stt.Signaling.IceServers.{IceServerInfo, string_at, ice_entry}
use aone_webrtc_stt.Signaling.Outgoing.{candidate_json}
use aone_webrtc_stt.Signaling.Session.{
  SessionEffect, Session, received_msg, on_peer_candidate, on_regist_res, on_opened, connected,
}
use aone_webrtc_stt.Signaling.Understood.{Understood}
use aone_webrtc_stt.Signaling.Needs.{received_msg-Understood}
use aone_webrtc_stt.Signaling.RoundTrip.{candidate_round_trip}
use aone_webrtc_stt.Signaling.Servers.{Registered, on_regist_res-Registered}

pub data Tree : Type 0 where
  object empty_array : Tree
  set : Tree → String → Tree → Tree
  a_text : String → Tree
  number real : ℤ → Tree
  element : Tree → Tree → Tree

abbrev get : Tree → String → Option Tree
get object j = none
get empty_array j = none
get (set o k v) j = if str_eq k j then some v else get o j
get (a_text s) j = none
get (number i) j = none
get (real i) j = none
get (element x xs) j = none

abbrev string_value : Tree → Option String
string_value (a_text s) = some s
string_value _ = none

abbrev integer_value : Tree → ℤ
integer_value (number i) = i
integer_value _ = pos 0

-- JSON_DECODE_INT_AS_REAL.
abbrev with_reals : Tree → Tree
with_reals (number i) = real i
with_reals (real i) = real i
with_reals (a_text s) = a_text s
with_reals object = object
with_reals empty_array = empty_array
with_reals (set o k v) = set (with_reals o) k (with_reals v)
with_reals (element x xs) = element (with_reals x) (with_reals xs)

pub get-with_reals :
    (o : Tree) (k : String)
    → get (with_reals o) k ≡ (elim (get o k) [ some v ↦ some (with_reals v) | none ↦ none ])
get-with_reals object k = refl
get-with_reals empty_array k = refl
get-with_reals (number i) k = refl
get-with_reals (real i) k = refl
get-with_reals (a_text s) k = refl
get-with_reals (element x xs) k = refl
get-with_reals (set o j v) k = elim (Bool-cases (str_eq j k)) [
  | inl same ↦ rw same refl
  | inr other ↦ rw other (get-with_reals o k)
]

pub string_value-with_reals : (v : Tree) → string_value (with_reals v) ≡ string_value v
string_value-with_reals object = refl
string_value-with_reals empty_array = refl
string_value-with_reals (number i) = refl
string_value-with_reals (real i) = refl
string_value-with_reals (a_text s) = refl
string_value-with_reals (set o j v) = refl
string_value-with_reals (element x xs) = refl

pub integer_value-with_reals : (v : Tree) → integer_value (with_reals v) ≡ pos 0
integer_value-with_reals object = refl
integer_value-with_reals empty_array = refl
integer_value-with_reals (number i) = refl
integer_value-with_reals (real i) = refl
integer_value-with_reals (a_text s) = refl
integer_value-with_reals (set o j v) = refl
integer_value-with_reals (element x xs) = refl

-- For the length of a text, ten characters for each attribute.
abbrev tree_length : Tree → ℕ
tree_length (set o k v) = tree_length o + 10
tree_length _ = 2

abbrev array : Tree → Option (List Tree)
array empty_array = some []
array (element x xs) = array xs >>= λ rest. some (x ∷ rest)
array _ = none

abbrev pub trees : JsonApi
trees = record {
  Json = Tree;
  Text = Tree;
  json_object = object;
  json_object_set_new = set;
  json_string = a_text;
  json_integer = number;
  json_dumps = λ o. o;
  strlen = tree_length;
  json_loads = λ o flags. some (if int_as_real flags then with_reals o else o);
  json_object_get = get;
  json_string_value = string_value;
  json_integer_value = integer_value;
  json_array = array;
  IsObject = λ o. Unit {0};
  object-IsObject = tt;
  set_new-IsObject = λ o k v h. tt;
  get-set_new = λ o k j v h. refl;
  string_value-string = λ s. refl;
  integer_value-integer = λ i h. refl;
  reals = with_reals;
  loads-dumps = λ o flags h. refl;
  get-reals = λ o k h. get-with_reals o k;
  string_value-reals = string_value-with_reals;
  integer_value-reals = integer_value-with_reals;
}

abbrev pub session : Session
session = record {
  has_ws_client = true;
  has_listener = true;
  id = "";
  ice_infos = [];
  state = connected;
}

candidate_round_trip_example :
    received_msg trees session (candidate_json trees "ann" (pos 1) "0" "udp")
    ≡ some (session, ok, on_peer_candidate "ann" (pos 1) "0" "udp" ∷ [])
unfolding candidate_json
candidate_round_trip_example =
    candidate_round_trip trees session "ann" "0" "udp" (pos 1) refl (ground arith)

abbrev reply : String → Tree
reply result =
    set (set (set object result_attr (a_text result)) id_attr (a_text "node")) ice_info_attr (
      element (set (set object url_attr (a_text "turn:a")) user_name_attr (a_text "bob"))
        empty_array)

abbrev turn_server : List IceServerInfo
turn_server = record { is_stun = false; uri = "turn:a"; user_name = "bob"; credential = "" } ∷ []

reply_result : string_at trees (reply success) result_attr ≡ some success
unfolding string_at
reply_result = refl

reply_handled :
    on_regist_res trees session (reply success)
    ≡ some (record session { id = "node"; ice_infos = turn_server }, ok, on_opened ∷ [])
unfolding on_regist_res ice_entry
reply_handled = refl

abbrev registered : Session
registered = record session { id = "node"; ice_infos = turn_server }

abbrev accepted : Session × Status × List (SessionEffect Tree)
accepted = (registered, ok, on_opened ∷ [])

on_regist_res-Registered_example :
    Registered trees session (reply success) accepted.0
    × (accepted.1 ≡ ok)
    × (accepted.2 ≡ on_opened ∷ [])
on_regist_res-Registered_example =
    on_regist_res-Registered trees session (reply success) accepted reply_result reply_handled

received_msg-Understood_example :
    (received_msg trees session object ≢ none) ↔ Understood trees object
received_msg-Understood_example = received_msg-Understood trees session object refl
