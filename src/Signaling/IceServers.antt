-- ===== src/Signaling/IceServers.antt =====
-- RTCIceServerInfo.h, and RTCSignalingNodeSession::_received_msg_m where it reads the servers of a reply
-- and the attributes of a message.
use aone_webrtc_stt.Base.{
  ℤ, pos, to_int32, String, Bool, true, false, Option, none, some, List, [], ◌∷◌, ◌++◌, ◌>>=◌,
}
use aone_webrtc_stt.Signaling.Json.{JsonApi}
use aone_webrtc_stt.Signaling.Attributes.{url_attr, user_name_attr, credential_attr}

pub record IceServerInfo : Type 0 where
  pub is_stun : Bool
  pub uri : String
  pub user_name : String
  pub credential : String

module _ (api : JsonApi) where
  open api use {Json, json_object_get, json_string_value, json_integer_value, json_array}

  -- std::string x = json_string_value(json_object_get(j, key)).
  unfoldable pub string_at : Json → String → Option String
  string_at j key = json_object_get j key >>= json_string_value

  -- int32_t x = json_integer_value(json_object_get(j, key)), which is 0 for a null pointer.
  unfoldable pub int32_at : Json → String → ℤ
  int32_at j key = elim (json_object_get j key) [
    | none ↦ pos 0
    | some v ↦ to_int32 (json_integer_value v)
  ]

  unfoldable pub ice_user_name : IceServerInfo → Option Json → Option IceServerInfo
  ice_user_name info none = some info
  ice_user_name info (some j) =
      json_string_value j >>= λ name. some (record info { is_stun = false; user_name = name })

  unfoldable pub ice_credential : IceServerInfo → Option Json → Option IceServerInfo
  ice_credential info none = some info
  ice_credential info (some j) =
      json_string_value j >>= λ text. some (record info { credential = text })

  unfoldable pub ice_entry : Json → Option IceServerInfo
  unfolding string_at ice_user_name ice_credential
  ice_entry entry = do
    uri ← string_at entry url_attr
    let info : IceServerInfo = record { is_stun = true; uri = uri; user_name = ""; credential = "" }
    named ← ice_user_name info (json_object_get entry user_name_attr)
    ice_credential named (json_object_get entry credential_attr)

  -- json_array_foreach: the entries are added behind those already there.
  unfoldable pub add_ice_entries : List IceServerInfo → List Json → Option (List IceServerInfo)
  unfolding ice_entry
  add_ice_entries infos [] = some infos
  add_ice_entries infos (entry ∷ rest) =
      ice_entry entry >>= λ info. add_ice_entries (infos ++ info ∷ []) rest

  unfoldable pub add_ice_infos : List IceServerInfo → Option Json → Option (List IceServerInfo)
  unfolding add_ice_entries
  add_ice_infos infos none = some infos
  add_ice_infos infos (some j) = elim (json_array j) [
    | none ↦ some infos
    | some entries ↦ add_ice_entries infos entries
  ]
