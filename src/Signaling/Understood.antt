-- ===== src/Signaling/Understood.antt =====
-- RTCSignalingNodeSession::_received_msg_m: the messages that it takes without a fault.
use text.Mathlib.Text.{◌==◌ as str_eq}
use text.Mathlib.TextEquality.{eq_iff}
use aone_webrtc_stt.Base.{
  All, String, ◌≡◌, refl, ◌≢◌, ◌⊎◌, inl, inr, true, false, Option, none, some, List, [], ◌∷◌, ◌++◌,
  arith, ◌>>=◌, Status, ok, invalid_operation,
}
use aone_webrtc_stt.Signaling.Json.{JsonApi}
use aone_webrtc_stt.Signaling.Attributes.{
  result_attr, success, command_attr, id_attr, ice_info_attr, sdp_attr, m_id_attr, candidate_attr,
  regist_msg_res, add_peer_msg, remove_peer_msg, offer_msg, candidate_msg, m_line_index_attr,
  url_attr, user_name_attr, credential_attr,
}
use aone_webrtc_stt.Signaling.IceServers.{
  add_ice_entries, ice_user_name, ice_credential, IceServerInfo, string_at, int32_at, ice_entry,
  add_ice_infos, ice_user_name, ice_credential,
}
use aone_webrtc_stt.Signaling.Session.{
  ws_open, ws_close, ws_send, Session, SessionEffect, post, ws_error, on_opened, on_add_peer,
  on_remove_peer, on_peer_sdp, on_peer_candidate, on_regist_res, on_add_peer_msg,
  on_remove_peer_msg, on_offer_msg, on_candidate_msg, notify, dispatch, received_msg, ws_open,
  ws_send,
}

str_ne : (a b : String) → a ≢ b → str_eq a b ≡ false
str_ne a b h = ground (arith, eq_iff a b)

module _ (api : JsonApi) where
  open api use {Json, Text, json_loads, strlen, json_object_get, json_array, json_string_value}

  -- The attribute is a text.
  abbrev pub HasText : Json → String → Type 0
  HasText j key = (value : String) × (string_at api j key ≡ some value)

  -- A server of a registration: a url, and the other two are texts where they are there.
  abbrev pub IsServer : Json → Type 0
  IsServer entry =
      HasText entry url_attr
      × ((json_object_get entry user_name_attr ≡ none) ⊎ HasText entry user_name_attr)
      × ((json_object_get entry credential_attr ≡ none) ⊎ HasText entry credential_attr)

  -- The servers of a registration: none, or something that is no array, or an array of servers.
  pub data HasServers (j : Json) : Type 0 where
    no_servers : json_object_get j ice_info_attr ≡ none → HasServers j
    no_array :
        (v : Json) → json_object_get j ice_info_attr ≡ some v → json_array v ≡ none → HasServers j
    servers :
        (v : Json) (entries : List Json)
        → json_object_get j ice_info_attr ≡ some v
        → json_array v ≡ some entries
        → All IsServer entries
        → HasServers j

  -- A message that has the attributes that its command needs.
  pub data IsCommand (j : Json) : Type 0 where
    refused :
        (result : String)
        → string_at api j command_attr ≡ some regist_msg_res
        → string_at api j result_attr ≡ some result
        → result ≢ success
        → IsCommand j
    accepted :
        string_at api j command_attr ≡ some regist_msg_res
        → string_at api j result_attr ≡ some success
        → HasText j id_attr
        → HasServers j
        → IsCommand j
    adds : string_at api j command_attr ≡ some add_peer_msg → HasText j id_attr → IsCommand j
    removes : string_at api j command_attr ≡ some remove_peer_msg → HasText j id_attr → IsCommand j
    offers :
        string_at api j command_attr ≡ some offer_msg
        → HasText j id_attr
        → HasText j sdp_attr
        → IsCommand j
    candidates :
        string_at api j command_attr ≡ some candidate_msg
        → HasText j id_attr
        → HasText j m_id_attr
        → HasText j candidate_attr
        → IsCommand j
    unknown :
        (cmd : String)
        → string_at api j command_attr ≡ some cmd
        → cmd ≢ regist_msg_res
        → cmd ≢ add_peer_msg
        → cmd ≢ remove_peer_msg
        → cmd ≢ offer_msg
        → cmd ≢ candidate_msg
        → IsCommand j

  -- A text that is no JSON, or such a message.
  pub data Understood (text : Text) : Type 0 where
    not_json : json_loads text (strlen text) ≡ none → Understood text
    command : (j : Json) → json_loads text (strlen text) ≡ some j → IsCommand j → Understood text

  -- What the handling of a message leaves alone, and what it may do: calls of the listener, and
  -- the post of an error to itself.
  abbrev pub IsReport : SessionEffect Text → Type 0
  IsReport (ws_open host port path) = ⊥
  IsReport ws_close = ⊥
  IsReport (ws_send text) = ⊥
  IsReport (post m) = m ≡ ws_error
  IsReport effect = Unit

  pub record Reports (s : Session) (r : Session × Status × List (SessionEffect Text)) : Type 0 where
    pub client : r.0.has_ws_client ≡ s.has_ws_client
    pub listener : r.0.has_listener ≡ s.has_listener
    pub state : r.0.state ≡ s.state
    pub reports : All IsReport r.2

  -- Both optional texts of a server are read alike.
  user_name_total :
      (info : IceServerInfo) (o : Option Json)
      → (o ≡ none) ⊎ ((name : String) × ((o >>= json_string_value) ≡ some name))
      → (named : IceServerInfo) × (ice_user_name api info o ≡ some named)
  unfolding ice_user_name
  user_name_total info none h = (info, refl)
  user_name_total info (some v) (inl e) = cc
  user_name_total info (some v) (inr (name, e)) =
      (record info { is_stun = false; user_name = name }, rw e)

  credential_total :
      (info : IceServerInfo) (o : Option Json)
      → (o ≡ none) ⊎ ((text : String) × ((o >>= json_string_value) ≡ some text))
      → (known : IceServerInfo) × (ice_credential api info o ≡ some known)
  unfolding ice_credential
  credential_total info none h = (info, refl)
  credential_total info (some v) (inl e) = cc
  credential_total info (some v) (inr (text, e)) = (record info { credential = text }, rw e)

  ice_entry_total :
      (entry : Json) → IsServer entry → (info : IceServerInfo) × (ice_entry api entry ≡ some info)
  unfolding ice_entry string_at
  ice_entry_total entry ((url, u), n, c) =
      let info : IceServerInfo = record {
        is_stun = true;
        uri = url;
        user_name = "";
        credential = "";
      } in
      let (named, e) = user_name_total info (json_object_get entry user_name_attr) n in
      let (known, f) = credential_total named (json_object_get entry credential_attr) c in
      (known, rw (u, e, f))

  add_ice_entries_total :
      (entries : List Json) (infos : List IceServerInfo)
      → All IsServer entries
      → (all : List IceServerInfo) × (add_ice_entries api infos entries ≡ some all)
  unfolding add_ice_entries
  add_ice_entries_total [] infos h = (infos, refl)
  add_ice_entries_total (entry ∷ rest) infos (h, hs) =
      let (info, e) = ice_entry_total entry h in
      rw e (add_ice_entries_total rest (infos ++ info ∷ []) hs)

  add_ice_infos_total :
      (j : Json) (infos : List IceServerInfo)
      → HasServers j
      → (all : List IceServerInfo) × (add_ice_infos api infos (json_object_get j ice_info_attr)
          ≡ some all)
  unfolding add_ice_infos
  add_ice_infos_total j infos (no_servers e) = (infos, rw e)
  add_ice_infos_total j infos (no_array v e f) = (infos, rw (e, add_ice_infos, f))
  add_ice_infos_total j infos (servers v entries e f h) =
      let (all, added) = add_ice_entries_total entries infos h in
      (all, rw (e, add_ice_infos, f) added)

  module _ (s : Session) (listens : s.has_listener ≡ true) where
    dispatch-Reports :
        (j : Json)
        → IsCommand j
        → (r : Session × Status × List (SessionEffect Text)) × ((string_at api j command_attr
              >>= λ cmd. dispatch api s j cmd)
            ≡ some r)
          × Reports s r
    unfolding dispatch on_regist_res on_add_peer_msg on_remove_peer_msg on_offer_msg
        on_candidate_msg notify
    dispatch-Reports j (refused result c e ne) = (
      (s, invalid_operation, post ws_error ∷ []),
      rw (c, e, str_ne result success ne),
      ground arith,
    )
    dispatch-Reports j (accepted c e (id, i) h) =
        let (infos, added) = add_ice_infos_total j s.ice_infos h in
        (
          (record s { id = id; ice_infos = infos }, ok, on_opened ∷ []),
          rw (c, e, i, added, listens),
          ground arith,
        )
    dispatch-Reports j (adds c (id, i)) =
        ((s, ok, on_add_peer id ∷ []), rw (c, i, listens), ground arith)
    dispatch-Reports j (removes c (id, i)) =
        ((s, ok, on_remove_peer id ∷ []), rw (c, i, listens), ground arith)
    dispatch-Reports j (offers c (id, i) (sdp, d)) =
        ((s, ok, on_peer_sdp id sdp ∷ []), rw (c, i, d, listens), ground arith)
    dispatch-Reports j (candidates c (id, i) (mid, m) (candidate, t)) = (
      (s, ok, on_peer_candidate id (int32_at api j m_line_index_attr) mid candidate ∷ []),
      rw (c, i, m, t, listens),
      ground arith,
    )
    dispatch-Reports j (unknown cmd c n1 n2 n3 n4 n5) = (
      (s, ok, []),
      rw (c, str_ne cmd _ n1, str_ne cmd _ n2, str_ne cmd _ n3, str_ne cmd _ n4, str_ne cmd _ n5),
      ground arith,
    )

    -- For a session with a listener: a message that is understood has no fault, keeps the state, the
    -- client and the listener of the session, and leads only to calls of the listener, or to the
    -- post of an error.
    pub received_msg-Reports :
        (text : Text)
        → Understood text
        → (r : Session × Status × List (SessionEffect Text)) × (received_msg api s text ≡ some r)
          × Reports s r
    unfolding received_msg
    received_msg-Reports text (not_json e) =
        ((s, invalid_operation, []), rw (e, received_msg), ground arith)
    received_msg-Reports text (command j e c) = rw (e, received_msg) (dispatch-Reports j c)
