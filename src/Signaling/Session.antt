-- ===== src/Signaling/Session.antt =====
-- rtc_server_node/RTCSignalingNodeSession.h and .cc, and RTCIceServerInfo.h: the session with the
-- signaling server. A message of its looper is a value, and handling one gives the new state and what
-- the session does: calls of the web socket client and of its listener, and messages that it posts to
-- itself. A null pointer that the code dereferences, or turns into a std::string, is a fault.
use text.Mathlib.Text.{◌==◌ as str_eq}
use aone_webrtc_stt.Base.{
  ℤ, String, Bool, true, false, Option, none, some, List, [], ◌∷◌, if◌then◌else◌, ◌>>=◌, ◌>>◌,
  require, Status, ok, invalid_operation,
}
use aone_webrtc_stt.Signaling.Json.{JsonApi}
use aone_webrtc_stt.Signaling.Attributes.{
  id_attr, result_attr, ice_info_attr, success, command_attr, sdp_attr, m_line_index_attr,
  regist_msg_res, m_id_attr, add_peer_msg, candidate_msg, remove_peer_msg, candidate_attr,
  offer_msg,
}
use aone_webrtc_stt.Signaling.IceServers.{IceServerInfo, string_at, int32_at, add_ice_infos}
use aone_webrtc_stt.Signaling.Outgoing.{
  regist_req_json, command_res_json, sdp_json, candidate_json, ice_state_json,
}

pub data SessionState : Type 0 where
  uninit init connected disconnected session_error : SessionState

-- The messages of the looper, with their entries.
pub data SessionMsg (Text : Type 0) : Type 0 where
  open_msg : String → ℤ → Option String → SessionMsg Text
  close_msg error_msg ws_connected ws_disconnected ws_error : SessionMsg Text
  ws_message : Text → SessionMsg Text
  send_command_res : String → String → String → SessionMsg Text
  send_sdp : String → String → SessionMsg Text
  send_candidate : String → ℤ → String → String → SessionMsg Text
  send_ice_state : String → ℤ → String → SessionMsg Text

pub data SessionEffect (Text : Type 0) : Type 0 where
  ws_open : String → ℤ → String → SessionEffect Text
  ws_close : SessionEffect Text
  ws_send : Text → SessionEffect Text
  post : SessionMsg Text → SessionEffect Text
  on_opened on_closed on_error : SessionEffect Text
  on_add_peer on_remove_peer : String → SessionEffect Text
  on_peer_sdp : String → String → SessionEffect Text
  on_peer_candidate : String → ℤ → String → String → SessionEffect Text

pub record Session : Type 0 where
  pub has_ws_client : Bool
  pub has_listener : Bool
  pub id : String
  pub ice_infos : List IceServerInfo
  pub state : SessionState

-- The constructor and _init.
unfoldable pub create_session : Bool → Session
create_session has_listener = record {
  has_ws_client = false;
  has_listener = has_listener;
  id = "";
  ice_infos = [];
  state = init;
}

module _ (api : JsonApi) where
  open api use {Json, Text, json_dumps, json_loads, strlen, json_object_get, json_string_value}

  abbrev pub Handled : Type 0
  Handled = Option (Session × Status × List (SessionEffect Text))

  -- A call of the listener.
  unfoldable pub notify : Session → SessionEffect Text → Handled
  notify s call = require s.has_listener >> some (s, ok, call ∷ [])

  unfoldable pub on_regist_res : Session → Json → Handled
  unfolding string_at add_ice_infos notify
  on_regist_res s j = string_at api j result_attr >>= λ result.
      let accepted = string_at api j id_attr >>= λ node_id.
      add_ice_infos api s.ice_infos (json_object_get j ice_info_attr) >>= λ infos.
      notify (record s { id = node_id; ice_infos = infos }) on_opened in
      if str_eq result success then accepted else some (s, invalid_operation, post ws_error ∷ [])

  unfoldable pub on_add_peer_msg : Session → Json → Handled
  unfolding string_at notify
  on_add_peer_msg s j = string_at api j id_attr >>= λ peer_id. notify s (on_add_peer peer_id)

  unfoldable pub on_remove_peer_msg : Session → Json → Handled
  unfolding string_at notify
  on_remove_peer_msg s j = string_at api j id_attr >>= λ peer_id. notify s (on_remove_peer peer_id)

  unfoldable pub on_offer_msg : Session → Json → Handled
  unfolding string_at notify
  on_offer_msg s j = do
    peer_id ← string_at api j id_attr
    sdp ← string_at api j sdp_attr
    notify s (on_peer_sdp peer_id sdp)

  unfoldable pub on_candidate_msg : Session → Json → Handled
  unfolding string_at int32_at notify
  on_candidate_msg s j = do
    peer_id ← string_at api j id_attr
    let mline_idx = int32_at api j m_line_index_attr
    mid ← string_at api j m_id_attr
    candidate ← string_at api j candidate_attr
    notify s (on_peer_candidate peer_id mline_idx mid candidate)

  -- The chain of comparisons of the command.
  unfoldable pub dispatch : Session → Json → String → Handled
  unfolding on_regist_res on_add_peer_msg on_remove_peer_msg on_offer_msg on_candidate_msg
  dispatch s j cmd =
      if str_eq cmd regist_msg_res
      then on_regist_res s j
      else if str_eq cmd add_peer_msg
      then on_add_peer_msg s j
      else if str_eq cmd remove_peer_msg
      then on_remove_peer_msg s j
      else if str_eq cmd offer_msg
      then on_offer_msg s j
      else if str_eq cmd candidate_msg
      then on_candidate_msg s j
      else some (s, ok, [])

  unfoldable pub received_msg : Session → Text → Handled
  unfolding dispatch string_at
  received_msg s text = elim (json_loads text (strlen text)) [
    | none ↦ some (s, invalid_operation, [])
    | some j ↦ string_at api j command_attr >>= λ cmd. dispatch s j cmd
  ]

  -- _ws_client->Send(msg), whose result the code does not look at.
  unfoldable pub send_text : Session → Json → Handled
  send_text s j = require s.has_ws_client >> some (s, ok, ws_send (json_dumps j) ∷ [])

  -- The client's Open gives its status to _open_m.
  unfoldable pub open_session : Status → Session → String → ℤ → String → Handled
  open_session ok s host port path =
      some (record s { has_ws_client = true }, ok, ws_open host port path ∷ [])
  open_session invalid_operation s host port path = some (
    record s { has_ws_client = false },
    invalid_operation,
    ws_open host port path ∷ post error_msg ∷ [],
  )

  unfoldable pub close_session : Session → Handled
  close_session s = if s.has_ws_client then some (s, ok, ws_close ∷ []) else some (s, ok, [])

  -- A change of state that the listener is told of, if there is one.
  unfoldable pub tell : Session → SessionEffect Text → Handled
  tell s call = if s.has_listener then some (s, ok, call ∷ []) else some (s, ok, [])

  -- `opened` is the status that RTCWebSocketClient::Open gives, where the message opens one. Of a
  -- path that is missing, findString leaves an empty text.
  unfoldable pub on_session_message : Status → Session → SessionMsg Text → Handled
  unfolding open_session close_session tell send_text received_msg regist_req_json command_res_json
      sdp_json candidate_json ice_state_json
  on_session_message opened s (open_msg host port none) = open_session opened s host port ""
  on_session_message opened s (open_msg host port (some path)) =
      open_session opened s host port path
  on_session_message opened s close_msg = close_session s
  on_session_message opened s error_msg = some (s, ok, [])
  on_session_message opened s ws_connected =
      send_text (record s { state = connected }) (regist_req_json api)
  on_session_message opened s ws_disconnected = tell (record s { state = disconnected }) on_closed
  on_session_message opened s ws_error = tell (record s { state = session_error }) on_error
  on_session_message opened s (ws_message text) = received_msg s text
  on_session_message opened s (send_command_res cmd id result) =
      send_text s (command_res_json api cmd id result)
  on_session_message opened s (send_sdp id sdp) = send_text s (sdp_json api id sdp)
  on_session_message opened s (send_candidate id idx mid candidate) =
      send_text s (candidate_json api id idx mid candidate)
  on_session_message opened s (send_ice_state id state desc) =
      send_text s (ice_state_json api id state desc)
