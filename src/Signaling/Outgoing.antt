-- ===== src/Signaling/Outgoing.antt =====
-- RTCSignalingNodeSession::_regist_req_m, _send_command_res, _send_sdp, _send_candidate and
-- _send_ice_state: the objects that are sent.
use aone_webrtc_stt.Base.{ℤ, String}
use aone_webrtc_stt.Signaling.Json.{JsonApi}
use aone_webrtc_stt.Signaling.Attributes.{
  id_attr, result_attr, command_attr, sdp_attr, m_line_index_attr, regist_msg, ice_state_msg,
  m_id_attr, answer_msg, candidate_msg, ice_state_attr, candidate_attr, ice_state_desc_attr,
}

module _ (api : JsonApi) where
  open api use {Json, json_object, json_object_set_new, json_string, json_integer}

  unfoldable pub regist_req_json : Json
  regist_req_json = json_object_set_new json_object command_attr (json_string regist_msg)

  unfoldable pub command_res_json : String → String → String → Json
  command_res_json cmd id result =
      let o1 = json_object_set_new json_object command_attr (json_string cmd) in
      let o2 = json_object_set_new o1 id_attr (json_string id) in
      json_object_set_new o2 result_attr (json_string result)

  unfoldable pub sdp_json : String → String → Json
  sdp_json id sdp =
      let o1 = json_object_set_new json_object command_attr (json_string answer_msg) in
      let o2 = json_object_set_new o1 id_attr (json_string id) in
      json_object_set_new o2 sdp_attr (json_string sdp)

  unfoldable pub candidate_json : String → ℤ → String → String → Json
  candidate_json id mline_index mid candidate =
      let o1 = json_object_set_new json_object command_attr (json_string candidate_msg) in
      let o2 = json_object_set_new o1 id_attr (json_string id) in
      let o3 = json_object_set_new o2 m_line_index_attr (json_integer mline_index) in
      let o4 = json_object_set_new o3 m_id_attr (json_string mid) in
      json_object_set_new o4 candidate_attr (json_string candidate)

  unfoldable pub ice_state_json : String → ℤ → String → Json
  ice_state_json id state desc =
      let o1 = json_object_set_new json_object command_attr (json_string ice_state_msg) in
      let o2 = json_object_set_new o1 id_attr (json_string id) in
      let o3 = json_object_set_new o2 ice_state_attr (json_integer state) in
      json_object_set_new o3 ice_state_desc_attr (json_string desc)
