-- ===== src/Signaling/Attributes.antt =====
-- rtc_server_node/RTCSignalingNodeSession.cc: the names of the attributes, commands and results.
use aone_webrtc_stt.Base.{String}

abbrev pub command_attr : String
command_attr = "cmd"

abbrev pub id_attr : String
id_attr = "id"

abbrev pub result_attr : String
result_attr = "result"

abbrev pub ice_info_attr : String
ice_info_attr = "iceinfo"

abbrev pub sdp_attr : String
sdp_attr = "sdp"

abbrev pub candidate_attr : String
candidate_attr = "candidate"

abbrev pub m_line_index_attr : String
m_line_index_attr = "mline_index"

abbrev pub m_id_attr : String
m_id_attr = "mid"

abbrev pub url_attr : String
url_attr = "url"

abbrev pub user_name_attr : String
user_name_attr = "username"

abbrev pub credential_attr : String
credential_attr = "credential"

abbrev pub ice_state_attr : String
ice_state_attr = "state"

abbrev pub ice_state_desc_attr : String
ice_state_desc_attr = "desc"

abbrev pub regist_msg : String
regist_msg = "regist"

abbrev pub regist_msg_res : String
regist_msg_res = "regist_res"

abbrev pub add_peer_msg : String
add_peer_msg = "add_peer"

abbrev pub remove_peer_msg : String
remove_peer_msg = "remove_peer"

abbrev pub offer_msg : String
offer_msg = "offer"

abbrev pub answer_msg : String
answer_msg = "answer"

abbrev pub candidate_msg : String
candidate_msg = "candidate"

abbrev pub ice_state_msg : String
ice_state_msg = "iceState"

abbrev pub success : String
success = "success"
