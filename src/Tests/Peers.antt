-- ===== src/Tests/Peers.antt =====
-- The node and its peers at concrete requests. A peer is its name, and "bad" has no voice client.
use text.Mathlib.Text.{◌==◌ as str_eq}
use aone_webrtc_stt.Base.{
  String, ◌≡◌, refl, ◌⊎◌, true, none, some, List, [], ◌∷◌, if◌then◌else◌, ok, invalid_operation,
}
use aone_webrtc_stt.Node.Peers.{find}
use aone_webrtc_stt.Node.ServerNode.{
  PeerApi, ServerNode, NodeEffect, send_command_res, peer_close, remove_peer_req, on_node_message,
  signal_opened,
}
use aone_webrtc_stt.Node.Requests.{remove_peer_lem}
use aone_webrtc_stt.Node.Peer.{
  VoiceClientApi, PeerMsg, create_voice_client_msg, set_remote_description, close_msg, create_peer,
  run_peer,
}
use aone_webrtc_stt.Node.Lifecycle.{Uses, answers, requests, run_peer-Uses, run_peer-answers}

abbrev pub named : PeerApi
named = record {
  Peer = String;
  create_rtc_peer = λ id infos. some id;
  create_voice_client = λ id. if str_eq id "bad" then invalid_operation else ok;
  set_sdp = λ id sdp. ok;
  set_candidate = λ id idx mid candidate. ok;
}

abbrev pub node : ServerNode String
node = record {
  node_session = some [];
  signal_state = signal_opened;
  peers = ("ann", "ann") ∷ [];
  has_vad_zmq_client = true;
}

remove_peer_lem_example :
    (r : ServerNode String × List (NodeEffect String)) × (on_node_message named true ok node
        (remove_peer_req "ann")
      ≡ some r)
    × ((j : String) → find j r.0.peers ≡ (if str_eq "ann" j then none else find j node.peers))
    × (((find "ann" node.peers ≡ none)
          × (r.1 ≡ send_command_res "remove_peer_res" "ann" "success" ∷ []))
        ⊎ ((peer : String) × (find "ann" node.peers ≡ some peer)
            × (r.1 ≡ peer_close peer ∷ send_command_res "remove_peer_res" "ann" "success" ∷ [])))
remove_peer_lem_example = remove_peer_lem named node "ann" [] true ok refl

abbrev pub voice_client : VoiceClientApi
voice_client = record {
  create = λ infos. true;
  open_client = λ infos. ok;
  set_remote_description_status = λ sdp. invalid_operation;
}

abbrev create_and_close : List PeerMsg
create_and_close =
    create_voice_client_msg ∷ set_remote_description "v=0" ∷ close_msg ∷ close_msg ∷ []

run_peer-Uses_example :
    let r = run_peer voice_client (create_peer "ann" []) create_and_close in
    Uses voice_client (create_peer "ann" []).has_voice_client r.1 r.0.has_voice_client
run_peer-Uses_example = run_peer-Uses voice_client create_and_close (create_peer "ann" [])

run_peer-answers_example :
    answers (run_peer voice_client (create_peer "ann" []) create_and_close).1
    ≡ requests create_and_close
run_peer-answers_example = run_peer-answers voice_client create_and_close (create_peer "ann" [])
