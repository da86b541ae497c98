-- ===== src/Tests/Replies.antt =====
-- Requests to add and to remove a peer, and the replies on the web socket.
use aone_webrtc_stt.Base.{String, ◌≡◌, refl, ◌⊎◌, some, [], ok}
use aone_webrtc_stt.Signaling.Attributes.{command_attr, id_attr, add_peer_msg, remove_peer_msg}
use aone_webrtc_stt.Signaling.IceServers.{string_at}
use aone_webrtc_stt.System.Replies.{Replies, IsRefused, reply_path-add_peer, reply_path-remove_peer}
use aone_webrtc_stt.Tests.Messages.{Tree, object, set, a_text, trees, session}
use aone_webrtc_stt.Tests.Peers.{named, node}

abbrev request : String → Tree
request cmd = set (set object command_attr (a_text cmd)) id_attr (a_text "bob")

request_command : (cmd : String) → string_at trees (request cmd) command_attr ≡ some cmd
unfolding string_at
request_command cmd = refl

request_id : (cmd : String) → string_at trees (request cmd) id_attr ≡ some "bob"
unfolding string_at
request_id cmd = refl

reply_path-add_peer_example :
    ((peer : String) × (named.create_rtc_peer "bob" [] ≡ some peer)
      × (named.create_voice_client peer ≡ ok)
      × Replies trees named session node (request add_peer_msg) "add_peer_res" "bob" "success")
    ⊎ (IsRefused trees named [] "bob"
        × Replies trees named session node (request add_peer_msg) "add_peer_res" "bob" "fail")
reply_path-add_peer_example =
    reply_path-add_peer trees named session node (request add_peer_msg) (request add_peer_msg) "bob"
      [] refl refl refl (request_command add_peer_msg) (request_id add_peer_msg) refl

reply_path-remove_peer_example :
    Replies trees named session node (request remove_peer_msg) "remove_peer_res" "bob" "success"
reply_path-remove_peer_example =
    reply_path-remove_peer trees named session node (request remove_peer_msg)
      (request remove_peer_msg) "bob" [] refl refl refl (request_command remove_peer_msg)
      (request_id remove_peer_msg) refl
