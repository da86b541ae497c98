-- ===== src/Tests/Media.antt =====
-- An offer and a candidate for the peer "ann", from the text to its voice client.
use aone_webrtc_stt.Base.{pos, String, ◌≡◌, refl, true, some, List, [], ◌∷◌, ok}
use aone_webrtc_stt.Signaling.Attributes.{command_attr, id_attr, sdp_attr, offer_msg}
use aone_webrtc_stt.Signaling.IceServers.{string_at}
use aone_webrtc_stt.Node.Peers.{find}
use aone_webrtc_stt.Node.ServerNode.{ServerNode}
use aone_webrtc_stt.Node.Peer.{VoiceClientApi, RtcPeer, create_peer, voice_set_remote_description}
use aone_webrtc_stt.System.Outbound.{VoiceEvent, local_sdp, local_candidate}
use aone_webrtc_stt.System.Media.{media_path, media_path-offer}
use aone_webrtc_stt.Tests.Messages.{Tree, object, set, a_text, trees, session}
use aone_webrtc_stt.Tests.Peers.{named, node, voice_client}

abbrev taking : VoiceClientApi
taking = record voice_client { set_remote_description_status = λ sdp. ok }

abbrev ann : RtcPeer
ann = record (create_peer "ann" []) { has_voice_client = true }

abbrev offer : Tree
offer =
    set (set (set object command_attr (a_text offer_msg)) id_attr (a_text "ann")) sdp_attr
      (a_text "v=0")

offer_command : string_at trees offer command_attr ≡ some offer_msg
unfolding string_at
offer_command = refl

offer_id : string_at trees offer id_attr ≡ some "ann"
unfolding string_at
offer_id = refl

offer_sdp : string_at trees offer sdp_attr ≡ some "v=0"
unfolding string_at
offer_sdp = refl

-- The peers behind the pointers, which are their names.
abbrev state_of : String → RtcPeer
state_of name = record (create_peer name []) { has_voice_client = true }

-- Ann is not the first of the peers.
abbrev two_peers : ServerNode String
two_peers = record node { peers = ("bob", "bob") ∷ ("ann", "ann") ∷ [] }

ann_found : find "ann" two_peers.peers ≡ some "ann"
unfolding find
ann_found = refl

media_path-offer_example :
    media_path trees named taking session two_peers state_of offer
    ≡ some (("ann", voice_set_remote_description "v=0") ∷ [])
media_path-offer_example =
    media_path-offer trees named taking session two_peers state_of "ann" offer offer "ann" "v=0"
      refl refl offer_command offer_id offer_sdp ann_found refl refl

-- An answer and a candidate of ann.
abbrev ready : List (RtcPeer × VoiceEvent)
ready = (ann, local_sdp "v=0") ∷ (ann, local_candidate (pos 1) "0" "udp") ∷ []
