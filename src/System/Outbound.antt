-- ===== src/System/Outbound.antt =====
-- From the callbacks of the voice clients to the web socket: the peers, the node and the session, each on
-- the calls or messages of the one before.
use aone_webrtc_stt.Base.{ℤ, IsInt32, String, ◌≡◌, Option, some, List, [], ◌∷◌, ◌++◌, ◌>>=◌}
use aone_webrtc_stt.Signaling.Json.{JsonApi}
use aone_webrtc_stt.Signaling.Attributes.{
  command_attr, id_attr, sdp_attr, m_line_index_attr, m_id_attr, candidate_attr, answer_msg,
  candidate_msg,
}
use aone_webrtc_stt.Signaling.IceServers.{string_at, int32_at}
use aone_webrtc_stt.Signaling.Outgoing.{sdp_json, candidate_json}
use aone_webrtc_stt.Signaling.Session.{Session, SessionMsg}
use aone_webrtc_stt.Node.Peer.{RtcPeer, PeerEffect, on_voice_sdp, on_voice_candidate}
use aone_webrtc_stt.Node.ServerNode.{PeerApi, NodeEffect, ServerNode, on_sdp, on_candidate}
use aone_webrtc_stt.System.Calls.{session_messages}
use aone_webrtc_stt.System.Media.{all_messages}
use aone_webrtc_stt.System.Replies.{sent_texts, run_session_messages}

-- What the voice client of a peer has ready: its description, or a candidate.
pub data VoiceEvent : Type 0 where
  local_sdp : String → VoiceEvent
  local_candidate : ℤ → String → String → VoiceEvent

unfoldable pub on_voice_event : RtcPeer → VoiceEvent → PeerEffect
unfolding on_voice_sdp on_voice_candidate
on_voice_event p (local_sdp sdp) = on_voice_sdp p sdp
on_voice_event p (local_candidate mline_idx mid candidate) =
    on_voice_candidate p mline_idx mid candidate

module _ (peers : PeerApi) where
  -- The node as the listener of a peer.
  unfoldable pub on_peer_effect :
      ServerNode peers.Peer
      → PeerEffect
      → Option (ServerNode peers.Peer × List (NodeEffect peers.Peer))
  unfolding on_sdp on_candidate
  on_peer_effect n (PeerEffect.listener_sdp id sdp) = on_sdp peers n id sdp
  on_peer_effect n (PeerEffect.listener_candidate id mline_idx mid candidate) =
      on_candidate peers n id mline_idx mid candidate
  on_peer_effect n _ = some (n, [])

  unfoldable pub run_voice_events :
      ServerNode peers.Peer
      → List (RtcPeer × VoiceEvent)
      → Option (ServerNode peers.Peer × List (NodeEffect peers.Peer))
  unfolding on_voice_event on_peer_effect
  run_voice_events n [] = some (n, [])
  run_voice_events n ((p, event) ∷ events) =
      on_peer_effect n (on_voice_event p event) >>= λ (n', out).
      run_voice_events n' events >>= λ (n'', rest). some (n'', out ++ rest)

module _ (json : JsonApi) (peers : PeerApi) where
  -- The texts that the session sends for callbacks of the voice clients of peers.
  unfoldable pub outbound :
      Session → ServerNode peers.Peer → List (RtcPeer × VoiceEvent) → Option (List json.Text)
  unfolding run_voice_events all_messages session_messages run_session_messages sent_texts
  outbound s n events = do
    (n', calls) ← run_voice_events peers n events
    (t, sent) ← run_session_messages json peers s (all_messages session_messages calls)
    some (sent_texts sent)

  -- What a text says to one who reads it, apart from how it is made.
  abbrev pub Says : RtcPeer × VoiceEvent → json.Json → Type 0
  Says (p, local_sdp sdp) o =
      (string_at json o command_attr ≡ some answer_msg)
      × (string_at json o id_attr ≡ some p.id)
      × (string_at json o sdp_attr ≡ some sdp)
  Says (p, local_candidate mline_idx mid candidate) o =
      (string_at json o command_attr ≡ some candidate_msg)
      × (string_at json o id_attr ≡ some p.id)
      × (int32_at json o m_line_index_attr ≡ mline_idx)
      × (string_at json o m_id_attr ≡ some mid)
      × (string_at json o candidate_attr ≡ some candidate)

  -- The texts say the events, one each and in order.
  abbrev pub SayAll : List (RtcPeer × VoiceEvent) → List json.Text → Type 0
  SayAll [] [] = Unit
  SayAll (e ∷ es) (text ∷ texts) =
      ((o : json.Json) × (json.json_loads text 0 ≡ some o) × Says e o) × SayAll es texts
  SayAll _ _ = ⊥

  abbrev pub HasInt32 : RtcPeer × VoiceEvent → Type 0
  HasInt32 (p, local_sdp sdp) = Unit
  HasInt32 (p, local_candidate mline_idx mid candidate) = IsInt32 mline_idx

  abbrev call_of : RtcPeer × VoiceEvent → NodeEffect peers.Peer
  call_of (p, local_sdp sdp) = NodeEffect.send_sdp p.id sdp
  call_of (p, local_candidate mline_idx mid candidate) =
      NodeEffect.send_candidate p.id mline_idx mid candidate

  abbrev text_of : RtcPeer × VoiceEvent → json.Text
  text_of (p, local_sdp sdp) = json.json_dumps (sdp_json json p.id sdp)
  text_of (p, local_candidate mline_idx mid candidate) =
      json.json_dumps (candidate_json json p.id mline_idx mid candidate)

  abbrev message_of : RtcPeer × VoiceEvent → SessionMsg json.Text
  message_of (p, local_sdp sdp) = SessionMsg.send_sdp p.id sdp
  message_of (p, local_candidate mline_idx mid candidate) =
      SessionMsg.send_candidate p.id mline_idx mid candidate
