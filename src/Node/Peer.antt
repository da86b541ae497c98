-- ===== src/Node/Peer.antt =====
-- rtc_peer/RTCPeer.h and .cc, RTCPeerFactory.cc and RTCPeerInterface.h: the peer of one client. A
-- message of its looper is a value; handling one gives the new state and what the peer does, replies
-- included. The voice client (aone::voice::RTCAOneVoiceClient, a binary) is a parameter: whether it is
-- created and opens, and the status of its calls. A detector is made by the first PCM.
use aone_webrtc_stt.Base.{
  ℤ, String, Bool, true, false, Option, some, List, [], ◌∷◌, ◌++◌, if◌then◌else◌, is_ok, Status, ok,
  invalid_operation,
}
use aone_webrtc_stt.Voice.Pcm.{ABuffer}
use aone_webrtc_stt.Signaling.IceServers.{IceServerInfo}

-- RTCPeerInterface::RTCPeerState.
pub data PeerState : Type 0 where
  uninit init voice_client_created offer_description_set answer_created answer_description_set
        peer_error :
      PeerState

pub data PeerMsg : Type 0 where
  create_voice_client_msg : PeerMsg
  set_remote_description : String → PeerMsg
  remote_candidate : ℤ → String → String → PeerMsg
  close_msg : PeerMsg
  error_msg : PeerState → String → PeerMsg

-- RTCAOneVoiceClient::Create and the calls of the voice client; a status is ok where the code takes
-- the returned number as a success.
pub record VoiceClientApi : Type 0 where
  pub create : List IceServerInfo → Bool
  pub open_client : List IceServerInfo → Status
  pub set_remote_description_status : String → Status

pub data PeerEffect : Type 0 where
  reply : Status → PeerEffect
  voice_create : List IceServerInfo → PeerEffect
  voice_open voice_close set_pcm_callback clear_pcm_callback : PeerEffect
  voice_set_remote_description : String → PeerEffect
  voice_set_remote_ice_candidate : ℤ → String → String → PeerEffect
  post : PeerMsg → PeerEffect
  listener_sdp : String → String → PeerEffect
  listener_candidate : String → ℤ → String → String → PeerEffect
  listener_voice_activity : String → ABuffer → PeerEffect

pub record RtcPeer : Type 0 where
  pub id : String
  pub ice_servers : List IceServerInfo
  pub has_voice_client : Bool
  pub state : PeerState

-- Create: the constructor, which copies the servers one by one, and _init.
unfoldable pub copy_servers : List IceServerInfo → List IceServerInfo
copy_servers [] = []
copy_servers (it ∷ rest) =
    let info : IceServerInfo = record {
      is_stun = it.is_stun;
      uri = it.uri;
      user_name = it.user_name;
      credential = it.credential;
    } in
    info ∷ copy_servers rest

unfoldable pub create_peer : String → List IceServerInfo → RtcPeer
unfolding copy_servers
create_peer id rtc_ice_infos = record {
  id = id;
  ice_servers = copy_servers rtc_ice_infos;
  has_voice_client = false;
  state = init;
}

-- RTCPeerFactory::CreateRTCPeer.
unfoldable pub create_rtc_peer : String → List IceServerInfo → Option RtcPeer
unfolding create_peer
create_rtc_peer id rtc_ice_infos = some (create_peer id rtc_ice_infos)

module _ (api : VoiceClientApi) where
  open api use {create, open_client, set_remote_description_status}

  -- The rest of _create_voice_client_m, behind the status of Open.
  unfoldable pub opened_voice_client : Status → RtcPeer → RtcPeer × Status × List PeerEffect
  opened_voice_client invalid_operation p =
      (record p { has_voice_client = true }, invalid_operation, voice_open ∷ [])
  opened_voice_client ok p = (
    record p { has_voice_client = true; state = voice_client_created },
    ok,
    voice_open ∷ set_pcm_callback ∷ [],
  )

  unfoldable pub create_voice_client_m : RtcPeer → RtcPeer × Status × List PeerEffect
  unfolding opened_voice_client
  create_voice_client_m p =
      let opened = opened_voice_client (open_client p.ice_servers) p in
      if create p.ice_servers
      then (opened.0, opened.1, voice_create p.ice_servers ∷ opened.2)
      else (
        record p { has_voice_client = false },
        invalid_operation,
        voice_create p.ice_servers ∷ [],
      )

  unfoldable pub set_offer_description_m : RtcPeer → String → Status × List PeerEffect
  set_offer_description_m p sdp =
      if p.has_voice_client
      then (set_remote_description_status sdp, voice_set_remote_description sdp ∷ [])
      else (invalid_operation, [])

  unfoldable pub set_remote_candidate_m : RtcPeer → ℤ → String → String → Status × List PeerEffect
  set_remote_candidate_m p mline_idx mid candidate =
      if p.has_voice_client
      then (ok, voice_set_remote_ice_candidate mline_idx mid candidate ∷ [])
      else (invalid_operation, [])

  unfoldable pub close_m : RtcPeer → RtcPeer × Status × List PeerEffect
  close_m p =
      if p.has_voice_client
      then (record p { has_voice_client = false }, ok, clear_pcm_callback ∷ voice_close ∷ [])
      else (p, ok, [])

  -- A failure is an error state, for the calls that answer.
  unfoldable pub answered : RtcPeer × Status × List PeerEffect → RtcPeer × List PeerEffect
  answered (p, status, out) =
      (if is_ok status then p else record p { state = peer_error }, out ++ reply status ∷ [])

  unfoldable pub described : RtcPeer → Status × List PeerEffect → RtcPeer × List PeerEffect
  described p (status, out) =
      if is_ok status
      then (record p { state = offer_description_set }, out)
      else (record p { state = peer_error }, out ++ post (error_msg p.state "setOffer") ∷ [])

  unfoldable pub on_peer_message : RtcPeer → PeerMsg → RtcPeer × List PeerEffect
  unfolding create_voice_client_m set_offer_description_m set_remote_candidate_m close_m answered
      described
  on_peer_message p create_voice_client_msg = answered (create_voice_client_m p)
  on_peer_message p (set_remote_description sdp) = described p (set_offer_description_m p sdp)
  on_peer_message p (remote_candidate mline_idx mid candidate) =
      (p, (set_remote_candidate_m p mline_idx mid candidate).1)
  on_peer_message p close_msg = answered (close_m p)
  on_peer_message p (error_msg last_state desc) = (p, [])

  unfoldable pub run_peer : RtcPeer → List PeerMsg → RtcPeer × List PeerEffect
  unfolding on_peer_message
  run_peer p [] = (p, [])
  run_peer p (m ∷ ms) =
      let (q, out) = on_peer_message p m in let (r, rest) = run_peer q ms in (r, out ++ rest)

-- RTCAOneVoiceClientListener, and RTCPeer::VoiceActive: what the peer passes on under its name.
unfoldable pub on_voice_sdp : RtcPeer → String → PeerEffect
on_voice_sdp p sdp = listener_sdp p.id sdp

unfoldable pub on_voice_candidate : RtcPeer → ℤ → String → String → PeerEffect
on_voice_candidate p mline_idx mid candidate = listener_candidate p.id mline_idx mid candidate

unfoldable pub voice_active : RtcPeer → ABuffer → PeerEffect
voice_active p buffer = listener_voice_activity p.id buffer
