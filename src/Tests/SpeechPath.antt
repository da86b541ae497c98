-- ===== src/Tests/SpeechPath.antt =====
-- Six frames of speech of one peer, from its first PCM to the speech server.
use aone_webrtc_stt.Base.{
  length, replicate, read, write, ℤ, pos, String, ◌≡◌, refl, Bool, true, false, some, List, [], ◌∷◌,
  ◌++◌, map,
}
use aone_webrtc_stt.Voice.Pcm.{VadEffect, voices}
use aone_webrtc_stt.Voice.Stt.{send_stt_pcm}
use aone_webrtc_stt.Voice.Labels.{labels, Follows}
use aone_webrtc_stt.Voice.Rnnoise.{push_rnnoise_pcm}
use aone_webrtc_stt.Node.Peer.{create_peer}
use aone_webrtc_stt.Node.ServerNode.{ServerNode, signal_opened}
use aone_webrtc_stt.Node.Audio.{Unset, PeerAudio, no_audio, on_pcm_data, voice_calls}
use aone_webrtc_stt.Speech.Client.{ProcessorThread, Frame, client_start}
use aone_webrtc_stt.Speech.Order.{run_thread, messages, message_of, turn}
use aone_webrtc_stt.System.Speech.{PcmCall, run_pcm, carry, tagged, pcm_reaches_server}
use aone_webrtc_stt.Tests.Audio.{padded, by_loudness, padded, noisy, passing, silence, value}
use aone_webrtc_stt.Tests.Peers.{named}

abbrev unset : Unset (Unit {0}) (Unit {0}) ℤ
unset = record {
  vad = tt;
  resampler = tt;
  mono = silence 4;
  floats = silence 4;
  pcm16 = silence 400;
  sampling_rate = 0;
  channels = 0;
}

abbrev six_calls : List PcmCall
six_calls =
    replicate 6 (record { pcm = replicate 4 (pos 1); samples = 2; sample_rate = 200; channels = 1 })

abbrev heard : PeerAudio by_loudness noisy passing × List VadEffect
heard =
    value (run_pcm by_loudness noisy passing unset (no_audio by_loudness noisy passing) six_calls)
      (no_audio by_loudness noisy passing, [])

calls_heard :
    run_pcm by_loudness noisy passing unset (no_audio by_loudness noisy passing) six_calls
    ≡ some heard
unfolding run_pcm on_pcm_data push_rnnoise_pcm write padded read send_stt_pcm
calls_heard = refl

heard_labels : labels (voices heard.1) ≡ some "start" ∷ []
unfolding run_pcm on_pcm_data push_rnnoise_pcm write padded read send_stt_pcm voices
heard_labels = refl

abbrev node : ServerNode String
node = record {
  node_session = some [];
  signal_state = signal_opened;
  peers = [];
  has_vad_zmq_client = true;
}

abbrev connected : ProcessorThread
connected = record { active_voices = []; is_stoping = false; has_ctx = true; has_socket = true }

pcm_reaches_server_example :
    (w : ProcessorThread) × (out : List Frame) × (b : Bool) × (carry named node
        (record { thread = some connected; state = client_start })
        (voice_calls (create_peer "ann" []) heard.1)
      ≡ some (record { thread = some w; state = client_start }))
    × (run_thread w (replicate (length w.active_voices) turn)
        ≡ some (record w { active_voices = [] }, out))
    × (messages [] out
        ≡ map message_of
            (connected.active_voices ++ tagged (create_peer "ann" []).id (voices heard.1)))
    × Follows false (labels (voices heard.1)) b
pcm_reaches_server_example =
    pcm_reaches_server by_loudness noisy passing unset named node (create_peer "ann" []) connected
      six_calls heard calls_heard refl refl refl
