-- ===== src/System/Speech.antt =====
-- From the PCM of a peer to the speech server: RTCPeer::_on_pcm_data and VoiceActive,
-- RTCServerNode::OnVoiceActivity, RTCVADZmqClient::SendVADPCM and its thread.
use aone_webrtc_stt.Speech.Order.{run_thread, turn, messages, message_of, run_thread-drains}
use mathlib.Core.Path.{subst}
use aone_webrtc_stt.Base.{
  length, replicate, ℤ, ℕ, String, ◌≡◌, refl, sym, ap, ◌∙◌, Bool, true, false, Option, some, List,
  [], ◌∷◌, ◌++◌, map, append-nil, append_assoc, ◌>>=◌, bind-some, some_inj,
}
use aone_webrtc_stt.Voice.Pcm.{ABuffer, VadEffect, voices, voices-append}
use aone_webrtc_stt.Voice.Labels.{labels, Follows, stay}
use aone_webrtc_stt.Voice.Resampler.{ResamplerApi}
use aone_webrtc_stt.Voice.Legacy.{LegacyVadApi}
use aone_webrtc_stt.Voice.Rnnoise.{
  RnnoiseApi, RnnoiseVadOf, push_rnnoise_pcm, set_rnnoise_config, new_rnnoise_vad,
}
use aone_webrtc_stt.Voice.Rnnoise.Segments.{push_all, push_all-segments}
use aone_webrtc_stt.Node.Peer.{RtcPeer, PeerEffect}
use aone_webrtc_stt.Node.ServerNode.{PeerApi, ServerNode, NodeEffect, on_voice_activity}
use aone_webrtc_stt.Node.Audio.{
  Unset, VadInterface, rnnoise, PeerAudio, no_audio, on_pcm_data, push_pcm, voice_calls,
}
use aone_webrtc_stt.Speech.Client.{
  VadZmqClient, ProcessorThread, client_start, on_client_message, send_vad_pcm_to,
  push_vad_pcm_buffer, Frame,
}

-- A call of the PCM callback.
pub record PcmCall : Type 0 where
  pub pcm : List ℤ
  pub samples : ℕ
  pub sample_rate : ℕ
  pub channels : ℕ

abbrev samples_of : List PcmCall → List (List ℤ × ℕ)
samples_of [] = []
samples_of (c ∷ calls) = (c.pcm, c.samples) ∷ samples_of calls

-- The effects of the node that are calls of the speech client.
unfoldable pub zmq_calls : {P : Type 0} → VadZmqClient → List (NodeEffect P) → VadZmqClient
unfolding on_client_message send_vad_pcm_to
zmq_calls c [] = c
zmq_calls c (NodeEffect.send_vad_pcm id buffer ∷ out) =
    zmq_calls (on_client_message true c (send_vad_pcm_to id buffer)).0 out
zmq_calls c (_ ∷ out) = zmq_calls c out

-- What the calls of a peer's listener leave of the speech client.
unfoldable pub carry :
    (P : PeerApi) → ServerNode P.Peer → VadZmqClient → List PeerEffect → Option VadZmqClient
unfolding on_voice_activity zmq_calls
carry P n c [] = some c
carry P n c (PeerEffect.listener_voice_activity id buffer ∷ es) =
    on_voice_activity P n id buffer >>= λ (m, out). carry P m (zmq_calls c out) es
carry P n c (_ ∷ es) = carry P n c es

module _ (va : LegacyVadApi) (na : RnnoiseApi) (ra : ResamplerApi)
    (u : Unset va.Vad ra.Resampler na.Float) where
  unfoldable pub run_pcm :
      PeerAudio va na ra → List PcmCall → Option (PeerAudio va na ra × List VadEffect)
  run_pcm a [] = some (a, [])
  run_pcm a (c ∷ calls) =
      on_pcm_data va na ra u a c.pcm c.samples c.sample_rate c.channels >>= λ (b, out).
      run_pcm b calls >>= λ (d, rest). some (d, out ++ rest)

  abbrev hearing : RnnoiseVadOf na ra → PeerAudio va na ra
  hearing v = record { is_first_pcm = true; vad = some (rnnoise v) }

  on_pcm_data-push :
      (v : RnnoiseVadOf na ra) (c : PcmCall) (q : PeerAudio va na ra × List VadEffect)
      → on_pcm_data va na ra u (hearing v) c.pcm c.samples c.sample_rate c.channels ≡ some q
      → (p : RnnoiseVadOf na ra × List VadEffect) × (push_rnnoise_pcm na ra v c.pcm c.samples
          ≡ some p)
        × (q ≡ (hearing p.0, p.1))
  unfolding on_pcm_data
  on_pcm_data-push v c q e =
      let (m, pushed, e') = bind-some (push_pcm va na ra (rnnoise v) c.pcm c.samples) _ e in
      let (p, done, e'') = bind-some (push_rnnoise_pcm na ra v c.pcm c.samples) _ pushed in
      (
        p,
        done,
        sym (some_inj e')
            ∙ ap
                (λ (m : VadInterface va na ra × List VadEffect).
                  (record (hearing v) { vad = some m.0 }, m.1))
                (sym (some_inj e'')),
      )

  -- The calls of a peer with an RNNoise detector are the pushes of the detector.
  rnnoise-push_all :
      (calls : List PcmCall) (v : RnnoiseVadOf na ra) (r : PeerAudio va na ra × List VadEffect)
      → run_pcm (hearing v) calls ≡ some r
      → (w : RnnoiseVadOf na ra) × (push_all na ra v (samples_of calls) ≡ some (w, voices r.1))
  unfolding run_pcm push_all voices
  rnnoise-push_all [] v r e =
      (v, ap (λ (q : PeerAudio va na ra × List VadEffect). some (v, voices q.1)) (some_inj e))
  rnnoise-push_all (c ∷ calls) v r e =
      let (q, heard, e') =
        bind-some (on_pcm_data va na ra u (hearing v) c.pcm c.samples c.sample_rate c.channels) _
          e in
      let (d, rest, e'') = bind-some (run_pcm q.0 calls) _ e' in
      let (p, pushed, same) = on_pcm_data-push v c q heard in
      let (w, ws) = rnnoise-push_all calls p.0 d (
        subst (λ (q : PeerAudio va na ra × List VadEffect). run_pcm q.0 calls ≡ some d) same
          rest) in
      (
        w,
        subst
            (λ (r : PeerAudio va na ra × List VadEffect).
              push_all na ra v (samples_of (c ∷ calls)) ≡ some (w, voices r.1))
            (some_inj e'')
            (subst
              (λ (q : PeerAudio va na ra × List VadEffect).
                push_all na ra v (samples_of (c ∷ calls)) ≡ some (w, voices (q.1 ++ d.1)))
              (sym same) (rw (pushed, ws, voices-append p.1 d.1))),
      )

  -- The first call makes a detector that sends, is silent and has nothing pending.
  run_pcm-segments :
      (calls : List PcmCall) (r : PeerAudio va na ra × List VadEffect)
      → run_pcm (no_audio va na ra) calls ≡ some r
      → (b : Bool) × Follows false (labels (voices r.1)) b
  unfolding run_pcm on_pcm_data voices set_rnnoise_config new_rnnoise_vad
  run_pcm-segments [] r e = (
    false,
    subst (λ (q : PeerAudio va na ra × List VadEffect). Follows false (labels (voices q.1)) false)
        (some_inj e) stay,
  )
  run_pcm-segments (c ∷ calls) r e =
      let v : RnnoiseVadOf na ra =
        set_rnnoise_config na ra
          (new_rnnoise_vad na ra u.resampler u.mono u.floats u.pcm16 u.sampling_rate u.channels
            true)
          c.sample_rate c.channels in
      let (w, pushed) = rnnoise-push_all (c ∷ calls) v r e in
      push_all-segments na ra v (samples_of (c ∷ calls)) (w, voices r.1) refl refl refl pushed

-- The voices as SendVADPCM names them.
abbrev pub tagged : String → List ABuffer → List ABuffer
tagged id [] = []
tagged id (b ∷ bs) = record b { meta_id = some id } ∷ tagged id bs

voice_heard :
    (P : PeerApi) (n : ServerNode P.Peer) (id : String) (b : ABuffer)
    → n.has_vad_zmq_client ≡ true
    → on_voice_activity P n id b ≡ some (n, NodeEffect.send_vad_pcm id b ∷ [])
unfolding on_voice_activity
voice_heard P n id b on = simp on

carried :
    (P : PeerApi) (n : ServerNode P.Peer) (p : RtcPeer) (out : List VadEffect) (t : ProcessorThread)
    → n.has_vad_zmq_client ≡ true
    → carry P n (record { thread = some t; state = client_start }) (voice_calls p out)
      ≡ some (record {
        thread = some (record t { active_voices = t.active_voices ++ tagged p.id (voices out) });
        state = client_start;
      })
unfolding carry voice_calls voices on_voice_activity on_client_message zmq_calls push_vad_pcm_buffer
carried P n p [] t on = rw (append-nil t.active_voices)
carried P n p (VadEffect.voice_active b ∷ out) t on =
    let voice = record b { meta_id = some p.id } in
    rw (voice_heard P n p.id b on) (
      carried P n p out (push_vad_pcm_buffer t voice) on
      ∙ ap
          (λ vs.
            some (record { thread = some (record t { active_voices = vs }); state = client_start }))
          (append_assoc t.active_voices (voice ∷ []) (tagged p.id (voices out))))
carried P n p (VadEffect.dump_file name bytes ∷ out) t on = carried P n p out t on

-- A peer without audio yet, whatever PCM its callback is given without a fault; a node with a speech
-- client that is started, whose thread has a socket and is not stopping: the client takes every voice
-- of the detector, in order and under the peer's name, behind those that its thread has queued; in as
-- many turns as it has then queued the thread sends them all without a fault, as whole messages and
-- in that order; and the labels of the voices form segments, of which the last may still be open.
pub pcm_reaches_server :
    (va : LegacyVadApi) (na : RnnoiseApi) (ra : ResamplerApi)
    (u : Unset va.Vad ra.Resampler na.Float) (P : PeerApi) (n : ServerNode P.Peer) (p : RtcPeer)
    (t : ProcessorThread) (calls : List PcmCall) (r : PeerAudio va na ra × List VadEffect)
    → run_pcm va na ra u (no_audio va na ra) calls ≡ some r
    → n.has_vad_zmq_client ≡ true
    → t.has_socket ≡ true
    → t.is_stoping ≡ false
    → (w : ProcessorThread) × (out : List Frame) × (b : Bool) × (carry P n
          (record { thread = some t; state = client_start })
          (voice_calls p r.1)
        ≡ some (record { thread = some w; state = client_start }))
      × (run_thread w (replicate (length w.active_voices) turn)
          ≡ some (record w { active_voices = [] }, out))
      × (messages [] out ≡ map message_of (t.active_voices ++ tagged p.id (voices r.1)))
      × Follows false (labels (voices r.1)) b
pcm_reaches_server va na ra u P n p t calls r heard on socket going =
    let w = record t { active_voices = t.active_voices ++ tagged p.id (voices r.1) } in
    let (out, sent, whole) = run_thread-drains w socket going in
    let (b, f) = run_pcm-segments va na ra u calls r heard in
    (w, out, b, carried P n p r.1 t on, sent, whole, f)
