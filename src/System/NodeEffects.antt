-- ===== src/System/NodeEffects.antt =====
-- What the node does, applied to the queues: from phase to phase.
use mathlib.Core.Path.{subst}
use aone_webrtc_stt.Base.{
  All, All-append, ◌≡◌, refl, sym, inl, inr, List, [], ◌∷◌, ◌++◌, Bool-cases, Option-cases,
}
use aone_webrtc_stt.Signaling.Json.{JsonApi}
use aone_webrtc_stt.Signaling.Session.{Session}
use aone_webrtc_stt.Node.ServerNode.{PeerApi, NodeEffect, ServerNode, SignalState, zmq_call, stop_m}
use aone_webrtc_stt.System.Calls.{session_messages, own_node_messages}
use aone_webrtc_stt.System.Turns.{System, do_node_effect, do_node_effects}
use aone_webrtc_stt.System.Phases.{
  starts, opens, IsEarly, IsCalm, IsUnstarted, IsWaiting, IsLive, posted, IsUnstarted-posted,
  IsLive-posted, IsWaiting-posted,
}

module _ (json : JsonApi) (peers : PeerApi) where
  open peers use {Peer}

  abbrev pub IsNoSession : NodeEffect Peer → Type 0
  IsNoSession NodeEffect.session_created = ⊥
  IsNoSession NodeEffect.session_close = Unit
  IsNoSession _ = Unit

  do_node_effect-posted :
      (s : System json peers) (e : NodeEffect Peer)
      → IsNoSession e
      → do_node_effect s e ≡ posted json peers s (own_node_messages e) (session_messages e)
  unfolding do_node_effect
  do_node_effect-posted s NodeEffect.session_created h = elim h [ ]
  do_node_effect-posted s NodeEffect.session_close h = refl
  do_node_effect-posted s _ h = refl

  -- What the node does while its session has a client, and before.
  pub record IsGood (e : NodeEffect Peer) : Type 0 where
    pub no_session : IsNoSession e
    pub none_starts : starts (own_node_messages e) ≡ 0
    pub none_opens : opens (session_messages {A = json.Text} e) ≡ 0

  pub record IsQuiet (e : NodeEffect Peer) : Type 0 where
    pub no_session : IsNoSession e
    pub none_starts : starts (own_node_messages e) ≡ 0
    pub none_opens : opens (session_messages {A = json.Text} e) ≡ 0
    pub calm : All (IsCalm {A = json.Text}) (session_messages e)
    pub early : All IsEarly (own_node_messages e)

  pub effects-IsLive :
      (es : List (NodeEffect Peer)) (s : System json peers) (x : Session)
      → All IsGood es
      → IsLive json peers s x
      → IsLive json peers (do_node_effects s es) x
  unfolding do_node_effects
  effects-IsLive [] s x h v = v
  effects-IsLive (e ∷ es) s x (h, hs) v = effects-IsLive es _ x hs (
      subst (λ t. IsLive json peers t x) (sym (do_node_effect-posted s e h.no_session))
        (IsLive-posted json peers s x (own_node_messages e) (session_messages e) h.none_starts
          h.none_opens v))

  pub effects-IsWaiting :
      (es : List (NodeEffect Peer)) (s : System json peers) (x : Session)
      → All IsQuiet es
      → IsWaiting json peers s x
      → IsWaiting json peers (do_node_effects s es) x
  unfolding do_node_effects
  effects-IsWaiting [] s x h v = v
  effects-IsWaiting (e ∷ es) s x (h, hs) v = effects-IsWaiting es _ x hs (
      subst (λ t. IsWaiting json peers t x) (sym (do_node_effect-posted s e h.no_session))
        (IsWaiting-posted json peers s x (own_node_messages e) (session_messages e) h.early
          h.none_starts h.calm h.none_opens v))

  pub effects-IsUnstarted :
      (es : List (NodeEffect Peer)) (s : System json peers)
      → All IsQuiet es
      → IsUnstarted json peers s
      → IsUnstarted json peers (do_node_effects s es)
  unfolding do_node_effects
  effects-IsUnstarted [] s h v = v
  effects-IsUnstarted (e ∷ es) s (h, hs) v = effects-IsUnstarted es _ hs (
      subst (IsUnstarted json peers) (sym (do_node_effect-posted s e h.no_session)) (
        IsUnstarted-posted json peers s (own_node_messages e) (session_messages e) h.early
          h.none_starts v))

  pub state-IsQuiet : (state : SignalState) → IsQuiet (NodeEffect.on_signal_state state)
  unfolding own_node_messages session_messages starts opens
  state-IsQuiet state = record {
    no_session = tt;
    none_starts = refl;
    none_opens = refl;
    calm = tt;
    early = tt;
  }

  reply-IsQuiet : IsQuiet NodeEffect.reply_ok
  unfolding own_node_messages session_messages starts opens
  reply-IsQuiet = record {
    no_session = tt;
    none_starts = refl;
    none_opens = refl;
    calm = tt;
    early = tt;
  }

  zmq_stop-IsQuiet : (n : ServerNode Peer) → All IsQuiet (zmq_call peers n NodeEffect.zmq_stop)
  unfolding zmq_call own_node_messages session_messages starts opens
  zmq_stop-IsQuiet n = elim (Bool-cases n.has_vad_zmq_client) [
    | inl e ↦
        rw (zmq_call, e)
          (
            record {
              no_session = tt;
              none_starts = refl;
              none_opens = refl;
              calm = tt;
              early = tt;
            },
            tt,
          )
    | inr e ↦ rw (zmq_call, e) tt
  ]

  stop_m-IsQuiet : (n : ServerNode Peer) → All IsQuiet (stop_m peers n)
  unfolding stop_m own_node_messages session_messages starts opens
  stop_m-IsQuiet n = elim (Option-cases n.node_session) [
    | inl e ↦ rw (e, stop_m) (zmq_stop-IsQuiet n)
    | inr (infos, e) ↦
        rw (e, stop_m)
          (All-append IsQuiet (zmq_call peers n NodeEffect.zmq_stop) _ (zmq_stop-IsQuiet n) (
            record {
              no_session = tt;
              none_starts = refl;
              none_opens = refl;
              calm = (tt, tt);
              early = tt;
            },
            tt,
          ))
  ]

  pub stop-IsQuiet :
      (n : ServerNode Peer) → All IsQuiet (stop_m peers n ++ NodeEffect.reply_ok ∷ [])
  stop-IsQuiet n =
      All-append IsQuiet (stop_m peers n) (NodeEffect.reply_ok ∷ []) (stop_m-IsQuiet n)
        (reply-IsQuiet, tt)

  pub quiet-IsGood : (es : List (NodeEffect Peer)) → All IsQuiet es → All IsGood es
  quiet-IsGood [] q = tt
  quiet-IsGood (e ∷ es) (q, qs) = (
    record { no_session = q.no_session; none_starts = q.none_starts; none_opens = q.none_opens },
    quiet-IsGood es qs,
  )
