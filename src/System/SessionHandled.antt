-- ===== src/System/SessionHandled.antt =====
-- The handlers of the session, by what their effects post.
use mathlib.Core.Path.{subst}
use aone_webrtc_stt.Base.{
  All, ◌≡◌, refl, sym, ◌∙◌, ◌⊎◌, inl, inr, true, Option, none, some, List, [], ◌∷◌, arith,
  Option-cases, Status, ok,
}
use aone_webrtc_stt.Signaling.Json.{JsonApi}
use aone_webrtc_stt.Signaling.Outgoing.{
  regist_req_json, command_res_json, sdp_json, candidate_json, ice_state_json,
}
use aone_webrtc_stt.Signaling.Session.{
  SessionMsg, SessionEffect, Session, on_session_message, received_msg, connected, disconnected,
  session_error, close_session, tell, send_text,
}
use aone_webrtc_stt.Signaling.Understood.{Understood, IsReport, received_msg-Reports}
use aone_webrtc_stt.Signaling.Needs.{received_msg-Understood}
use aone_webrtc_stt.Node.ServerNode.{PeerApi}
use aone_webrtc_stt.System.Calls.{node_messages, own_session_messages}
use aone_webrtc_stt.System.Turns.{System, do_session_effects}
use aone_webrtc_stt.System.Phases.{
  starts, opens, IsEarly, IsCalm, IsLive, IsWaiting, IsLive-posted, IsWaiting-posted,
}

starts-node_messages : {A : Type 0} (e : SessionEffect A) → starts (node_messages e) ≡ 0
unfolding starts node_messages
starts-node_messages (SessionEffect.ws_open host port path) = refl
starts-node_messages SessionEffect.ws_close = refl
starts-node_messages (SessionEffect.ws_send text) = refl
starts-node_messages (SessionEffect.post m) = refl
starts-node_messages SessionEffect.on_opened = refl
starts-node_messages SessionEffect.on_closed = refl
starts-node_messages SessionEffect.on_error = refl
starts-node_messages (SessionEffect.on_add_peer id) = refl
starts-node_messages (SessionEffect.on_remove_peer id) = refl
starts-node_messages (SessionEffect.on_peer_sdp id sdp) = refl
starts-node_messages (SessionEffect.on_peer_candidate id idx mid candidate) = refl

module _ (json : JsonApi) (peers : PeerApi) where
  -- What a session posts to itself opens nothing.
  abbrev pub IsGood : SessionEffect json.Text → Type 0
  IsGood e = opens (own_session_messages e) ≡ 0

  report-IsGood : (e : SessionEffect json.Text) → IsReport json e → IsGood e
  unfolding own_session_messages opens
  report-IsGood (SessionEffect.post m) h = subst (λ n. IsGood (SessionEffect.post n)) (sym h) refl
  report-IsGood (SessionEffect.ws_open host port path) h = refl
  report-IsGood SessionEffect.ws_close h = refl
  report-IsGood (SessionEffect.ws_send text) h = refl
  report-IsGood SessionEffect.on_opened h = refl
  report-IsGood SessionEffect.on_closed h = refl
  report-IsGood SessionEffect.on_error h = refl
  report-IsGood (SessionEffect.on_add_peer id) h = refl
  report-IsGood (SessionEffect.on_remove_peer id) h = refl
  report-IsGood (SessionEffect.on_peer_sdp id sdp) h = refl
  report-IsGood (SessionEffect.on_peer_candidate id idx mid candidate) h = refl

  reports-IsGood : (es : List (SessionEffect json.Text)) → All (IsReport json) es → All IsGood es
  reports-IsGood [] h = tt
  reports-IsGood (e ∷ es) (h, hs) = (report-IsGood e h, reports-IsGood es hs)

  pub effects-IsLive :
      (es : List (SessionEffect json.Text)) (s : System json peers) (x : Session)
      → All IsGood es
      → IsLive json peers s x
      → IsLive json peers (do_session_effects s es) x
  unfolding do_session_effects
  effects-IsLive [] s x h v = v
  effects-IsLive (e ∷ es) s x (none_opens, hs) v = effects-IsLive es _ x hs (
      IsLive-posted json peers s x (node_messages e) (own_session_messages e)
        (starts-node_messages e) none_opens v)

  -- What a handler of a session with a listener and a client does.
  pub record Stays (r : Session × Status × List (SessionEffect json.Text)) : Type 0 where
    pub listener : r.0.has_listener ≡ true
    pub client : r.0.has_ws_client ≡ true
    pub good : All IsGood r.2

  abbrev pub Handles : Option (Session × Status × List (SessionEffect json.Text)) → Type 0
  Handles done = (r : Session × Status × List (SessionEffect json.Text)) × (done ≡ some r) × Stays r

  sent :
      (x : Session) (j : json.Json)
      → x.has_listener ≡ true
      → x.has_ws_client ≡ true
      → Handles (send_text json x j)
  unfolding send_text own_session_messages opens
  sent x j l c = (
    (x, ok, SessionEffect.ws_send (json.json_dumps j) ∷ []),
    rw c,
    record { listener = l; client = c; good = (refl, tt) },
  )

  told :
      (x : Session) (call : SessionEffect json.Text)
      → x.has_listener ≡ true
      → x.has_ws_client ≡ true
      → IsGood call
      → Handles (tell json x call)
  unfolding tell
  told x call l c g =
      ((x, ok, call ∷ []), rw l, record { listener = l; client = c; good = (g, tt) })

  -- The one message that a session with a listener and a client cannot handle.
  abbrev pub IsMisunderstood : SessionMsg json.Text → Type 0
  IsMisunderstood m = (text : json.Text) × (m ≡ SessionMsg.ws_message text) × ¬ Understood json text

  message_handled :
      (opened : Status) (x : Session) (text : json.Text)
      → x.has_listener ≡ true
      → x.has_ws_client ≡ true
      → Handles (received_msg json x text)
        ⊎ (received_msg json x text ≡ none) × IsMisunderstood (SessionMsg.ws_message text)
  message_handled opened x text l c = elim (Option-cases (received_msg json x text)) [
    | inl fault ↦ inr (
      fault,
      (text, refl, λ u. let (r, e, _) = received_msg-Reports json x l text u in cc (sym fault ∙ e)),
    )
    | inr (q, done) ↦
        let u = (received_msg-Understood json x text l).0 (λ fault. cc (sym fault ∙ done)) in
        let (r, e, p) = received_msg-Reports json x l text u in
        inl (
          r,
          e,
          record {
            listener = p.listener ∙ l;
            client = p.client ∙ c;
            good = reports-IsGood r.2 p.reports;
          },
        )
  ]

  pub handled :
      (opened : Status) (x : Session) (m : SessionMsg json.Text)
      → x.has_listener ≡ true
      → x.has_ws_client ≡ true
      → opens (m ∷ []) ≡ 0
      → Handles (on_session_message json opened x m)
        ⊎ (on_session_message json opened x m ≡ none) × IsMisunderstood m
  unfolding on_session_message close_session opens own_session_messages
  handled opened x (SessionMsg.open_msg host port path) l c o = absurd (omega arith)
  handled opened x SessionMsg.close_msg l c o = inl (
    (x, ok, SessionEffect.ws_close ∷ []),
    rw c,
    record { listener = l; client = c; good = (refl, tt) },
  )
  handled opened x SessionMsg.error_msg l c o =
      inl ((x, ok, []), refl, record { listener = l; client = c; good = tt })
  handled opened x SessionMsg.ws_connected l c o =
      inl (sent (record x { state = connected }) (regist_req_json json) l c)
  handled opened x SessionMsg.ws_disconnected l c o =
      inl (told (record x { state = disconnected }) SessionEffect.on_closed l c refl)
  handled opened x SessionMsg.ws_error l c o =
      inl (told (record x { state = session_error }) SessionEffect.on_error l c refl)
  handled opened x (SessionMsg.ws_message text) l c o = message_handled opened x text l c
  handled opened x (SessionMsg.send_command_res cmd id result) l c o =
      inl (sent x (command_res_json json cmd id result) l c)
  handled opened x (SessionMsg.send_sdp id sdp) l c o = inl (sent x (sdp_json json id sdp) l c)
  handled opened x (SessionMsg.send_candidate id idx mid candidate) l c o =
      inl (sent x (candidate_json json id idx mid candidate) l c)
  handled opened x (SessionMsg.send_ice_state id state desc) l c o =
      inl (sent x (ice_state_json json id state desc) l c)

  -- What a session without a client posts.
  abbrev pub IsQuiet : SessionEffect json.Text → Type 0
  IsQuiet e =
      All IsEarly (node_messages e)
      × All IsCalm (own_session_messages e)
      × (opens (own_session_messages e) ≡ 0)

  pub effects-IsWaiting :
      (es : List (SessionEffect json.Text)) (s : System json peers) (x : Session)
      → All IsQuiet es
      → IsWaiting json peers s x
      → IsWaiting json peers (do_session_effects s es) x
  unfolding do_session_effects
  effects-IsWaiting [] s x h v = v
  effects-IsWaiting (e ∷ es) s x ((early, calm, none_opens), hs) v = effects-IsWaiting es _ x hs (
      IsWaiting-posted json peers s x (node_messages e) (own_session_messages e) early
        (starts-node_messages e) calm none_opens v)
