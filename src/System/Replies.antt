-- ===== src/System/Replies.antt =====
-- From a request of the signaling server to the reply on the web socket: the session, the node, and
-- the session again, each on the messages that the one before posts.
use aone_webrtc_stt.Base.{
  String, ◌≡◌, refl, ap, ◌∙◌, ◌⊎◌, inl, inr, true, Option, none, some, List, [], ◌∷◌, ◌++◌,
  Option-cases, ◌>>=◌, bind-eq, Status, ok, invalid_operation,
}
use aone_webrtc_stt.Signaling.Json.{JsonApi}
use aone_webrtc_stt.Signaling.RoundTrip.{command_res_attributes}
use aone_webrtc_stt.Signaling.Attributes.{
  result_attr, command_attr, id_attr, add_peer_msg, remove_peer_msg,
}
use aone_webrtc_stt.Signaling.IceServers.{IceServerInfo, string_at}
use aone_webrtc_stt.Signaling.Outgoing.{command_res_json}
use aone_webrtc_stt.Signaling.Session.{
  Session, SessionMsg, SessionEffect, received_msg, dispatch, on_session_message, on_add_peer_msg,
  on_remove_peer_msg, notify, on_add_peer, on_remove_peer, send_text,
}
use aone_webrtc_stt.Node.ServerNode.{
  NodeMsg, PeerApi, NodeEffect, ServerNode, on_node_message, add_peer_req, remove_peer_req,
  send_command_res,
}
use aone_webrtc_stt.Node.Requests.{add_peer_success, add_peer_fail, remove_peer_lem}
use aone_webrtc_stt.System.Calls.{node_messages, session_messages}
use aone_webrtc_stt.System.Media.{all_messages, run_node_messages}

Status-cases : (s : Status) → (s ≡ ok) ⊎ (s ≡ invalid_operation)
Status-cases ok = inl refl
Status-cases invalid_operation = inr refl

-- The texts that leave on the web socket.
unfoldable pub sent_texts : {A : Type 0} → List (SessionEffect A) → List A
sent_texts [] = []
sent_texts (SessionEffect.ws_send text ∷ es) = text ∷ sent_texts es
sent_texts (SessionEffect.ws_close ∷ es) = sent_texts es
sent_texts (_ ∷ es) = sent_texts es

module _ (json : JsonApi) (peers : PeerApi) where
  unfoldable pub run_session_messages :
      Session → List (SessionMsg json.Text) → Option (Session × List (SessionEffect json.Text))
  unfolding on_session_message
  run_session_messages s [] = some (s, [])
  run_session_messages s (m ∷ ms) = on_session_message json ok s m >>= λ (t, _, out).
      run_session_messages t ms >>= λ (u, rest). some (u, out ++ rest)

  -- The texts that the session sends for a text that it receives.
  unfoldable pub reply_path : Session → ServerNode peers.Peer → json.Text → Option (List json.Text)
  unfolding run_node_messages run_session_messages sent_texts
  reply_path s n text = do
    (t, status, out) ← received_msg json s text
    (n', calls) ← run_node_messages peers n (all_messages node_messages out)
    (u, sent) ← run_session_messages t (all_messages session_messages calls)
    some (sent_texts sent)

  add_read :
      (s : Session) (text : json.Text) (j : json.Json) (id : String)
      → s.has_listener ≡ true
      → json.json_loads text (json.strlen text) ≡ some j
      → string_at json j command_attr ≡ some add_peer_msg
      → string_at json j id_attr ≡ some id
      → received_msg json s text ≡ some (s, ok, on_add_peer id ∷ [])
  unfolding received_msg dispatch on_add_peer_msg notify
  add_read s text j id listens loads cmd peer_id =
      rw (loads, received_msg) (bind-eq _ _ cmd (bind-eq _ _ peer_id (simp listens)))

  remove_read :
      (s : Session) (text : json.Text) (j : json.Json) (id : String)
      → s.has_listener ≡ true
      → json.json_loads text (json.strlen text) ≡ some j
      → string_at json j command_attr ≡ some remove_peer_msg
      → string_at json j id_attr ≡ some id
      → received_msg json s text ≡ some (s, ok, on_remove_peer id ∷ [])
  unfolding received_msg dispatch on_remove_peer_msg notify
  remove_read s text j id listens loads cmd peer_id =
      rw (loads, received_msg) (bind-eq _ _ cmd (bind-eq _ _ peer_id (simp listens)))

  reply_sent :
      (s : Session) (cmd id result : String)
      → s.has_ws_client ≡ true
      → run_session_messages s (SessionMsg.send_command_res cmd id result ∷ [])
        ≡ some
            (s, SessionEffect.ws_send (json.json_dumps (command_res_json json cmd id result)) ∷ [])
  unfolding run_session_messages send_text
  reply_sent s cmd id result client = simp client

  abbrev reply : String → String → String → List json.Text
  reply cmd id result = json.json_dumps (command_res_json json cmd id result) ∷ []

  -- The one text that is sent for a text, read by its keys: a command, an identifier and a result.
  abbrev pub Replies :
      Session → ServerNode peers.Peer → json.Text → String → String → String → Type 0
  Replies s n text cmd id result =
      (sent : json.Text) × (o : json.Json) × (reply_path s n text ≡ some (sent ∷ []))
      × (json.json_loads sent 0 ≡ some o)
      × (string_at json o command_attr ≡ some cmd)
      × (string_at json o id_attr ≡ some id)
      × (string_at json o result_attr ≡ some result)

  reply_read :
      (s : Session) (n : ServerNode peers.Peer) (text : json.Text) (cmd id result : String)
      → reply_path s n text ≡ some (reply cmd id result)
      → Replies s n text cmd id result
  reply_read s n text cmd id result e =
      let o = command_res_json json cmd id result in
      let (object, c, i, r) = command_res_attributes json cmd id result in
      (json.json_dumps o, o, e, json.loads-dumps o 0 object, c, i, r)

  -- From what the session reads and what the node answers to the reply.
  replied :
      (s : Session) (n : ServerNode peers.Peer) (text : json.Text) (e : SessionEffect json.Text)
      (m : NodeMsg) (r : ServerNode peers.Peer × List (NodeEffect peers.Peer))
      (cmd id result : String)
      → s.has_ws_client ≡ true
      → received_msg json s text ≡ some (s, ok, e ∷ [])
      → node_messages e ≡ m ∷ []
      → on_node_message peers true ok n m ≡ some r
      → all_messages (session_messages {A = json.Text}) (r.1 ++ [])
        ≡ SessionMsg.send_command_res cmd id result ∷ []
      → Replies s n text cmd id result
  unfolding reply_path run_node_messages all_messages sent_texts
  replied s n text e m r cmd id result client reads posts does answers =
      reply_read s n text cmd id result (
        bind-eq _ _ reads (
          bind-eq _ _
            (ap (λ ms. run_node_messages peers n (ms ++ [])) posts ∙ bind-eq _ _ does refl)
            (bind-eq _ _ (ap (run_session_messages s) answers ∙ reply_sent s cmd id result client)
              refl)))

  abbrev pub IsRefused : List IceServerInfo → String → Type 0
  IsRefused infos id =
      (peers.create_rtc_peer id infos ≡ none)
      ⊎ ((peer : peers.Peer) × (peers.create_rtc_peer id infos ≡ some peer)
          × (peers.create_voice_client peer ≡ invalid_operation))

  refused_reply :
      (s : Session) (n : ServerNode peers.Peer) (text : json.Text) (id : String)
      (infos : List IceServerInfo)
      → s.has_ws_client ≡ true
      → received_msg json s text ≡ some (s, ok, on_add_peer id ∷ [])
      → n.node_session ≡ some infos
      → IsRefused infos id
      → Replies s n text "add_peer_res" id "fail"
  unfolding node_messages session_messages all_messages
  refused_reply s n text id infos client reads session why =
      replied s n text (on_add_peer id) (add_peer_req id)
        (n, send_command_res "add_peer_res" id "fail" ∷ []) "add_peer_res" id "fail" client reads
        refl (add_peer_fail peers n id infos true ok session why) refl

  -- A request to add a peer, with an identifier, for a session with a listener and a web socket
  -- client, and a node with a session: the one text sent is read as the answer with that identifier, whose
  -- result is "success" where the peer and its voice client are created, and "fail" where not.
  pub reply_path-add_peer :
      (s : Session) (n : ServerNode peers.Peer) (text : json.Text) (j : json.Json) (id : String)
      (infos : List IceServerInfo)
      → s.has_listener ≡ true
      → s.has_ws_client ≡ true
      → json.json_loads text (json.strlen text) ≡ some j
      → string_at json j command_attr ≡ some add_peer_msg
      → string_at json j id_attr ≡ some id
      → n.node_session ≡ some infos
      → ((peer : peers.Peer) × (peers.create_rtc_peer id infos ≡ some peer)
          × (peers.create_voice_client peer ≡ ok)
          × Replies s n text "add_peer_res" id "success")
        ⊎ (IsRefused infos id × Replies s n text "add_peer_res" id "fail")
  unfolding node_messages session_messages all_messages
  reply_path-add_peer s n text j id infos listens client loads cmd peer_id session =
      let reads = add_read s text j id listens loads cmd peer_id in
      elim (Option-cases (peers.create_rtc_peer id infos)) [
        | inl none_made ↦
            inr
              (inl none_made, refused_reply s n text id infos client reads session (inl none_made))
        | inr (peer, made) ↦ elim (Status-cases (peers.create_voice_client peer)) [
          | inr refused ↦ inr (
            inr (peer, made, refused),
            refused_reply s n text id infos client reads session (inr (peer, made, refused)),
          )
          | inl voice ↦
              let (r, does, a) =
                add_peer_success peers n id infos peer true ok session made voice in
              inl (
                peer,
                made,
                voice,
                replied s n text (on_add_peer id) (add_peer_req id) r "add_peer_res" id "success"
                    client reads refl does
                    (ap (λ calls. all_messages (session_messages {A = json.Text}) (calls ++ []))
                      a.answer),
              )
        ]
      ]

  -- A request to remove a peer, with an identifier, for a session with a listener and a web socket
  -- client, and a node with a session: the one text sent is read as the answer "success" with that
  -- identifier, whether or not there is such a peer.
  pub reply_path-remove_peer :
      (s : Session) (n : ServerNode peers.Peer) (text : json.Text) (j : json.Json) (id : String)
      (infos : List IceServerInfo)
      → s.has_listener ≡ true
      → s.has_ws_client ≡ true
      → json.json_loads text (json.strlen text) ≡ some j
      → string_at json j command_attr ≡ some remove_peer_msg
      → string_at json j id_attr ≡ some id
      → n.node_session ≡ some infos
      → Replies s n text "remove_peer_res" id "success"
  unfolding node_messages session_messages all_messages
  reply_path-remove_peer s n text j id infos listens client loads cmd peer_id session =
      let (r, does, _, answers) = remove_peer_lem peers n id infos true ok session in
      replied s n text (on_remove_peer id) (remove_peer_req id) r "remove_peer_res" id "success"
        client (remove_read s text j id listens loads cmd peer_id) refl does
        (elim answers [
          | inl (_, a) ↦
              ap (λ calls. all_messages (session_messages {A = json.Text}) (calls ++ [])) a
          | inr (_, _, a) ↦
              ap (λ calls. all_messages (session_messages {A = json.Text}) (calls ++ [])) a
        ])
