-- ===== src/System/SessionTurn.antt =====
-- A turn of the session's looper, by the phase that the system is in.
use mathlib.Core.Path.{subst}
use aone_webrtc_stt.Base.{
  All, ℤ, ◌+◌, ◌≤◌, String, ◌≡◌, refl, sym, ap, ◌∙◌, ◌⊎◌, inl, inr, true, false, Option, none, some,
  List, [], ◌∷◌, arith, ◌>>=◌, some_inj, Status, ok, invalid_operation,
}
use aone_webrtc_stt.Signaling.Json.{JsonApi}
use aone_webrtc_stt.Signaling.Session.{
  SessionMsg, SessionEffect, Session, on_session_message, open_session, close_session, tell,
  session_error,
}
use aone_webrtc_stt.Signaling.Understood.{Understood}
use aone_webrtc_stt.Node.ServerNode.{PeerApi}
use aone_webrtc_stt.System.Calls.{node_messages, own_session_messages}
use aone_webrtc_stt.System.Turns.{System, do_session_effects, session_turn_of, session_turn}
use aone_webrtc_stt.System.Phases.{
  opens, opens-append, IsCalm, IsWaiting, IsLive, Phase, Turns, unstarted, waiting, live,
}
use aone_webrtc_stt.System.SessionHandled.{handled, effects-IsLive, effects-IsWaiting}

module _ (json : JsonApi) (peers : PeerApi) where
  -- The turn of a session whose next message is not understood.
  abbrev pub Misunderstood : System json peers → Type 0
  Misunderstood s =
      (text : json.Text) × (rest : List (SessionMsg json.Text)) × (s.session_queue
        ≡ SessionMsg.ws_message text ∷ rest)
      × ¬ Understood json text

  abbrev pub TurnsOrFaults : System json peers → Option (System json peers) → Type 0
  TurnsOrFaults s done = Turns json peers done ⊎ (done ≡ none) × Misunderstood s

  live_turn :
      (opened : Status) (s : System json peers) (x : Session) (m : SessionMsg json.Text)
      (queue : List (SessionMsg json.Text))
      → s.session_queue ≡ m ∷ queue
      → IsLive json peers s x
      → TurnsOrFaults s (session_turn_of json peers opened s (some x) (m ∷ queue))
  unfolding session_turn_of
  live_turn opened s x m queue e v =
      let none_opens : opens (m ∷ []) + opens queue ≡ 0 =
        sym (opens-append (m ∷ []) queue) ∙ ap opens (sym e) ∙ v.opened in
      elim (handled json peers opened x m v.listener v.client (omega arith)) [
        | inl (r, done, k) ↦
            let t : System json peers = record s { session = some r.0; session_queue = queue } in
            let base : IsLive json peers t r.0 = record {
              session = refl;
              listener = k.listener;
              client = k.client;
              started = v.started;
              opened = omega arith;
            } in
            inl (
              do_session_effects t r.2,
              rw done,
              live r.0 (effects-IsLive json peers r.2 t r.0 k.good base),
            )
        | inr (fault, (text, is, missed)) ↦
            inr (rw fault, (text, queue, e ∙ ap (λ n. n ∷ queue) is, missed))
      ]

  module _ (s : System json peers) (x : Session) (m : SessionMsg json.Text)
      (queue : List (SessionMsg json.Text)) (e : s.session_queue ≡ m ∷ queue)
      (v : IsWaiting json peers s x) where
    still :
        (y : Session)
        → y.has_listener ≡ true
        → y.has_ws_client ≡ false
        → IsWaiting json peers (record s { session = some y; session_queue = queue }) y
    still y l n =
        let (first, rest) = subst (All IsCalm) e v.calm in
        let few : opens (m ∷ []) + opens queue ≤ 1 =
          subst (λ n. n ≤ 1) (ap opens e ∙ opens-append (m ∷ []) queue) v.once in
        record {
          session = refl;
          listener = l;
          no_client = n;
          early = v.early;
          started = v.started;
          calm = rest;
          once = omega arith;
          no_peers = v.no_peers;
        }

    went-IsLive :
        opens (m ∷ []) ≡ 1
        → IsLive json peers
            (record s { session = some (record x { has_ws_client = true }); session_queue = queue })
            (record x { has_ws_client = true })
    went-IsLive one =
        let few : opens (m ∷ []) + opens queue ≤ 1 =
          subst (λ n. n ≤ 1) (ap opens e ∙ opens-append (m ∷ []) queue) v.once in
        record {
          session = refl;
          listener = v.listener;
          client = refl;
          started = v.started;
          opened = omega arith;
        }

  opened_turn :
      (opened : Status) (s : System json peers) (x : Session) (host : String) (port : ℤ)
      (path : Option String) (queue : List (SessionMsg json.Text)) (text : String)
      → s.session_queue ≡ SessionMsg.open_msg host port path ∷ queue
      → IsWaiting json peers s x
      → Turns json peers (
          open_session json opened x host port text >>= λ (t, _, out).
          some (do_session_effects (record s { session = some t; session_queue = queue }) out))
  unfolding open_session opens own_session_messages node_messages
  opened_turn ok s x host port path queue text e v = (
    _,
    refl,
    live (record x { has_ws_client = true })
        (effects-IsLive json peers (SessionEffect.ws_open host port text ∷ []) _ _ (refl, tt)
          (went-IsLive s x (SessionMsg.open_msg host port path) queue e v refl)),
  )
  opened_turn invalid_operation s x host port path queue text e v = (
    _,
    refl,
    waiting (record x { has_ws_client = false })
        (effects-IsWaiting json peers
          (SessionEffect.ws_open host port text ∷ SessionEffect.post SessionMsg.error_msg ∷ []) _ _
          ((tt, tt, refl), ((tt, (tt, tt), refl), tt))
          (still s x (SessionMsg.open_msg host port path) queue e v
            (record x { has_ws_client = false }) v.listener refl)),
  )

  waiting_turn :
      (opened : Status) (s : System json peers) (x : Session) (m : SessionMsg json.Text)
      (queue : List (SessionMsg json.Text))
      → s.session_queue ≡ m ∷ queue
      → IsWaiting json peers s x
      → Turns json peers (session_turn_of json peers opened s (some x) (m ∷ queue))
  unfolding session_turn_of on_session_message close_session tell do_session_effects opens
  waiting_turn opened s x (SessionMsg.open_msg host port none) queue e v =
      opened_turn opened s x host port none queue "" e v
  waiting_turn opened s x (SessionMsg.open_msg host port (some path)) queue e v =
      opened_turn opened s x host port (some path) queue path e v
  waiting_turn opened s x SessionMsg.close_msg queue e v = (
    _,
    rw v.no_client,
    waiting x (still s x SessionMsg.close_msg queue e v x v.listener v.no_client),
  )
  waiting_turn opened s x SessionMsg.error_msg queue e v =
      (_, refl, waiting x (still s x SessionMsg.error_msg queue e v x v.listener v.no_client))
  waiting_turn opened s x SessionMsg.ws_error queue e v =
      let y : Session = record x { state = session_error } in
      (
        _,
        rw v.listener refl,
        waiting y (
            effects-IsWaiting json peers (SessionEffect.on_error ∷ []) _ _
              (((tt, tt), tt, refl), tt)
              (still s x SessionMsg.ws_error queue e v y v.listener v.no_client)),
      )
  waiting_turn opened s x m queue e v = absurd (subst (All IsCalm) e v.calm).0

  turn_of :
      (opened : Status) (s : System json peers) (o : Option Session)
      (queue : List (SessionMsg json.Text))
      → s.session ≡ o
      → s.session_queue ≡ queue
      → Phase json peers s
      → TurnsOrFaults s (session_turn_of json peers opened s o queue)
  unfolding session_turn_of
  turn_of opened s none queue e q p = inl (s, refl, p)
  turn_of opened s (some x) [] e q p = inl (s, refl, p)
  turn_of opened s (some x) (m ∷ queue) e q (unstarted v) = cc (sym v.no_session ∙ e)
  turn_of opened s (some x) (m ∷ queue) e q (waiting y v) = inl (
      waiting_turn opened s x m queue q
        (subst (IsWaiting json peers s) (some_inj (sym v.session ∙ e)) v))
  turn_of opened s (some x) (m ∷ queue) e q (live y v) =
      live_turn opened s x m queue q (subst (IsLive json peers s) (some_inj (sym v.session ∙ e)) v)

  pub session_turn-Phase :
      (opened : Status) (s : System json peers)
      → Phase json peers s
      → TurnsOrFaults s (session_turn json peers opened s)
  unfolding session_turn
  session_turn-Phase opened s p = turn_of opened s s.session s.session_queue refl refl p
