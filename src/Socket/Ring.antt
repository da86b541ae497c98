-- ===== src/Socket/Ring.antt =====
-- RTCWebSocketClient::Send and the callbacks of the service as steps, and the ring between them.
use aone_webrtc_stt.Base.{
  ℕ, ◌≡◌, Bool, true, false, Option, none, some, List, [], ◌∷◌, ◌++◌, if◌then◌else◌, is_ok,
}
use aone_webrtc_stt.Socket.Messages.{LwsRing, WsMsg}
use aone_webrtc_stt.Socket.Client.{
  WebSocketClientOf, WsEvent, WsEffect, lws_write, send, rtc_websocket_lws_callback,
}

abbrev pub rest : List WsMsg → List WsMsg
rest [] = []
rest (m ∷ ms) = ms

abbrev pub front : List WsMsg → Option WsMsg
front [] = none
front (m ∷ ms) = some m

abbrev pub payloads : List WsMsg → List (List ℕ)
payloads [] = []
payloads (m ∷ ms) = m.payload ∷ payloads ms

abbrev pub behind : Bool → List WsMsg → List WsMsg
behind true ms = rest ms
behind false ms = ms

-- The message that a text becomes.
abbrev pub text_msg : List ℕ → WsMsg
text_msg msg = record { payload = msg; is_binary = false; is_first = true; is_final = true }

-- What lws-ring.h says of a ring with one tail.
pub record RingLaws (lws : LwsRing) : Type 0 where
  pub insert_lem :
      (r : lws.Ring) (m : WsMsg) (r' : lws.Ring)
      → lws.insert r m ≡ some r'
      → lws.waiting r' ≡ lws.waiting r ++ m ∷ []
  pub get_element_lem : (r : lws.Ring) → lws.get_element r ≡ front (lws.waiting r)
  pub consume_lem : (r : lws.Ring) → lws.waiting (lws.consume_single_tail r) ≡ rest (lws.waiting r)

-- A call of Send, or a callback of the service.
pub data IoStep : Type 0 where
  send_call : List ℕ → IoStep
  callback : WsEvent → IoStep

-- The messages that a callback takes to be written whole.
unfoldable pub written : List WsEffect → List WsMsg
written [] = []
written (lws_write m ∷ []) = []
written (lws_write m ∷ e ∷ es) = m ∷ []
written (WsEffect.callback_on_writable ∷ es) = []
written (_ ∷ es) = []

module _ (lws : LwsRing) where
  -- The client, the texts accepted and the messages written.
  abbrev pub Io : Type 0
  Io = WebSocketClientOf lws.Ring × List (List ℕ) × List WsMsg

  unfoldable pub io_step : WebSocketClientOf lws.Ring → IoStep → Io
  unfolding send rtc_websocket_lws_callback written
  io_step c (send_call msg) =
      let (d, ret, _) = send lws c msg in (d, if is_ok ret then msg ∷ [] else [], [])
  io_step c (callback e) = let (d, out) = rtc_websocket_lws_callback lws c e in (d, [], written out)

  unfoldable pub run_io : WebSocketClientOf lws.Ring → List IoStep → Io
  unfolding io_step
  run_io c [] = (c, [], [])
  run_io c (step ∷ steps) =
      let (d, accepted, sent) = io_step c step in
      let (f, accepted', sent') = run_io d steps in (f, accepted ++ accepted', sent ++ sent')

  -- The messages that are still to be written: one that was written is consumed later.
  abbrev pub unwritten : WebSocketClientOf lws.Ring → List WsMsg
  unwritten c = behind c.write_consume_pending (lws.waiting c.ring)
