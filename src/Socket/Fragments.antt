-- ===== src/Socket/Fragments.antt =====
-- Received messages are put together from their packets.
use mathlib.Core.Path.{subst}
use aone_webrtc_stt.Base.{
  ℕ, suc, ◌≡◌, refl, sym, ap, ◌∙◌, Bool, true, false, some, List, [], ◌∷◌, ◌++◌, append_assoc,
  arith,
}
use aone_webrtc_stt.Socket.Messages.{LwsRing}
use aone_webrtc_stt.Socket.Client.{
  WebSocketClientOf, WsEvent, client_receive, WsEffect, ws_message, on_receive,
  rtc_websocket_lws_callback, run_callbacks,
}

-- A packet that is not the last of its message has payload remaining or is not of the final
-- fragment; the packets of a message before its last.
pub data Packet : Type 0 where
  more_payload : ℕ → List ℕ → ℕ → Bool → Packet
  more_fragments : ℕ → List ℕ → ℕ → Packet

-- Every packet has a first byte, so that none is empty.
unfoldable pub packet_bytes : Packet → List ℕ
packet_bytes (more_payload b bs remaining final) = b ∷ bs
packet_bytes (more_fragments b bs remaining) = b ∷ bs

unfoldable pub packet_event : Packet → WsEvent
packet_event (more_payload b bs remaining final) =
    client_receive (some (b ∷ bs)) (suc remaining) final
packet_event (more_fragments b bs remaining) = client_receive (some (b ∷ bs)) remaining false

-- A message: its packets before the last, and the bytes of the last.
abbrev pub Message : Type 0
Message = List Packet × ℕ × List ℕ

unfoldable pub message_bytes : Message → List ℕ
unfolding packet_bytes
message_bytes ([], b, bs) = b ∷ bs
message_bytes (p ∷ ps, b, bs) = packet_bytes p ++ message_bytes (ps, b, bs)

unfoldable pub message_events : Message → List WsEvent
unfolding packet_event
message_events ([], b, bs) = client_receive (some (b ∷ bs)) 0 true ∷ []
message_events (p ∷ ps, b, bs) = packet_event p ∷ message_events (ps, b, bs)

unfoldable pub all_events : List Message → List WsEvent
unfolding message_events
all_events [] = []
all_events (m ∷ ms) = message_events m ++ all_events ms

unfoldable pub told : List Message → List WsEffect
unfolding message_bytes
told [] = []
told (m ∷ ms) = ws_message (message_bytes m) ∷ told ms

module _ (lws : LwsRing) where
  -- A packet that is not the last of its message is kept.
  kept :
      (p : Packet) (c : WebSocketClientOf lws.Ring) (es : List WsEvent)
      → run_callbacks lws c (packet_event p ∷ es)
        ≡ run_callbacks lws (record c { recv_msg = c.recv_msg ++ packet_bytes p }) es
  unfolding run_callbacks rtc_websocket_lws_callback on_receive packet_event packet_bytes
  kept (more_payload b bs remaining final) c es = ground arith
  kept (more_fragments b bs remaining) c es = ground arith

  one_message :
      (ps : List Packet) (b : ℕ) (bs : List ℕ) (c : WebSocketClientOf lws.Ring) (es : List WsEvent)
      → run_callbacks lws c (message_events (ps, b, bs) ++ es) ≡ (
          let r = run_callbacks lws (record c { recv_msg = [] }) es in
          (r.0, ws_message (c.recv_msg ++ message_bytes (ps, b, bs)) ∷ r.1))
  unfolding run_callbacks rtc_websocket_lws_callback on_receive message_events message_bytes
  one_message [] b bs c es = refl
  one_message (p ∷ ps) b bs c es =
      let more = record c { recv_msg = c.recv_msg ++ packet_bytes p } in
      let r = run_callbacks lws (record c { recv_msg = [] }) es in
      kept p c (message_events (ps, b, bs) ++ es)
      ∙ one_message ps b bs more es
      ∙ ap (λ m. (r.0, ws_message m ∷ r.1))
          (append_assoc c.recv_msg (packet_bytes p) (message_bytes (ps, b, bs)))

  from_empty :
      (ms : List Message) (c : WebSocketClientOf lws.Ring)
      → let start = record c { recv_msg = [] } in
        run_callbacks lws start (all_events ms) ≡ (start, told ms)
  unfolding run_callbacks all_events told
  from_empty [] c = refl
  from_empty ((ps, b, bs) ∷ ms) c =
      let start = record c { recv_msg = [] } in
      one_message ps b bs start (all_events ms)
      ∙ ap
          (λ (r : WebSocketClientOf lws.Ring × List WsEffect).
            (r.0, ws_message (message_bytes (ps, b, bs)) ∷ r.1))
          (from_empty ms c)

  -- From a client with nothing received, any messages, each in any packets that are not empty, are
  -- told to the listener whole, once and in order; nothing else is done, and the client is as
  -- before.
  pub run_callbacks-all_events :
      (ms : List Message) (c : WebSocketClientOf lws.Ring)
      → c.recv_msg ≡ []
      → run_callbacks lws c (all_events ms) ≡ (c, told ms)
  run_callbacks-all_events ms c empty =
      let same : record c { recv_msg = [] } ≡ c = ap (λ m. record c { recv_msg = m }) (sym empty) in
      subst (λ d. run_callbacks lws d (all_events ms) ≡ (d, told ms)) same (from_empty ms c)
