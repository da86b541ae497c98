-- ===== src/Socket/WholeLife.antt =====
-- RTCWebSocketClient from its constructor to the end of its destructor: the payload of every message is
-- deleted once, and so is the context.
use aone_webrtc_stt.Socket.Pointers.{ptr, insert-ptr}
use aone_webrtc_stt.Socket.Lifetime.{
  Members, destruct, reset_ring, run_life, thread_turn, life_step, send_step,
}
use aone_webrtc_stt.Socket.Messages.{LwsRing}
use aone_webrtc_stt.Socket.Client.{
  reset, WebSocketClientOf, WsEvent, websocket_service_loop, client_writeable, close, send,
  is_opened, WsClientState, insert_ring_buffer,
}
use mathlib.Core.List.Perm
use mathlib.Core.List.{Perm}
use aone_webrtc_stt.Base.{ℤ, ℕ, ◌≡◌, refl, true, false, none, List, ◌∷◌, arith, ok}
use aone_webrtc_stt.Socket.Balance.{insert_wsi}

-- What is left of a client that is destroyed.
pub record IsGone (lws : LwsRing) (c : Members lws) : Type 0 where
  pub no_ring : c.ring ≡ none
  pub no_thread : c.has_thread ≡ false
  pub no_context : c.has_wsc ≡ false

-- A callback for writing that comes while the destructor has destroyed the ring and not yet stopped
-- the thread is a fault.
destruct-writeable :
    (lws : LwsRing) (c : WebSocketClientOf lws.Ring) (len : ℤ) (es : List WsEvent)
    → c.has_thread ≡ true
    → websocket_service_loop lws c.state ≡ true
    → destruct lws (ptr lws c) (client_writeable len ∷ es) ≡ none
unfolding destruct reset_ring run_life thread_turn websocket_service_loop
destruct-writeable lws c len es runs loops = rw (runs, loops)

close_wsi :
    (lws : LwsRing) (c : WebSocketClientOf lws.Ring)
    → c.state ≡ WsClientState.ws_open
    → c.has_wsc ≡ true
    → (close lws c).0.has_wsi ≡ false
unfolding close reset is_opened
close_wsi lws c was_open context = ground (arith, was_open, context)

-- A Send that is accepted behind a Close of an open client is a fault: the connection is null then.
send-close :
    (lws : LwsRing) (c : WebSocketClientOf lws.Ring) (msg : List ℕ)
    → c.state ≡ WsClientState.ws_open
    → c.has_wsc ≡ true
    → (insert_ring_buffer lws (close lws c).0 msg).1 ≡ ok
    → life_step lws (ptr lws (close lws c).0) (send_step msg) ≡ none
unfolding life_step send
send-close lws c msg was_open context accepted =
    rw
      (
        insert-ptr lws (close lws c).0 msg,
        accepted,
        insert_wsi lws (close lws c).0 msg,
        close_wsi lws c was_open context,
      )
      refl
