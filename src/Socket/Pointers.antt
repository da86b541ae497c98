-- ===== src/Socket/Pointers.antt =====
-- RTCWebSocketClient with a ring: what its operations do behind the pointer.
use aone_webrtc_stt.Socket.Ring.{text_msg}
use aone_webrtc_stt.Socket.Lifetime.{pointers, Members}
use aone_webrtc_stt.Socket.Messages.{LwsRing, WsMsg, HeapOp}
use aone_webrtc_stt.Socket.Client.{
  insert_ring_buffer, consume_written, write_front, close, reset, open_client, WebSocketClientOf,
  rtc_websocket_lws_callback, is_opened, OpenOutcome, on_receive, len_less, on_writeable, WsEvent,
  client_writeable,
}
use aone_webrtc_stt.Base.{
  length, ℤ, ℕ, String, ◌≡◌, refl, ap, ◌∙◌, inl, inr, not, ◌||◌, Option, none, some, List, [], ◌∷◌,
  arith, ltb, ◌==◌, Bool-cases, Option-cases,
}

module _ (lws : LwsRing) where
  -- A client whose ring is there.
  abbrev pub ptr : WebSocketClientOf lws.Ring → Members lws
  ptr c = record {
    recv_msg = c.recv_msg;
    ring = some c.ring;
    write_consume_pending = c.write_consume_pending;
    has_thread = c.has_thread;
    has_wsc = c.has_wsc;
    has_wsi = c.has_wsi;
    host = c.host;
    path = c.path;
    state = c.state;
  }

  pub insert-ptr :
      (c : WebSocketClientOf lws.Ring) (msg : List ℕ)
      → let r = insert_ring_buffer lws c msg in
        insert_ring_buffer (pointers lws) (ptr c) msg ≡ (ptr r.0, r.1, r.2)
  unfolding insert_ring_buffer
  insert-ptr c msg = elim (Bool-cases (lws.count_free_elements c.ring == 0)) [
    | inl full ↦ rw full
    | inr free ↦ elim (Option-cases (lws.insert c.ring (text_msg msg))) [
      | inl e ↦ rw (free, e)
      | inr (r, e) ↦ rw (free, e)
    ]
  ]

  pub consume-ptr :
      (c : WebSocketClientOf lws.Ring)
      → let r = consume_written lws c in consume_written (pointers lws) (ptr c) ≡ (ptr r.0, r.1)
  unfolding consume_written
  consume-ptr c = elim (Bool-cases c.write_consume_pending) [ inl e ↦ rw e | inr e ↦ rw e ]

  write_front-ptr :
      (c : WebSocketClientOf lws.Ring) (len : ℤ) (m : Option WsMsg)
      → let r = write_front lws c len m in write_front (pointers lws) (ptr c) len m ≡ (ptr r.0, r.1)
  unfolding write_front
  write_front-ptr c len none = refl
  write_front-ptr c len (some m) = elim (Bool-cases (len_less len (length m.payload))) [
    | inl e ↦ rw e
    | inr e ↦ rw e
  ]

  pub callback-ptr :
      (c : WebSocketClientOf lws.Ring) (e : WsEvent)
      → let r = rtc_websocket_lws_callback lws c e in
        rtc_websocket_lws_callback (pointers lws) (ptr c) e ≡ (ptr r.0, r.1)
  unfolding rtc_websocket_lws_callback on_receive on_writeable
  callback-ptr c WsEvent.client_established = refl
  callback-ptr c WsEvent.client_connection_error = refl
  callback-ptr c WsEvent.client_closed = refl
  callback-ptr c WsEvent.other_reason = refl
  callback-ptr c (WsEvent.client_receive none remaining final) = refl
  callback-ptr c (WsEvent.client_receive (some []) remaining final) = refl
  callback-ptr c (WsEvent.client_receive (some (b ∷ bs)) remaining final) =
      elim (Bool-cases (ltb 0 remaining || not final)) [ inl e ↦ rw e | inr e ↦ rw e ]
  callback-ptr c (client_writeable len) =
      let d = (consume_written lws c).0 in
      ap
        (λ (x : Members lws × List HeapOp).
          write_front (pointers lws) x.0 len ((pointers lws).get_element x.0.ring))
        (consume-ptr c)
      ∙ write_front-ptr d len (lws.get_element d.ring)

  pub reset-ptr :
      (c : WebSocketClientOf lws.Ring)
      → reset (pointers lws) (ptr c) ≡ (ptr (reset lws c).0, (reset lws c).1)
  unfolding reset
  reset-ptr c = elim (Bool-cases c.has_wsc) [ inl e ↦ rw e | inr e ↦ rw e ]

  pub close-ptr :
      (c : WebSocketClientOf lws.Ring)
      → let r = close lws c in close (pointers lws) (ptr c) ≡ (ptr r.0, r.1, r.2)
  unfolding close reset is_opened
  close-ptr c = ground arith

  pub open-ptr :
      (c : WebSocketClientOf lws.Ring) (outcome : OpenOutcome) (host path : String)
      → let r = open_client lws outcome c host path in
        open_client (pointers lws) outcome (ptr c) host path ≡ (ptr r.0, r.1, r.2)
  unfolding open_client reset
  open-ptr c outcome host path = ground arith
