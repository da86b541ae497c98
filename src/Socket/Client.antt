-- ===== src/Socket/Client.antt =====
-- signaling_session/RTCWebSocketClient.h and .cc: the client of a WebSocket over libwebsockets, which
-- is a parameter: its ring (Socket.Messages), and for each call the outcome. A callback of the service is an event, with what lws
-- tells of it; handling one gives the new client and what it does. Bytes are characters.
use aone_webrtc_stt.Socket.Messages.{
  WsMsg, HeapOp, allocated, ws_destroy_message, LwsRing, destroy_all,
}
use aone_webrtc_stt.Base.{
  length, ℤ, residue, ℕ, ◌^◌, String, Bool, true, false, not, ◌&&◌, ◌||◌, Option, none, some, List,
  [], ◌∷◌, ◌++◌, ltb, ◌==◌, if◌then◌else◌, is_ok, Status, ok, invalid_operation,
}

pub data WsClientState : Type 0 where
  ws_init ws_connecting ws_open ws_closing ws_error : WsClientState

pub data WsEffect : Type 0 where
  ws_connected ws_error_told ws_disconnected callback_on_writable callback_on_null close_reason
        cancel_service context_destroy :
      WsEffect
  ws_message : List ℕ → WsEffect
  lws_write : WsMsg → WsEffect

-- The callback's reasons. A received packet has its bytes, if any, the payload that remains, and whether
-- its fragment is the final one; a writeable socket, what lws_write returns if it is called.
pub data WsEvent : Type 0 where
  client_established client_connection_error client_closed other_reason : WsEvent
  client_receive : Option (List ℕ) → ℕ → Bool → WsEvent
  client_writeable : ℤ → WsEvent

-- What the calls of Open give: the context, the connection, and the thread's run.
pub record OpenOutcome : Type 0 where
  pub context : Bool
  pub connection : Bool
  pub thread : Status
  -- Whether a connection that fails calls back with CLIENT_CONNECTION_ERROR before it gives NULL.
  pub told : Bool

pub record WebSocketClientOf (Ring : Type 0) : Type 0 where
  pub recv_msg : List ℕ
  pub ring : Ring
  pub write_consume_pending : Bool
  pub has_thread : Bool
  pub has_wsc : Bool
  pub has_wsi : Bool
  pub host : String
  pub path : String
  pub state : WsClientState

-- int32_t len < size_t size, which takes len modulo 2^64.
unfoldable pub len_less : ℤ → ℕ → Bool
len_less len size = ltb (residue (2 ^ 64) len) size

module _ (lws : LwsRing) where
  open lws use {Ring, count_free_elements, insert, get_element, consume_single_tail, retired}

  abbrev WebSocketClient : Type 0
  WebSocketClient = WebSocketClientOf Ring

  abbrev Done : Type 0
  Done = WebSocketClient × Status × List WsEffect

  -- The constructor, with the ring that lws_ring_create gives.
  unfoldable pub new_client : Ring → WebSocketClient
  new_client ring = record {
    recv_msg = [];
    ring = ring;
    write_consume_pending = false;
    has_thread = false;
    has_wsc = false;
    has_wsi = false;
    host = "";
    path = "";
    state = ws_init;
  }

  unfoldable pub reset : WebSocketClient → WebSocketClient × List WsEffect
  reset c =
      let ended = record c { has_thread = false } in
      if c.has_wsc
      then (record ended { has_wsc = false; has_wsi = false }, context_destroy ∷ [])
      else (ended, [])

  -- `run` is what Thread::run gives; the thread is kept only if it runs.
  unfoldable pub start_service_thread : Status → WebSocketClient → WebSocketClient × Status
  start_service_thread run c = (record c { has_thread = is_ok run }, run)

  -- Open behind its connection: the service thread, and the state.
  unfoldable pub opened : Status → WebSocketClient → Done
  unfolding start_service_thread reset
  opened run c =
      let (started, ret) = start_service_thread run c in
      let (failed, out) = reset started in
      if is_ok ret
      then (record started { state = ws_connecting }, ok, [])
      else (record failed { state = ws_connecting }, ok, out)

  unfoldable pub open_client : OpenOutcome → WebSocketClient → String → String → Done
  unfolding opened
  open_client outcome c host path =
      let named = record c { has_wsc = true; host = host; path = path } in
      let done = opened outcome.thread (record named { has_wsi = true }) in
      if not outcome.context
      then (record c { has_wsc = false }, invalid_operation, [])
      else if not outcome.connection
      then (
        record named { has_wsc = false; has_wsi = false; state = ws_error },
        invalid_operation,
        (if outcome.told then ws_error_told ∷ [] else []) ++ context_destroy ∷ [],
      )
      else done

  unfoldable pub is_opened : WsClientState → Bool
  is_opened ws_open = true
  is_opened _ = false

  unfoldable pub close : WebSocketClient → Done
  unfolding reset is_opened
  close c =
      let closing = if c.has_wsc && c.has_wsi then record c { state = ws_closing } else c in
      let told = if c.has_wsi then close_reason ∷ cancel_service ∷ [] else cancel_service ∷ [] in
      let (d, out) = reset closing in
      if is_opened c.state then (d, ok, (if c.has_wsc then told else []) ++ out) else (c, ok, [])

  abbrev inserted : WebSocketClient → WsMsg → Option Ring → WebSocketClient × Status × List HeapOp
  inserted c msg (some r) = (record c { ring = r }, ok, allocated msg ∷ [])
  inserted c msg none = (c, invalid_operation, allocated msg ∷ ws_destroy_message msg)

  unfoldable pub insert_ring_buffer :
      WebSocketClient → List ℕ → WebSocketClient × Status × List HeapOp
  unfolding ws_destroy_message
  insert_ring_buffer c dat =
      let msg : WsMsg = record {
        payload = dat;
        is_binary = false;
        is_first = true;
        is_final = true;
      } in
      if count_free_elements c.ring == 0
      then (c, invalid_operation, [])
      else inserted c msg (insert c.ring msg)

  -- lws_callback_on_writable is given _wsi, which _reset sets to null: libwebsockets uses it then, which
  -- is a fault.
  unfoldable pub send : WebSocketClient → List ℕ → Done
  unfolding insert_ring_buffer
  send c msg =
      let (d, ret, _) = insert_ring_buffer c msg in
      (
        d,
        ret,
        if is_ok ret
            then (if d.has_wsi then callback_on_writable else callback_on_null) ∷ []
            else [],
      )

  unfoldable pub on_receive :
      WebSocketClient → Option (List ℕ) → ℕ → Bool → WebSocketClient × List WsEffect
  on_receive c none remaining final = (c, [])
  on_receive c (some []) remaining final = (c, [])
  on_receive c (some bytes) remaining final =
      let msg = c.recv_msg ++ bytes in
      if ltb 0 remaining || not final
      then (record c { recv_msg = msg }, [])
      else (record c { recv_msg = [] }, ws_message msg ∷ [])

  -- The front of the ring is written; it is consumed at the next call, if it was written whole.
  unfoldable pub write_front : WebSocketClient → ℤ → Option WsMsg → WebSocketClient × List WsEffect
  unfolding len_less
  write_front c len none = (c, [])
  write_front c len (some msg) =
      if len_less len (length msg.payload)
      then (c, lws_write msg ∷ [])
      else (record c { write_consume_pending = true }, lws_write msg ∷ callback_on_writable ∷ [])

  -- The message that was written is consumed.
  unfoldable pub consume_written : WebSocketClient → WebSocketClient × List HeapOp
  unfolding destroy_all
  consume_written c =
      if c.write_consume_pending
      then (
        record c { ring = consume_single_tail c.ring; write_consume_pending = false },
        destroy_all (retired c.ring),
      )
      else (c, [])

  unfoldable pub on_writeable : WebSocketClient → ℤ → WebSocketClient × List WsEffect
  unfolding write_front consume_written
  on_writeable c len = let (d, _) = consume_written c in write_front d len (get_element d.ring)

  unfoldable pub rtc_websocket_lws_callback :
      WebSocketClient → WsEvent → WebSocketClient × List WsEffect
  unfolding on_receive on_writeable
  rtc_websocket_lws_callback c client_established =
      (record c { state = ws_open }, ws_connected ∷ [])
  rtc_websocket_lws_callback c client_connection_error =
      (record c { state = ws_error }, ws_error_told ∷ [])
  rtc_websocket_lws_callback c (client_receive bytes remaining final) =
      on_receive c bytes remaining final
  rtc_websocket_lws_callback c (client_writeable len) = on_writeable c len
  rtc_websocket_lws_callback c client_closed = (record c { state = ws_init }, ws_disconnected ∷ [])
  rtc_websocket_lws_callback c other_reason = (c, [])

  unfoldable pub run_callbacks : WebSocketClient → List WsEvent → WebSocketClient × List WsEffect
  unfolding rtc_websocket_lws_callback
  run_callbacks c [] = (c, [])
  run_callbacks c (e ∷ es) =
      let (d, out) = rtc_websocket_lws_callback c e in
      let (f, rest) = run_callbacks d es in (f, out ++ rest)

  -- _websocket_service_loop: whether the thread goes on.
  unfoldable pub websocket_service_loop : WsClientState → Bool
  websocket_service_loop ws_error = false
  websocket_service_loop _ = true
