-- ===== src/Socket/Lifetime.antt =====
-- RTCWebSocketClient from its constructor to its destructor: the ring that it holds by a pointer, the
-- service thread, and the payloads of the messages. A step that uses a null ring, and a Send whose connection is null, is a fault. What
-- lws_context_destroy tells the callback is not modelled.
use aone_webrtc_stt.Base.{
  ℕ, String, Bool, true, false, not, ◌&&◌, ◌||◌, Option, none, some, List, [], ◌∷◌, ◌++◌, ltb,
  if◌then◌else◌, ◌>>=◌, is_ok,
}
use aone_webrtc_stt.Socket.Messages.{LwsRing, HeapOp, destroy_all}
use aone_webrtc_stt.Socket.Client.{
  WebSocketClientOf, WsEvent, WsEffect, OpenOutcome, client_writeable, new_client, reset,
  open_client, close, send, insert_ring_buffer, consume_written, rtc_websocket_lws_callback,
  websocket_service_loop,
}

abbrev pub deref {ℓ κ} : {A : Type ℓ} {B : Type κ} → B → (A → B) → Option A → B
deref b f none = b
deref b f (some a) = f a

-- A call of Send or Close, or a turn of the service thread in which lws calls back.
pub data LifeStep : Type 0 where
  send_step : List ℕ → LifeStep
  close_step : LifeStep
  service : WsEvent → LifeStep

-- Every Send comes while the connection is there: where it was made, and before any Close.
abbrev pub SendsConnected : Bool → List LifeStep → Type 0
SendsConnected connected [] = Unit
SendsConnected true (send_step msg ∷ steps) = SendsConnected true steps
SendsConnected false (send_step msg ∷ steps) = ⊥
SendsConnected connected (close_step ∷ steps) = SendsConnected false steps
SendsConnected connected (service e ∷ steps) = SendsConnected connected steps

-- Open has made the connection.
abbrev pub connects : OpenOutcome → Bool
connects outcome = outcome.context && outcome.connection && is_ok outcome.thread

module _ (lws : LwsRing) where
  -- The ring behind its pointer; what stands for a null pointer is not used.
  abbrev pub pointers : LwsRing
  pointers = record {
    Ring = Option lws.Ring;
    waiting = deref [] lws.waiting;
    count_free_elements = deref 0 lws.count_free_elements;
    insert = λ ring msg. ring >>= λ r. lws.insert r msg >>= λ r'. some (some r');
    get_element = deref none lws.get_element;
    consume_single_tail = deref none (λ r. some (lws.consume_single_tail r));
    retired = deref [] lws.retired;
    count_waiting_elements = deref 0 lws.count_waiting_elements;
    consume = λ ring n. ring >>= λ r. some (lws.consume r n);
    destroyed = deref [] lws.destroyed;
  }

  abbrev pub Members : Type 0
  Members = WebSocketClientOf (Option lws.Ring)

  -- The client, what was done with payloads, and what the client did.
  abbrev pub Life : Type 0
  Life = Members × List HeapOp × List WsEffect

  -- _create_ws_ring_buffer: the pointer that lws_ring_create gives. The constructor drops the status.
  unfoldable pub create_ws_ring_buffer : Option lws.Ring → Members → Members
  create_ws_ring_buffer created c = record c { ring = created }

  unfoldable pub construct : Option lws.Ring → Members
  unfolding create_ws_ring_buffer new_client
  construct created = create_ws_ring_buffer created (new_client pointers none)

  abbrev pub uses_ring : WsEvent → Bool
  uses_ring (client_writeable len) = true
  uses_ring _ = false

  abbrev pub heap_of : Members → WsEvent → List HeapOp
  heap_of c (client_writeable len) = (consume_written pointers c).1
  heap_of c _ = []

  abbrev pub is_null : Option lws.Ring → Bool
  is_null none = true
  is_null (some r) = false

  -- threadLoop with _websocket_service_loop: lws_service, unless there is no thread or it has ended.
  unfoldable pub thread_turn : Members → WsEvent → Option Life
  unfolding websocket_service_loop rtc_websocket_lws_callback consume_written
  thread_turn c e =
      let (d, out) = rtc_websocket_lws_callback pointers c e in
      if c.has_thread && websocket_service_loop pointers c.state
      then (if uses_ring e && is_null c.ring then none else some (d, heap_of c e, out))
      else some (c, [], [])

  unfoldable pub life_step : Members → LifeStep → Option Life
  unfolding thread_turn send close insert_ring_buffer
  life_step c (send_step msg) =
      let (d, ret, out) = send pointers c msg in
      if is_null c.ring || (is_ok ret && not d.has_wsi)
      then none
      else some (d, (insert_ring_buffer pointers c msg).2, out)
  life_step c close_step = let (d, _, out) = close pointers c in some (d, [], out)
  life_step c (service e) = thread_turn c e

  unfoldable pub run_life : Members → List LifeStep → Option Life
  unfolding life_step
  run_life c [] = some (c, [], [])
  run_life c (s ∷ steps) = life_step c s >>= λ (d, ops, out).
      run_life d steps >>= λ (f, ops', out'). some (f, ops ++ ops', out ++ out')

  abbrev pub emptied : lws.Ring → ℕ → lws.Ring
  emptied r pendings = if ltb 0 pendings then lws.consume r pendings else r

  -- _reset_ring: what waits is consumed, and the ring is destroyed.
  unfoldable pub reset_ring : Members → Option lws.Ring → Members × List HeapOp
  unfolding destroy_all
  reset_ring c none = (c, [])
  reset_ring c (some r) = (
    record c { ring = none },
    destroy_all (lws.destroyed (emptied r (lws.count_waiting_elements r))),
  )

  abbrev pub services : List WsEvent → List LifeStep
  services [] = []
  services (e ∷ es) = service e ∷ services es

  -- The destructor, with the turns that the service thread has before _reset stops it.
  unfoldable pub destruct : Members → List WsEvent → Option Life
  unfolding reset_ring run_life reset
  destruct c es =
      let (d, ops) = reset_ring c c.ring in
      run_life d (services es) >>= λ (f, ops', out).
      let (g, out') = reset pointers f in some (g, ops ++ ops', out ++ out')

  -- A whole life: Open follows the constructor, as in the session.
  unfoldable pub whole_life :
      Option lws.Ring → OpenOutcome → String → String → List LifeStep → List WsEvent → Option Life
  unfolding construct open_client destruct
  whole_life created outcome host path steps es =
      let (c, _, out) = open_client pointers outcome (construct created) host path in
      run_life c steps >>= λ (d, ops, out').
      destruct d es >>= λ (f, ops', out''). some (f, ops ++ ops', out ++ (out' ++ out''))
