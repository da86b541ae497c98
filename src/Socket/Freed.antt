-- ===== src/Socket/Freed.antt =====
-- RTCWebSocketClient: a run of steps, with its ring and without it, keeps account of the payloads and
-- of the context.
use aone_webrtc_stt.Socket.Pointers.{insert-ptr, consume-ptr, ptr, callback-ptr, close-ptr}
use aone_webrtc_stt.Socket.Lifetime.{
  SendsConnected, run_life, thread_turn, life_step, Life, LifeStep, send_step, heap_of, pointers,
  uses_ring, service, Members, services,
}
use aone_webrtc_stt.Socket.Memory.{
  RingEnds, contexts_destroyed, chain-Balanced, Balanced, context_held,
}
use aone_webrtc_stt.Socket.Messages.{LwsRing, HeapOp}
use aone_webrtc_stt.Socket.Client.{
  WebSocketClientOf, send, WsEvent, rtc_websocket_lws_callback, WsEffect, websocket_service_loop,
  insert_ring_buffer, callback_on_writable, close, client_writeable,
}
use aone_webrtc_stt.Base.{
  All, ℕ, ◌+◌, ◌≡◌, refl, ap, ◌∙◌, inl, inr, Bool, true, false, ◌&&◌, Option, none, some, List, [],
  ◌∷◌, ◌++◌, arith, if◌then◌else◌, Bool-cases, bind-eq, is_ok,
}
use aone_webrtc_stt.Socket.Balance.{
  same_ring, close-Balanced, insert-Balanced, consume-Balanced, callback_contexts, callback_wsi,
  insert_wsi, receive_ring, writeable_ring,
}

module _ (lws : LwsRing) (ends : RingEnds lws) where
  stays :
      (c : WebSocketClientOf lws.Ring)
      → context_held c.has_wsc ≡ contexts_destroyed [] + context_held c.has_wsc
  unfolding contexts_destroyed
  stays c = omega arith

  other-Balanced :
      (c : WebSocketClientOf lws.Ring) (e : WsEvent)
      → uses_ring lws e ≡ false
      → let r = rtc_websocket_lws_callback lws c e in
        Balanced lws ends (ptr lws c) (ptr lws r.0, [], r.1)
  other-Balanced c e h =
      let (quiet, same) = callback_contexts lws c e in
      same_ring lws ends (ptr lws c) (ptr lws _) _ (ap some (receive_ring lws c e h))
        (rw (quiet, same) (omega arith))

  callback-Balanced :
      (c : WebSocketClientOf lws.Ring) (e : WsEvent)
      → let r = rtc_websocket_lws_callback lws c e in
        Balanced lws ends (ptr lws c) (ptr lws r.0, heap_of lws (ptr lws c) e, r.1)
  callback-Balanced c (client_writeable len) =
      let (quiet, same) = callback_contexts lws c (client_writeable len) in
      rw (heap_of, consume-ptr lws c)
        (consume-Balanced lws ends c _ _ (writeable_ring lws ends c len) same quiet)
  callback-Balanced c (WsEvent.client_receive bytes remaining final) =
      other-Balanced c (WsEvent.client_receive bytes remaining final) refl
  callback-Balanced c WsEvent.client_established = other-Balanced c WsEvent.client_established refl
  callback-Balanced c WsEvent.client_connection_error =
      other-Balanced c WsEvent.client_connection_error refl
  callback-Balanced c WsEvent.client_closed = other-Balanced c WsEvent.client_closed refl
  callback-Balanced c WsEvent.other_reason = other-Balanced c WsEvent.other_reason refl

  -- A step that has no fault, and leaves the ring where it is and the connection if it is to.
  abbrev pub Goes : Bool → WebSocketClientOf lws.Ring → Option (Life lws) → Type 0
  Goes connected c done =
      (q : WebSocketClientOf lws.Ring) × (ops : List HeapOp) × (out : List WsEffect) × (done
        ≡ some (ptr lws q, ops, out))
      × Balanced lws ends (ptr lws c) (ptr lws q, ops, out)
      × (connected ≡ true → q.has_wsi ≡ true)

  turn-Goes :
      (b : Bool) (c : WebSocketClientOf lws.Ring) (e : WsEvent)
      → (b ≡ true → c.has_wsi ≡ true)
      → Goes b c (thread_turn lws (ptr lws c) e)
  unfolding thread_turn
  turn-Goes b c e wsi =
      let r = rtc_websocket_lws_callback lws c e in
      elim (Bool-cases (c.has_thread && websocket_service_loop (pointers lws) c.state)) [
        | inr idle ↦
            (c, [], [], rw idle, same_ring lws ends (ptr lws c) (ptr lws c) [] refl (stays c), wsi)
        | inl runs ↦ (
          r.0,
          heap_of lws (ptr lws c) e,
          r.1,
          rw (runs, callback-ptr lws c e) (ground arith),
          callback-Balanced c e,
          λ on. callback_wsi lws c e ∙ wsi on,
        )
      ]

  send-Goes :
      (c : WebSocketClientOf lws.Ring) (msg : List ℕ)
      → c.has_wsi ≡ true
      → Goes true c (life_step lws (ptr lws c) (send_step msg))
  unfolding life_step send contexts_destroyed
  send-Goes c msg wsi =
      let r = insert_ring_buffer lws c msg in
      let kept : r.0.has_wsi ≡ true = insert_wsi lws c msg ∙ wsi in
      (
        r.0,
        r.2,
        if is_ok r.1 then callback_on_writable ∷ [] else [],
        rw (insert-ptr lws c msg, kept) (ground arith),
        insert-Balanced lws ends c msg _ (ground arith),
        λ _. kept,
      )

  close-Goes :
      (c : WebSocketClientOf lws.Ring)
      → Goes false c (life_step lws (ptr lws c) LifeStep.close_step)
  unfolding life_step
  close-Goes c =
      let r = close lws c in
      (r.0, [], r.2, rw (close-ptr lws c), close-Balanced lws ends c, λ off. cc)

  -- A step, and the steps behind it.
  more-Goes :
      (b : Bool) (c : WebSocketClientOf lws.Ring) (s : LifeStep) (steps : List LifeStep)
      → Goes b c (life_step lws (ptr lws c) s)
      → ((q : WebSocketClientOf lws.Ring)
          → (b ≡ true → q.has_wsi ≡ true)
          → Goes false q (run_life lws (ptr lws q) steps))
      → Goes false c (run_life lws (ptr lws c) (s ∷ steps))
  unfolding run_life
  more-Goes b c s steps (d, ops, out, went, first, wsi) later =
      let (f, ops', out', ran, rest, lost) = later d wsi in
      (
        f,
        ops ++ ops',
        out ++ out',
        bind-eq _ _ went (bind-eq _ _ ran refl),
        chain-Balanced lws ends (ptr lws c) (ptr lws d, ops, out) (ptr lws f, ops', out') first
            rest,
        lost,
      )

  pub run-Goes :
      (steps : List LifeStep) (b : Bool) (c : WebSocketClientOf lws.Ring)
      → (b ≡ true → c.has_wsi ≡ true)
      → SendsConnected b steps
      → Goes false c (run_life lws (ptr lws c) steps)
  unfolding run_life life_step contexts_destroyed
  run-Goes [] b c wsi h =
      (c, [], [], refl, same_ring lws ends (ptr lws c) (ptr lws c) [] refl (stays c), λ off. cc)
  run-Goes (send_step msg ∷ steps) false c wsi h = absurd h
  run-Goes (send_step msg ∷ steps) true c wsi h =
      more-Goes true c (send_step msg) steps (send-Goes c msg (wsi refl))
        (λ q kept. run-Goes steps true q kept h)
  run-Goes (LifeStep.close_step ∷ steps) b c wsi h =
      more-Goes false c LifeStep.close_step steps (close-Goes c)
        (λ q lost. run-Goes steps false q lost h)
  run-Goes (service e ∷ steps) b c wsi h =
      more-Goes b c (service e) steps (turn-Goes b c e wsi) (λ q kept. run-Goes steps b q kept h)

  heap_none : (c : Members lws) (e : WsEvent) → uses_ring lws e ≡ false → heap_of lws c e ≡ []
  heap_none c (client_writeable len) h = cc
  heap_none c (WsEvent.client_receive bytes remaining final) h = refl
  heap_none c WsEvent.client_established h = refl
  heap_none c WsEvent.client_connection_error h = refl
  heap_none c WsEvent.client_closed h = refl
  heap_none c WsEvent.other_reason h = refl

  -- What goes on with a null ring.
  abbrev pub NullGoes : Members lws → Option (Life lws) → Type 0
  NullGoes c done = (r : Life lws) × (done ≡ some r) × (r.0.ring ≡ none) × Balanced lws ends c r

  null_turn :
      (c : Members lws) (e : WsEvent)
      → c.ring ≡ none
      → uses_ring lws e ≡ false
      → NullGoes c (thread_turn lws c e)
  unfolding thread_turn contexts_destroyed
  null_turn c e null h =
      let r = rtc_websocket_lws_callback (pointers lws) c e in
      let kept = receive_ring (pointers lws) c e h in
      let (quiet, same) = callback_contexts (pointers lws) c e in
      elim (Bool-cases (c.has_thread && websocket_service_loop (pointers lws) c.state)) [
        | inr idle ↦ ((c, [], []), rw idle, null, same_ring lws ends c c [] refl (omega arith))
        | inl runs ↦ (
          (r.0, [], r.1),
          rw (runs, h, heap_none c e h),
          kept ∙ null,
          same_ring lws ends c r.0 r.1 kept (rw (quiet, same) (omega arith)),
        )
      ]

  pub null_turns :
      (es : List WsEvent) (c : Members lws)
      → c.ring ≡ none
      → All (λ e. uses_ring lws e ≡ false) es
      → NullGoes c (run_life lws c (services lws es))
  unfolding run_life life_step contexts_destroyed
  null_turns [] c null h = ((c, [], []), refl, null, same_ring lws ends c c [] refl (omega arith))
  null_turns (e ∷ es) c null h =
      let (r, went, null', first) = null_turn c e null h.0 in
      let (q, later, null'', rest) = null_turns es r.0 null' h.1 in
      (
        (q.0, r.1 ++ q.1, r.2 ++ q.2),
        bind-eq _ _ went (bind-eq _ _ later refl),
        null'',
        chain-Balanced lws ends c r q first rest,
      )
