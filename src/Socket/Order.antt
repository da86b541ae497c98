-- ===== src/Socket/Order.antt =====
-- RTCWebSocketClient::Send and LWS_CALLBACK_CLIENT_WRITEABLE: the texts leave in the order in which
-- they were accepted.
use aone_webrtc_stt.Base.{
  length, ℤ, ℕ, ◌≡◌, refl, sym, ap, ◌∙◌, ◌≢◌, inl, inr, Bool, true, false, not, ◌||◌, none, some,
  List, [], ◌∷◌, ◌++◌, append-nil, append_assoc, arith, ltb, ◌==◌, Bool-cases, Option-cases,
}
use aone_webrtc_stt.Socket.Messages.{LwsRing, WsMsg}
use aone_webrtc_stt.Socket.Client.{
  new_client, WebSocketClientOf, WsEvent, client_writeable, client_receive, send, on_writeable,
  write_front, on_receive, consume_written, rtc_websocket_lws_callback, insert_ring_buffer, ws_open,
  len_less, ws_error, ws_init,
}
use aone_webrtc_stt.Socket.Ring.{
  rest, front, payloads, behind, RingLaws, IoStep, send_call, callback, written, Io, io_step,
  run_io, unwritten, text_msg,
}

payloads-append : (ms ns : List WsMsg) → payloads (ms ++ ns) ≡ payloads ms ++ payloads ns
payloads-append [] ns = refl
payloads-append (m ∷ ms) ns = rw (payloads-append ms ns)

behind-append :
    (p : Bool) (ms ns : List WsMsg) → (p ≡ true → ms ≢ []) → behind p (ms ++ ns) ≡ behind p ms ++ ns
behind-append false ms ns h = refl
behind-append true [] ns h = absurd (h refl refl)
behind-append true (m ∷ ms) ns h = refl

append_nonempty : (ms : List WsMsg) (m : WsMsg) → ms ++ m ∷ [] ≢ []
append_nonempty [] m e = cc
append_nonempty (n ∷ ms) m e = cc

chained :
    {A : Type 0} (a b w u x y v : List A)
    → a ++ u ≡ v ++ x
    → b ++ w ≡ u ++ y
    → (a ++ b) ++ w ≡ v ++ (x ++ y)
chained a b w u x y v first later =
    append_assoc a b w
    ∙ ap (λ l. a ++ l) later
    ∙ sym (append_assoc a u y)
    ∙ ap (λ l. l ++ y) first
    ∙ append_assoc v x y

module _ (lws : LwsRing) (laws : RingLaws lws) where
  -- A message that was written is still in the ring.
  abbrev IsConsistent : WebSocketClientOf lws.Ring → Type 0
  IsConsistent c = c.write_consume_pending ≡ true → lws.waiting c.ring ≢ []

  record Keeps (c : WebSocketClientOf lws.Ring) (r : Io lws) : Type 0 where
    consistent : IsConsistent r.0
    order : payloads r.2 ++ payloads (unwritten lws r.0) ≡ payloads (unwritten lws c) ++ r.1

  refused-Keeps : (c : WebSocketClientOf lws.Ring) → IsConsistent c → Keeps c (c, [], [])
  refused-Keeps c h = record {
    consistent = h;
    order = sym (append-nil (payloads (unwritten lws c)));
  }

  inserted-Keeps :
      (c : WebSocketClientOf lws.Ring) (m : WsMsg) (r : lws.Ring)
      → IsConsistent c
      → lws.insert c.ring m ≡ some r
      → Keeps c (record c { ring = r }, m.payload ∷ [], [])
  inserted-Keeps c m r h e =
      let grown = laws.insert_lem c.ring m r e in
      record {
        consistent = λ p empty. append_nonempty (lws.waiting c.ring) m (sym grown ∙ empty);
        order =
            ap (λ ms. payloads (behind c.write_consume_pending ms)) grown
            ∙ ap payloads (behind-append c.write_consume_pending (lws.waiting c.ring) (m ∷ []) h)
            ∙ payloads-append (unwritten lws c) (m ∷ []);
      }

  send-Keeps :
      (c : WebSocketClientOf lws.Ring) (msg : List ℕ)
      → IsConsistent c
      → Keeps c (io_step lws c (send_call msg))
  unfolding io_step send insert_ring_buffer
  send-Keeps c msg h = elim (Bool-cases (lws.count_free_elements c.ring == 0)) [
    | inl full ↦ rw full (refused-Keeps c h)
    | inr free ↦ elim (Option-cases (lws.insert c.ring (text_msg msg))) [
      | inl e ↦ rw (free, e) (refused-Keeps c h)
      | inr (r, e) ↦ rw (free, e) (inserted-Keeps c (text_msg msg) r h e)
    ]
  ]

  written-Keeps :
      (c : WebSocketClientOf lws.Ring) (m : WsMsg) (ms : List WsMsg)
      → c.write_consume_pending ≡ false
      → lws.waiting c.ring ≡ m ∷ ms
      → Keeps c (record c { write_consume_pending = true }, [], m ∷ [])
  written-Keeps c m ms off e =
      let first : unwritten lws c ≡ m ∷ ms = ap (λ p. behind p (lws.waiting c.ring)) off ∙ e in
      record {
        consistent = λ on empty. cc (sym e ∙ empty);
        order =
            ap (λ w. m.payload ∷ payloads (rest w)) e
            ∙ sym (append-nil (payloads (m ∷ ms)))
            ∙ ap (λ w. payloads w ++ []) (sym first);
      }

  -- The front is written, with nothing to consume.
  write_front-Keeps :
      (c : WebSocketClientOf lws.Ring) (len : ℤ) (ms : List WsMsg)
      → c.write_consume_pending ≡ false
      → lws.waiting c.ring ≡ ms
      → let w = write_front lws c len (lws.get_element c.ring) in Keeps c (w.0, [], written w.1)
  unfolding write_front written
  write_front-Keeps c len [] off e =
      rw (laws.get_element_lem c.ring ∙ ap front e) (refused-Keeps c (λ on. cc (sym on ∙ off)))
  write_front-Keeps c len (m ∷ ms) off e =
      rw (laws.get_element_lem c.ring ∙ ap front e)
        (elim (Bool-cases (len_less len (length m.payload))) [
          | inl less ↦ rw less (refused-Keeps c (λ on. cc (sym on ∙ off)))
          | inr whole ↦ rw whole (written-Keeps c m ms off e)
        ])

  -- The client behind the consumption of what was written.
  abbrev consumed : WebSocketClientOf lws.Ring → WebSocketClientOf lws.Ring
  consumed c = (consume_written lws c).0

  consumed_lem :
      (c : WebSocketClientOf lws.Ring)
      → ((consumed c).write_consume_pending ≡ false)
        × (unwritten lws (consumed c) ≡ unwritten lws c)
  unfolding consume_written
  consumed_lem c = ground (arith, laws.consume_lem c.ring)

  same-Keeps :
      (c d : WebSocketClientOf lws.Ring)
      → IsConsistent d
      → unwritten lws d ≡ unwritten lws c
      → Keeps c (d, [], [])
  same-Keeps c d h e = record {
    consistent = h;
    order = ap payloads e ∙ sym (append-nil (payloads (unwritten lws c)));
  }

  callback-Keeps :
      (c : WebSocketClientOf lws.Ring) (e : WsEvent)
      → IsConsistent c
      → Keeps c (io_step lws c (callback e))
  unfolding io_step rtc_websocket_lws_callback written on_receive on_writeable
  callback-Keeps c (client_writeable len) h =
      let (off, same) = consumed_lem c in
      let k = write_front-Keeps (consumed c) len (lws.waiting (consumed c).ring) off refl in
      record { consistent = k.consistent; order = k.order ∙ ap (λ ms. payloads ms ++ []) same }
  callback-Keeps c (client_receive none remaining final) h = refused-Keeps c h
  callback-Keeps c (client_receive (some []) remaining final) h = refused-Keeps c h
  callback-Keeps c (client_receive (some (b ∷ bs)) remaining final) h =
      elim (Bool-cases (ltb 0 remaining || not final)) [
        | inl more ↦ rw more (same-Keeps c (record c { recv_msg = c.recv_msg ++ b ∷ bs }) h refl)
        | inr last ↦ rw last (same-Keeps c (record c { recv_msg = [] }) h refl)
      ]
  callback-Keeps c WsEvent.client_established h = same-Keeps c (record c { state = ws_open }) h refl
  callback-Keeps c WsEvent.client_connection_error h =
      same-Keeps c (record c { state = ws_error }) h refl
  callback-Keeps c WsEvent.client_closed h = same-Keeps c (record c { state = ws_init }) h refl
  callback-Keeps c WsEvent.other_reason h = refused-Keeps c h

  step-Keeps :
      (c : WebSocketClientOf lws.Ring) (step : IoStep)
      → IsConsistent c
      → Keeps c (io_step lws c step)
  step-Keeps c (send_call msg) h = send-Keeps c msg h
  step-Keeps c (callback e) h = callback-Keeps c e h

  run_io-Keeps :
      (steps : List IoStep) (c : WebSocketClientOf lws.Ring)
      → IsConsistent c
      → Keeps c (run_io lws c steps)
  unfolding run_io
  run_io-Keeps [] c h = refused-Keeps c h
  run_io-Keeps (step ∷ steps) c h =
      let first = step-Keeps c step h in
      let later = run_io-Keeps steps (io_step lws c step).0 first.consistent in
      record {
        consistent = later.consistent;
        order =
            (let s = io_step lws c step in
              let r = run_io lws s.0 steps in
              ap (λ l. l ++ payloads (unwritten lws r.0)) (payloads-append s.2 r.2)
              ∙ chained (payloads s.2) (payloads r.2) (payloads (unwritten lws r.0))
                  (payloads (unwritten lws s.0)) s.1 r.1 (payloads (unwritten lws c)) first.order
                  later.order);
      }

-- From a client that has nothing to consume, over any calls of Send and any callbacks of the service,
-- whatever lws_write returns: the texts that were written whole, as the client takes it, and then
-- those that are still to be written are, in order, those that were to be written before and those
-- that Send accepted: none is lost, doubled or reordered.
pub run_io-order :
    (lws : LwsRing) (steps : List IoStep) (c : WebSocketClientOf lws.Ring)
    → RingLaws lws
    → c.write_consume_pending ≡ false
    → let r = run_io lws c steps in
      payloads r.2 ++ payloads (unwritten lws r.0) ≡ payloads (lws.waiting c.ring) ++ r.1
run_io-order lws steps c laws off =
    (run_io-Keeps lws laws steps c (λ on. cc (sym on ∙ off))).order
    ∙ ap (λ p. payloads (behind p (lws.waiting c.ring)) ++ (run_io lws c steps).1) off

-- So from the start: what a new client with an empty ring has written, and has still to write, is
-- what Send accepted, in order.
new_client-order :
    (lws : LwsRing) (steps : List IoStep) (ring : lws.Ring)
    → RingLaws lws
    → lws.waiting ring ≡ []
    → let r = run_io lws (new_client lws ring) steps in
      payloads r.2 ++ payloads (unwritten lws r.0) ≡ r.1
unfolding new_client
new_client-order lws steps ring laws empty =
    run_io-order lws steps (new_client lws ring) laws refl
    ∙ ap (λ ms. payloads ms ++ (run_io lws (new_client lws ring) steps).1) empty
