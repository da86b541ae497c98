-- ===== src/Socket/Balance.antt =====
-- RTCWebSocketClient: what its operations do with the payloads and with the context.
use aone_webrtc_stt.Socket.Lifetime.{uses_ring, Members}
use aone_webrtc_stt.Socket.Ring.{text_msg}
use aone_webrtc_stt.Socket.Messages.{LwsRing}
use aone_webrtc_stt.Socket.Client.{
  consume_written, insert_ring_buffer, reset, WebSocketClientOf, close, WsEffect, is_opened,
  rtc_websocket_lws_callback, on_writeable, on_receive, write_front, WsEvent, client_writeable,
}
use mathlib.Core.List.Perm
use mathlib.Core.List.{Perm, perm_append_singleton}
use mathlib.Core.Path.{subst}
use aone_webrtc_stt.Base.{
  ℤ, ℕ, ◌+◌, ◌≡◌, refl, sym, inl, inr, false, none, some, List, [], ◌∷◌, ◌++◌, append-nil, arith,
  ◌==◌, Bool-cases, Option-cases,
}
use aone_webrtc_stt.Socket.Memory.{
  RingEnds, Balanced, allocations, deletions, contexts_destroyed, destroy_all_lem, context_held,
  held_by,
}
use aone_webrtc_stt.Socket.Pointers.{ptr}

module _ (lws : LwsRing) where
  pub reset_contexts :
      (c : WebSocketClientOf lws.Ring)
      → context_held c.has_wsc
        ≡ contexts_destroyed (reset lws c).1 + context_held (reset lws c).0.has_wsc
  unfolding reset contexts_destroyed
  reset_contexts c = ground arith

  -- What a callback does to the context: nothing.
  pub callback_contexts :
      (c : WebSocketClientOf lws.Ring) (e : WsEvent)
      → let r = rtc_websocket_lws_callback lws c e in
        (contexts_destroyed r.1 ≡ 0) × (r.0.has_wsc ≡ c.has_wsc)
  unfolding rtc_websocket_lws_callback on_receive on_writeable write_front consume_written
      contexts_destroyed
  callback_contexts c (client_writeable len) = ground arith
  callback_contexts c (WsEvent.client_receive none remaining final) = (refl, refl)
  callback_contexts c (WsEvent.client_receive (some []) remaining final) = (refl, refl)
  callback_contexts c (WsEvent.client_receive (some (b ∷ bs)) remaining final) = ground arith
  callback_contexts c WsEvent.client_established = (refl, refl)
  callback_contexts c WsEvent.client_connection_error = (refl, refl)
  callback_contexts c WsEvent.client_closed = (refl, refl)
  callback_contexts c WsEvent.other_reason = (refl, refl)

  -- Nor does it change the connection; and Send does not.
  pub callback_wsi :
      (c : WebSocketClientOf lws.Ring) (e : WsEvent)
      → (rtc_websocket_lws_callback lws c e).0.has_wsi ≡ c.has_wsi
  unfolding rtc_websocket_lws_callback on_receive on_writeable write_front consume_written
  callback_wsi c (client_writeable len) = ground arith
  callback_wsi c (WsEvent.client_receive none remaining final) = refl
  callback_wsi c (WsEvent.client_receive (some []) remaining final) = refl
  callback_wsi c (WsEvent.client_receive (some (b ∷ bs)) remaining final) = ground arith
  callback_wsi c WsEvent.client_established = refl
  callback_wsi c WsEvent.client_connection_error = refl
  callback_wsi c WsEvent.client_closed = refl
  callback_wsi c WsEvent.other_reason = refl

  pub insert_wsi :
      (c : WebSocketClientOf lws.Ring) (msg : List ℕ)
      → (insert_ring_buffer lws c msg).0.has_wsi ≡ c.has_wsi
  unfolding insert_ring_buffer
  insert_wsi c msg = elim (Bool-cases (lws.count_free_elements c.ring == 0)) [
    | inl full ↦ rw full refl
    | inr free ↦ elim (Option-cases (lws.insert c.ring (text_msg msg))) [
      | inl e ↦ rw (free, e) refl
      | inr (r, e) ↦ rw (free, e) refl
    ]
  ]

  pub receive_ring :
      (c : WebSocketClientOf lws.Ring) (e : WsEvent)
      → uses_ring lws e ≡ false
      → (rtc_websocket_lws_callback lws c e).0.ring ≡ c.ring
  unfolding rtc_websocket_lws_callback on_receive
  receive_ring c (client_writeable len) h = cc
  receive_ring c (WsEvent.client_receive none remaining final) h = refl
  receive_ring c (WsEvent.client_receive (some []) remaining final) h = refl
  receive_ring c (WsEvent.client_receive (some (b ∷ bs)) remaining final) h = ground arith
  receive_ring c WsEvent.client_established h = refl
  receive_ring c WsEvent.client_connection_error h = refl
  receive_ring c WsEvent.client_closed h = refl
  receive_ring c WsEvent.other_reason h = refl

module _ (lws : LwsRing) (ends : RingEnds lws) where
  -- Nothing is done with payloads.
  pub same_ring :
      (c d : Members lws) (out : List WsEffect)
      → d.ring ≡ c.ring
      → context_held c.has_wsc ≡ contexts_destroyed out + context_held d.has_wsc
      → Balanced lws ends c (d, [], out)
  unfolding allocations deletions
  same_ring c d out e contexts =
      let held = held_by lws ends c.ring in
      record {
        payloads =
            rw (append-nil held)
              (subst (λ ring. Perm held (held_by lws ends ring)) (sym e) (Perm.refl held));
        contexts = contexts;
      }

  pub close-Balanced :
      (c : WebSocketClientOf lws.Ring)
      → let r = close lws c in Balanced lws ends (ptr lws c) (ptr lws r.0, [], r.2)
  unfolding close reset is_opened contexts_destroyed
  close-Balanced c =
      same_ring (ptr lws c) (ptr lws (close lws c).0) (close lws c).2 (ground arith) (ground arith)

  pub insert-Balanced :
      (c : WebSocketClientOf lws.Ring) (msg : List ℕ) (out : List WsEffect)
      → contexts_destroyed out ≡ 0
      → let r = insert_ring_buffer lws c msg in
        Balanced lws ends (ptr lws c) (ptr lws r.0, r.2, out)
  unfolding insert_ring_buffer allocations deletions
  insert-Balanced c msg out quiet = elim (Bool-cases (lws.count_free_elements c.ring == 0)) [
    | inl full ↦ rw full (same_ring (ptr lws c) (ptr lws c) out refl (omega (arith, quiet)))
    | inr free ↦ elim (Option-cases (lws.insert c.ring (text_msg msg))) [
      | inl e ↦
          rw (free, e)
            (record {
              payloads = perm_append_singleton (text_msg msg) (ends.held c.ring);
              contexts = omega (arith, quiet);
            })
      | inr (r, e) ↦
          rw (free, e)
            (record {
              payloads =
                  subst (λ h. Perm (ends.held c.ring ++ text_msg msg ∷ []) h)
                    (sym (ends.insert_held c.ring (text_msg msg) r e)) (Perm.refl _);
              contexts = omega (arith, quiet);
            })
    ]
  ]

  consume_account :
      (c : WebSocketClientOf lws.Ring)
      → let r = consume_written lws c in
        (allocations r.1 ≡ []) × (ends.held c.ring ≡ deletions r.1 ++ ends.held r.0.ring)
  unfolding consume_written allocations deletions
  consume_account c =
      let (none_new, all_gone) = destroy_all_lem (lws.retired c.ring) in
      elim (Bool-cases c.write_consume_pending) [
        | inl on ↦ rw on (none_new, rw all_gone (ends.retired_held c.ring))
        | inr off ↦ rw off (refl, refl)
      ]

  pub consume-Balanced :
      (c d : WebSocketClientOf lws.Ring) (out : List WsEffect)
      → d.ring ≡ (consume_written lws c).0.ring
      → d.has_wsc ≡ c.has_wsc
      → contexts_destroyed out ≡ 0
      → Balanced lws ends (ptr lws c) (ptr lws d, (consume_written lws c).1, out)
  consume-Balanced c d out e same quiet =
      let (none_new, all) = consume_account c in
      record {
        payloads =
            rw (none_new, append-nil (ends.held c.ring), e)
              (subst (λ h. Perm (ends.held c.ring) h) all (Perm.refl (ends.held c.ring)));
        contexts = rw (quiet, same) (omega arith);
      }

  pub writeable_ring :
      (c : WebSocketClientOf lws.Ring) (len : ℤ)
      → (rtc_websocket_lws_callback lws c (client_writeable len)).0.ring
        ≡ (consume_written lws c).0.ring
  unfolding rtc_websocket_lws_callback on_writeable write_front
  writeable_ring c len = ground arith
