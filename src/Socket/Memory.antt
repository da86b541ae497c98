-- ===== src/Socket/Memory.antt =====
-- RTCWebSocketClient: the payload of every message is deleted once, and so is the context.
use mathlib.Core.List.Perm
use mathlib.Core.List.{Perm}
use aone_webrtc_stt.Base.{
  ℕ, ◌+◌, ◌≡◌, refl, Bool, Option, some, List, [], ◌∷◌, ◌++◌, append_assoc, arith, if◌then◌else◌,
}
use aone_webrtc_stt.Socket.Messages.{LwsRing, WsMsg, HeapOp, allocated, freed, destroy_all}
use aone_webrtc_stt.Socket.Client.{WsEffect, context_destroy}
use aone_webrtc_stt.Socket.Lifetime.{deref, Members, Life}

-- What lws-ring.h says of the elements that a ring holds: those inserted, less those for which it has
-- called back, which it does for an element that the single tail leaves behind, and for those that are
-- left when it is destroyed. lws_ring_consume only moves the tail that it is given.
pub record RingEnds (lws : LwsRing) : Type 0 where
  pub held : lws.Ring → List WsMsg
  pub insert_held :
      (r : lws.Ring) (m : WsMsg) (r' : lws.Ring)
      → lws.insert r m ≡ some r'
      → held r' ≡ held r ++ m ∷ []
  pub retired_held : (r : lws.Ring) → held r ≡ lws.retired r ++ held (lws.consume_single_tail r)
  pub consume_held : (r : lws.Ring) (n : ℕ) → held (lws.consume r n) ≡ held r
  pub destroyed_held : (r : lws.Ring) → lws.destroyed r ≡ held r

-- The payloads that were allocated, and those that were deleted, in order.
unfoldable pub allocations : List HeapOp → List WsMsg
allocations [] = []
allocations (allocated m ∷ ops) = m ∷ allocations ops
allocations (freed m ∷ ops) = allocations ops

unfoldable pub deletions : List HeapOp → List WsMsg
deletions [] = []
deletions (allocated m ∷ ops) = deletions ops
deletions (freed m ∷ ops) = m ∷ deletions ops

-- The contexts destroyed.
unfoldable pub contexts_destroyed : List WsEffect → ℕ
contexts_destroyed [] = 0
contexts_destroyed (context_destroy ∷ out) = 1 + contexts_destroyed out
contexts_destroyed (_ ∷ out) = contexts_destroyed out

abbrev pub context_held : Bool → ℕ
context_held has_wsc = if has_wsc then 1 else 0

allocations-append : (a b : List HeapOp) → allocations (a ++ b) ≡ allocations a ++ allocations b
unfolding allocations
allocations-append [] b = refl
allocations-append (allocated m ∷ a) b = rw (allocations-append a b)
allocations-append (freed m ∷ a) b = allocations-append a b

deletions-append : (a b : List HeapOp) → deletions (a ++ b) ≡ deletions a ++ deletions b
unfolding deletions
deletions-append [] b = refl
deletions-append (allocated m ∷ a) b = deletions-append a b
deletions-append (freed m ∷ a) b = rw (deletions-append a b)

pub destroy_all_lem :
    (ms : List WsMsg) → (allocations (destroy_all ms) ≡ []) × (deletions (destroy_all ms) ≡ ms)
unfolding allocations deletions destroy_all
destroy_all_lem [] = (refl, refl)
destroy_all_lem (m ∷ ms) = let (a, d) = destroy_all_lem ms in (a, rw d)

pub contexts_destroyed-append :
    (a b : List WsEffect)
    → contexts_destroyed (a ++ b) ≡ contexts_destroyed a + contexts_destroyed b
unfolding contexts_destroyed
contexts_destroyed-append [] b = omega arith
contexts_destroyed-append (context_destroy ∷ a) b = omega (arith, contexts_destroyed-append a b)
contexts_destroyed-append (WsEffect.ws_connected ∷ a) b = contexts_destroyed-append a b
contexts_destroyed-append (WsEffect.ws_error_told ∷ a) b = contexts_destroyed-append a b
contexts_destroyed-append (WsEffect.ws_disconnected ∷ a) b = contexts_destroyed-append a b
contexts_destroyed-append (WsEffect.callback_on_writable ∷ a) b = contexts_destroyed-append a b
contexts_destroyed-append (WsEffect.callback_on_null ∷ a) b = contexts_destroyed-append a b
contexts_destroyed-append (WsEffect.close_reason ∷ a) b = contexts_destroyed-append a b
contexts_destroyed-append (WsEffect.cancel_service ∷ a) b = contexts_destroyed-append a b
contexts_destroyed-append (WsEffect.ws_message m ∷ a) b = contexts_destroyed-append a b
contexts_destroyed-append (WsEffect.lws_write m ∷ a) b = contexts_destroyed-append a b

-- One part of a life after another.
Perm-chain :
    {A : Type 0} (h a b f g k l : List A)
    → Perm (h ++ a) (f ++ k)
    → Perm (k ++ b) (g ++ l)
    → Perm (h ++ (a ++ b)) ((f ++ g) ++ l)
Perm-chain h a b f g k l first later =
    rw (← append_assoc h a b, append_assoc f g l)
      (Perm.trans (Perm.append_right b first) (rw (append_assoc f k b) (Perm.append_left f later)))

module _ (lws : LwsRing) (ends : RingEnds lws) where
  abbrev pub held_by : Option lws.Ring → List WsMsg
  held_by = deref [] ends.held

  -- What was held and is allocated is deleted or held then; and the same of the context.
  pub record Balanced (c : Members lws) (r : Life lws) : Type 0 where
    pub payloads : Perm (held_by c.ring ++ allocations r.1) (deletions r.1 ++ held_by r.0.ring)
    pub contexts : context_held c.has_wsc ≡ contexts_destroyed r.2 + context_held r.0.has_wsc

  pub chain-Balanced :
      (c : Members lws) (r q : Life lws)
      → Balanced c r
      → Balanced r.0 q
      → Balanced c (q.0, r.1 ++ q.1, r.2 ++ q.2)
  chain-Balanced c r q h k = record {
    payloads =
        rw (allocations-append r.1 q.1, deletions-append r.1 q.1)
          (Perm-chain (held_by c.ring) (allocations r.1) (allocations q.1) (deletions r.1)
            (deletions q.1) (held_by r.0.ring) (held_by q.0.ring) h.payloads k.payloads);
    contexts = omega (arith, contexts_destroyed-append r.2 q.2, h.contexts, k.contexts);
  }
