-- ===== src/Tests/SocketLife.antt =====
-- The life of a web socket client, with a ring that holds two messages.
use mathlib.Core.Path.{subst}
use aone_webrtc_stt.Socket.Ring.{front, rest}
use aone_webrtc_stt.Socket.Memory.{RingEnds, deletions, contexts_destroyed}
use aone_webrtc_stt.Socket.Messages.{LwsRing, WsMsg}
use aone_webrtc_stt.Socket.Client.{WsEvent, OpenOutcome, client_writeable}
use aone_webrtc_stt.Socket.Lifetime.{LifeStep, Life, whole_life, service, send_step}
use aone_webrtc_stt.Base.{
  length, take, drop, pos, ℕ, zero, suc, ◌-◌, ◌≡◌, refl, sym, ap, ◌∙◌, inl, inr, true, false,
  Option, none, some, List, [], ◌∷◌, ◌++◌, append-nil, append_assoc, ltb, if◌then◌else◌, Bool-cases,
  some_inj, ok,
}
use aone_webrtc_stt.Socket.Ring.{payloads}

-- The elements that a tail has left and that are still held, and those that wait.
abbrev small_ring : LwsRing
small_ring = record {
  Ring = List WsMsg × List WsMsg;
  waiting = λ r. r.1;
  count_free_elements = λ r. 2 - length (r.0 ++ r.1);
  insert = λ r m. if ltb (length (r.0 ++ r.1)) 2 then some (r.0, r.1 ++ m ∷ []) else none;
  get_element = λ r. front r.1;
  consume_single_tail = λ r. ([], rest r.1);
  retired = λ r. r.0 ++ take 1 r.1;
  count_waiting_elements = λ r. length r.1;
  consume = λ r n. (r.0 ++ take n r.1, drop n r.1);
  destroyed = λ r. r.0 ++ r.1;
}

inserted_held :
    (r : List WsMsg × List WsMsg) (m : WsMsg) (r' : List WsMsg × List WsMsg)
    → small_ring.insert r m ≡ some r'
    → r'.0 ++ r'.1 ≡ (r.0 ++ r.1) ++ m ∷ []
inserted_held (moved, wait) m r' e = elim (Bool-cases (ltb (length (moved ++ wait)) 2)) [
  | inr full ↦ let e' = rw full at e in cc
  | inl room ↦
      let e' = rw room at e in
      subst (λ (r' : List WsMsg × List WsMsg). r'.0 ++ r'.1 ≡ (moved ++ wait) ++ m ∷ [])
        (some_inj e') (sym (append_assoc moved wait (m ∷ [])))
]

retired_held : (r : List WsMsg × List WsMsg) → r.0 ++ r.1 ≡ (r.0 ++ take 1 r.1) ++ rest r.1
retired_held (moved, []) = rw (append-nil moved) (sym (append-nil moved))
retired_held (moved, m ∷ wait) = sym (append_assoc moved (m ∷ []) wait)

take-append-drop : (n : ℕ) (ms : List WsMsg) → take n ms ++ drop n ms ≡ ms
take-append-drop zero ms = refl
take-append-drop (suc n) [] = refl
take-append-drop (suc n) (m ∷ ms) = rw (take-append-drop n ms)

abbrev small_ring_ends : RingEnds small_ring
small_ring_ends = record {
  held = λ r. r.0 ++ r.1;
  insert_held = inserted_held;
  retired_held = retired_held;
  consume_held = λ r n.
      append_assoc r.0 (take n r.1) (drop n r.1) ∙ ap (λ ms. r.0 ++ ms) (take-append-drop n r.1);
  destroyed_held = λ r. refl;
}

abbrev opens : OpenOutcome
opens = record { context = true; connection = true; thread = ok; told = false }

-- Three texts, of which the third finds the ring full; the first is written and consumed.
abbrev life_steps : List LifeStep
life_steps =
    service WsEvent.client_established
    ∷ send_step (104 ∷ [])
    ∷ send_step (105 ∷ [])
    ∷ send_step (106 ∷ [])
    ∷ service (client_writeable (pos 1))
    ∷ service (client_writeable (pos 1))
    ∷ []

abbrev ending : List WsEvent
ending = WsEvent.client_closed ∷ []

-- Two payloads are allocated; the destructor deletes the one that is left.
abbrev deleted : Option (Life small_ring) → List (List ℕ) × ℕ
deleted none = ([], 0)
deleted (some q) = (payloads (deletions q.1), contexts_destroyed q.2)

life_deleted :
    deleted (
      whole_life small_ring
        (some ([], []))
        opens
        "10.0.0.1"
        "node"
        life_steps
        (WsEvent.client_closed ∷ []))
    ≡ ((104 ∷ []) ∷ (105 ∷ []) ∷ [], 1)
unfolding whole_life deletions contexts_destroyed
life_deleted = refl
