-- ===== src/Socket/Messages.antt =====
-- signaling_session/RTCWebSocketClient.h and .cc: the messages to be written (ws_msg), what is done with
-- their payloads, and libwebsockets' ring that holds them, which is a parameter.
use aone_webrtc_stt.Base.{ℕ, Bool, Option, List, [], ◌∷◌, ◌++◌}

pub record WsMsg : Type 0 where
  pub payload : List ℕ
  pub is_binary : Bool
  pub is_first : Bool
  pub is_final : Bool

-- What is done with the payload of a message: new, and delete.
pub data HeapOp : Type 0 where
  allocated freed : WsMsg → HeapOp

-- The callback that lws_ring makes for an element that it drops.
unfoldable pub ws_destroy_message : WsMsg → List HeapOp
ws_destroy_message msg = freed msg ∷ []

unfoldable pub destroy_all : List WsMsg → List HeapOp
unfolding ws_destroy_message
destroy_all [] = []
destroy_all (m ∷ ms) = ws_destroy_message m ++ destroy_all ms

-- lws_ring with the client's one tail: the elements that wait, in order, and those that a call of
-- consume_single_tail or of destroy drops.
pub record LwsRing : Type 1 where
  pub Ring : Type 0
  pub waiting : Ring → List WsMsg
  pub count_free_elements : Ring → ℕ
  pub insert : Ring → WsMsg → Option Ring
  pub get_element : Ring → Option WsMsg
  pub consume_single_tail : Ring → Ring
  pub retired : Ring → List WsMsg
  pub count_waiting_elements : Ring → ℕ
  -- lws_ring_consume, which copies nothing.
  pub consume : Ring → ℕ → Ring
  pub destroyed : Ring → List WsMsg
