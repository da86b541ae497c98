-- ===== src/Program/Controller.antt =====
-- rtc_server_node_controller/RTCServerNodeController.cc: the controller, which passes the program's
-- calls on to the node. `has_impl` says that impl_ is not null.
use aone_webrtc_stt.Base.{
  ℤ, ℕ, ◌-◌, ◌^◌, ◌≡◌, ◌⊎◌, inl, inr, Bool, true, List, [], ◌∷◌, ◌++◌, if◌then◌else◌,
}
use aone_webrtc_stt.Program.Main.{MainEffect, node_start, node_stop, run_main, run_main_lem}

pub record Controller : Type 0 where
  pub has_impl : Bool

-- RTCServerNode::Create, SetLogLevel of the web socket client, and Start and Stop of the node.
pub data ControllerEffect : Type 0 where
  node_created log_level_set node_stopped : ControllerEffect
  node_started : List ℕ → ℤ → ControllerEffect

-- The constructor of Impl.
unfoldable pub create_impl : List ControllerEffect
create_impl = node_created ∷ log_level_set ∷ []

unfoldable pub create_controller : Controller × List ControllerEffect
unfolding create_impl
create_controller = (record { has_impl = true }, create_impl)

-- RTCServerNode::Start posts, and returns OK.
unfoldable pub impl_start : List ℕ → ℤ → ℕ × List ControllerEffect
impl_start host port = (0, node_started host port ∷ [])

unfoldable pub impl_stop : List ControllerEffect
impl_stop = node_stopped ∷ []

-- -1 as a uint32_t, where there is no node to start.
unfoldable pub start : Controller → List ℕ → ℤ → ℕ × List ControllerEffect
unfolding impl_start
start c host port = if c.has_impl then impl_start host port else (2 ^ 32 - 1, [])

unfoldable pub stop : Controller → ℕ × List ControllerEffect
unfolding impl_stop
stop c = if c.has_impl then (0, impl_stop) else (0, [])

-- The calls of the program, carried out by its controller.
unfoldable pub carry_out : Controller → List MainEffect → List ControllerEffect
unfolding start stop
carry_out c [] = []
carry_out c (node_start host port ∷ out) = (start c host port).1 ++ carry_out c out
carry_out c (node_stop ∷ out) = (stop c).1 ++ carry_out c out

unfoldable pub run_program : List ℕ → ℤ → List ℕ → List ControllerEffect
unfolding create_controller carry_out
run_program ip_addr port commands =
    let (c, out) = create_controller in out ++ carry_out c (run_main ip_addr port commands).1

-- Whatever the operator types, a node is created before anything else, then started once with the
-- configured address and port, and stopped at most once, behind its start.
pub run_program_lem :
    (ip : List ℕ) (port : ℤ) (commands : List ℕ)
    → let created = node_created ∷ log_level_set ∷ node_started ip port ∷ [] in
      (run_program ip port commands ≡ created)
      ⊎ (run_program ip port commands ≡ created ++ node_stopped ∷ [])
unfolding run_program
run_program_lem ip port commands = elim (run_main_lem ip port commands) [
  | inl e ↦ inl (rw e)
  | inr (e, _) ↦ inr (rw e)
]
