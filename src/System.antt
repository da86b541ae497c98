-- ===== src/System.antt =====
-- The node and its session run together: each has a queue of messages that its looper takes one at a
-- time, and what one does is posted to the other.
pub mod Calls
pub mod Turns
pub mod Phases
pub mod SessionHandled
pub mod SessionTurn
pub mod NodeEffects
pub mod NodeHandled
pub mod NodeTurn
pub mod Called
pub mod Safety
pub mod Speech
pub mod Media
pub mod Replies
pub mod Outbound
pub mod Failing
pub mod FailingTurn
pub mod Silent
