-- ===== src/Session/Tasks.antt =====
-- The methods of `RoomSession`, split where they await.
pub mod Channel
pub mod Teardown
pub mod Run
pub mod Reaper
