-- ===== src/Wm.antt =====
-- kernel/src/wm/mod.rs: the event queue that userspace polls, and the calls that feed it.
pub mod Queue
pub mod Calls
