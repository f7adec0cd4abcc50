-- ===== src/Isolate.antt =====
-- kernel/src/isolate/mod.rs and kernel/src/isolate_msg/mod.rs: the table of Dart isolates, their
-- inboxes, and the events that both push.
pub mod Inbox
pub mod Table
