-- ===== src/Lib.antt =====
-- OSCortex kernel: queues, tables and small state machines, with what makes them correct.
--
-- Every module models one file of the kernel. A static behind a lock is a state that each call takes
-- and returns; a call that answers gives the pair of new state and answer. Words are natural numbers
-- with the wrap-around of the source written out; a fixed array is a list of that length.
--
-- * Ipc is kernel/src/ipc/mod.rs: `Inbox` is the ring of a process, `send` and `recv` the calls;
--   Ipc.Mailbox is the abstract queue that Ipc.Refine compares it with.
-- * Wm.Queue is the `EventQueue` of kernel/src/wm/mod.rs with `push`, `push_front` and `pop_for`;
--   its loops are `scan`, `close_gap` and `count_slots`. Wm.Queue.Spec is the list of entries, and the
--   modules beside it relate the two. Wm.Calls is the rest of that file: the focus, the batons, the
--   input events and whom they wake. What the process table and the compositor answer is the record
--   `Kernel`; coordinates are the bit patterns of the signed ones.
-- * Sched is kernel/src/sched/mod.rs. The stack pointer that a context switch leaves is an argument.
-- * PortNs is kernel/src/port_ns/mod.rs.
-- * Isolate.Table is kernel/src/isolate/mod.rs and Isolate.Inbox is kernel/src/isolate_msg/mod.rs. The
--   table creates and destroys inboxes; whether `spawn_thread` succeeds is an argument, and the threads
--   and events that the calls cause are kept in lists.
-- * PlatformChannel is kernel/src/platform_channel/mod.rs; `parse` in PlatformChannel.Wire is the reader
--   of the wire format that the file documents.
-- * Cache is kernel/src/pkg/cache.rs. Pkg.Sha256 is kernel/src/pkg/sha256.rs, Pkg.Manifest is
--   kernel/src/pkg/manifest.rs and Pkg.Resolver is kernel/src/pkg/resolver.rs, whose calls take the answers
--   of the network and of the application registry as arguments, and the signature check as a parameter.
-- * Pty is kernel/src/drivers/pty.rs, and Ramdisk is kernel/src/fs/ramdisk.rs.
-- * Frames is kernel/src/mm/frame_allocator.rs: `is_free` reads a bit, `alloc_words` is the loop of
--   `alloc` and `find_run` the one of `alloc_contiguous`. Frames.History relates sequences of calls.
-- * Compositor is kernel/src/compositor/mod.rs: a `Slot` is what its arrays hold at one index, `with_surface`
--   the look-up and the check of the owner with which its calls start. Compositor.Frame holds uploads, flips,
--   frames and hit tests; coordinates are bit patterns, compared as in Base.Signed.
-- * Futex is kernel/src/syscall/wait.rs and the waiters, the pending wakes and the waking of
--   kernel/src/syscall/handlers/futex.rs; Futex.Map is the map that both tables are. Futex.Wait is a wait of
--   `sys_futex` up to the point where the caller goes to sleep.
-- * Initramfs is kernel/src/fs/initramfs.rs: its three loops are one `scan` with a body each.
--   Initramfs.Header holds the fields of a header, Initramfs.Utf8 the check of names by `from_utf8`,
--   Initramfs.Listing the headers of an archive as a relation.
-- * Base holds what they share: Boolean tests, lists as arrays, circular buffers (Base.Ring), tables of
--   optional entries (Base.Slots), little-endian words (Base.Bytes), the bits of a word (Base.Bits).
--
-- Every loop of the source that is modelled runs over a list or over a count that is known when it
-- starts: the search of `schedule` has one round per task, `close_gap` one per later entry, a read one
-- per byte of the buffer, the search for
-- contiguous frames one per frame; `hash` has at most as many
-- blocks as bytes; the loops over the archive
-- have a round per 512 bytes. No other fuel is used.
--
-- Not modelled: locks and interrupts (each call is one step), logging, allocation, the architecture
-- code, the drivers of devices, paging and the heap, processes, the sleep of a thread, the other system
-- calls, the other file systems, the network and the programs outside the kernel.
pub mod Base
pub mod Ipc
pub mod Wm
pub mod Sched
pub mod PortNs
pub mod Isolate
pub mod PlatformChannel
pub mod Cache
pub mod Pty
pub mod Ramdisk
pub mod Frames
pub mod Pkg
pub mod Compositor
pub mod Futex
pub mod Initramfs
