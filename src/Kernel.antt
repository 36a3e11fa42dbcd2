-- ===== src/Kernel.antt =====
-- kernel/src: what a kernel author imports (lib.rs), over the host's reference runner (host.rs).
pub mod Examples
pub mod Plain
pub mod Host
pub mod Handles
pub mod Reads
pub mod Writes
pub mod Values
pub mod Launches
pub mod Bound
