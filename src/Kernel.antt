-- ===== src/Kernel.antt =====
-- The kernel.
pub mod Spinlock
pub mod Kalloc
pub mod Pipe
pub mod Log
pub mod Proc
pub mod Syscall
pub mod Strings
pub mod Console
pub mod Fs
pub mod File
