-- ===== src/Tests.antt =====
-- Concrete inputs for the theorems, and runs of the definitions on them.
pub mod Kernels
pub mod Machine
pub mod Pools
pub mod Sockets
pub mod Starts
pub mod Tables
pub mod Services
pub mod Texts
pub mod Threads
pub mod Trees
