-- ===== src/Smem.antt =====
-- src/smem: the shared memory services over hybm.
pub mod Packer
pub mod Server
pub mod Client
pub mod Group
pub mod Prefix
