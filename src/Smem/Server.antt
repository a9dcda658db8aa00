-- ===== src/Smem/Server.antt =====
-- AccStoreServer, src/smem/csrc/config_store/tcp_store/smem_tcp_config_store_server.{h,cpp}, over
-- the local memory backend, src/smem/csrc/config_store/backend/smem_local_memory_backend.cpp.
pub mod State
pub mod Waiters
pub mod StoreLaws
pub mod Handlers
pub mod Updates
pub mod Adding
pub mod Ranks
pub mod Links
pub mod RankLaws
pub mod WaiterLaws
pub mod Watched
pub mod Waiting
pub mod Steps
pub mod Reach
pub mod Outcomes
pub mod Exchanging
pub mod Writing
pub mod AddingLaws
pub mod Timer
pub mod Overdue
pub mod Receive
mod Examples
