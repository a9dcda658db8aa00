-- ===== src/Hybm/Va.antt =====
-- The virtual address manager, src/hybm/csrc/mm/hybm_va_manager.{h,cpp}.
pub mod Types
pub mod Alloc
pub mod Invariant
pub mod Recording
pub mod Adding
pub mod AddResult
pub mod Lookup
pub mod Dropping
pub mod Removal
pub mod Reserve
pub mod ReserveLaws
pub mod Direction
mod Examples
