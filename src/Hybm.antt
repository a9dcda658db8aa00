-- ===== src/Hybm.antt =====
-- The parts of src/hybm.
pub mod Va
pub mod RangePool
