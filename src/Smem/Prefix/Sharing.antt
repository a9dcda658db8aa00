-- ===== src/Smem/Prefix/Sharing.antt =====
-- A client of AccStoreServer behind a PrefixConfigStore has the keys under its prefix as a store of its
-- own.
use memfabric_hybrid.Base.{List}
