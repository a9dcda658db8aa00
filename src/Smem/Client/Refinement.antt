-- ===== src/Smem/Client/Refinement.antt =====
-- The calls of a client, in any order, do what they mean on a map of keys to values.
