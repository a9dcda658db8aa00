-- ===== src/Hybm/Va/Reserve.antt =====
-- AllocReserveGva, FreeReserveGva and FindFreeSpace of hybm_va_manager.cpp.
pub mod Gaps
use memfabric_hybrid.Base.{length}
use memfabric_hybrid.Base.Pairs.{sort_pairs}
use memfabric_hybrid.Base.OrdMap.{cursor}
use memfabric_hybrid.Hybm.Va.Alloc.{read_cursor}
use memfabric_hybrid.Hybm.Va.Types.{reserved_contains}
use memfabric_hybrid.Base.{
  ℕ, ◌-◌, Bool, true, false, ◌&&◌, ◌||◌, List, [], ◌∷◌, Option, none, some, ltb, leb, ◌==◌,
  if◌then◌else◌, add64, sub64, is_some,
}
use memfabric_hybrid.Base.OrdMap.{OrdMap, find, assign, erase}
use memfabric_hybrid.Hybm.Va.Types.{MemType, ReservedGvaInfo, VaManager, empty_reserved}

-- The ranges that start in [start, end), with their ends.
unfoldable pub used_ranges : ℕ → ℕ → OrdMap ReservedGvaInfo → List (ℕ × ℕ)
used_ranges start stop [] = []
used_ranges start stop ((k, r) ∷ m) =
    let rest = used_ranges start stop m in
    if leb start r.start && ltb r.start stop then (r.start, add64 r.start r.size) ∷ rest else rest

-- The loop over the sorted ranges from `current`, and the test of the space behind the last one.
unfoldable pub first_gap : ℕ → ℕ → ℕ → List (ℕ × ℕ) → Option ℕ
first_gap size stop current [] = if leb size (sub64 stop current) then some current else none
first_gap size stop current ((b, e) ∷ l) =
    let rest = first_gap size stop (if ltb current e then e else current) l in
    if ltb current b && leb size (b - current) then some current else rest

abbrev pub or_start : ℕ → ℕ → ℕ → List (ℕ × ℕ) → Option ℕ
or_start size start stop [] = some start
or_start size start stop (p ∷ l) = first_gap size stop start (sort_pairs (p ∷ l))

-- `none` is the pair {0, false}.
unfoldable pub find_free_space : ℕ → ℕ → ℕ → OrdMap ReservedGvaInfo → Option ℕ
unfolding used_ranges sort_pairs first_gap
find_free_space start stop size m =
    if size == 0 || leb stop start || ltb (stop - start) size
    then none
    else or_start size start stop (used_ranges start stop m)

abbrev pub reserve_at : ℕ → ℕ → MemType → Option ℕ → VaManager → ReservedGvaInfo × VaManager
reserve_at rank size t none s = (empty_reserved, s)
reserve_at rank size t (some a) s =
    let r : ReservedGvaInfo = record {
      start = a;
      size = size;
      mem_type = t;
      local_rank_id = rank;
    } in
    (r, record s { reserved = assign a r s.reserved })

unfoldable pub alloc_reserve_gva : ℕ → ℕ → MemType → VaManager → ReservedGvaInfo × VaManager
alloc_reserve_gva rank size t s =
    if size == 0
    then (empty_reserved, s)
    else reserve_at rank size t (find_free_space s.reserve_start s.reserve_end size s.reserved) s

unfoldable pub free_reserve_gva : ℕ → VaManager → VaManager
free_reserve_gva addr s =
    if addr == 0
    then s
    else if is_some (find addr s.reserved)
    then record s { reserved = erase addr s.reserved }
    else s

-- FindReservedByAddr: `none` is the read through the end of an empty map.
unfoldable pub find_reserved_by_addr : ℕ → VaManager → Option (ReservedGvaInfo × Bool)
find_reserved_by_addr addr s =
    read_cursor (cursor addr s.reserved)
      (λ r. if reserved_contains r addr then (r, true) else (empty_reserved, false))

-- GetAllocCount and GetReservedCount.
unfoldable pub alloc_count : VaManager → ℕ
alloc_count s = length s.by_gva

unfoldable pub reserved_count : VaManager → ℕ
reserved_count s = length s.reserved
