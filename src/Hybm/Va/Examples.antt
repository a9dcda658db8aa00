-- ===== src/Hybm/Va/Examples.antt =====
-- Tests of the address manager, and its theorems at concrete managers.
use memfabric_hybrid.Base.{
  ℕ, ◌-◌, ◌<◌, ◌≡◌, refl, ◌↔◌, true, false, [], none, some, arith, ◌==◌, if◌then◌else◌, add64,
}
use mathlib.Core.Option.{some-ne-none}
use memfabric_hybrid.Base.OrdMap.{find, assign, cursor, floor}
use memfabric_hybrid.Hybm.Va.Types.{
  MemType, AllocatedGvaInfo, VaManager, initial, contains, contains_by_lva, rank_id,
}
use memfabric_hybrid.Hybm.Va.Alloc.{
  segments, add_va_info, get_gva_by_lva, get_lva_by_gva, find_alloc_by_gva, is_gva, get_mem_type,
  get_rank, is_valid_addr, remove_one_va_info, add_checked, check_overlap,
}
use memfabric_hybrid.Hybm.Va.Invariant.{IsValid}
use memfabric_hybrid.Hybm.Va.Adding.{add_va_info-IsValid}
use memfabric_hybrid.Hybm.Va.AddResult.{AddOutcome, add_va_info_outcome}
use memfabric_hybrid.Hybm.Va.Lookup.{
  Covers, find_alloc_by_gva-Covers, lookups_of_Covers, get_lva_by_gva-get_gva_by_lva,
  is_gva_undefined,
}
use mathlib.Core.List.{filter_map}
use memfabric_hybrid.Hybm.Va.Dropping.{unless_at, entry_unless_at}
use memfabric_hybrid.Hybm.Va.Removal.{remove_one_va_info_forgets}
use memfabric_hybrid.Hybm.Va.Reserve.{alloc_reserve_gva, find_free_space}
use memfabric_hybrid.Hybm.Va.ReserveLaws.{
  IsReserveValid, ReserveOutcome, alloc_reserve_gva_outcome, alloc_reserve_gva-IsReserveValid,
}
use memfabric_hybrid.Hybm.Va.Direction.{
  CopyDirection, global_host, classify_address, infer_copy_direction, endpoints,
  infer_copy_direction-endpoints,
}

abbrev hbm_segment : AllocatedGvaInfo
hbm_segment = record {
  base = record { gva = 0x1000; size = 0x1000; mem_type = MemType.device; lva = 0x9000 };
  registered = false;
  local_rank_id = 0;
  imported_rank_id = 0xFFFFFFFF;
}

abbrev dram_segment : AllocatedGvaInfo
dram_segment = record {
  base = record { gva = 0x4000; size = 0x2000; mem_type = MemType.host; lva = 0x20000 };
  registered = false;
  local_rank_id = 0;
  imported_rank_id = 0xFFFFFFFF;
}

initial-IsValid : IsValid initial
unfolding initial find segments
initial-IsValid = record {
  chain = omega arith;
  keyed = tt;
  filed = λ g i e. absurd (some-ne-none i (ground arith));
  live = λ t i h. absurd h;
  types_rising = tt;
  lva_rising = tt;
  lva_keyed = tt;
  lva_live = λ l i e. absurd (some-ne-none i (ground arith));
}

one : VaManager
unfolding add_va_info add_checked check_overlap initial
one = (add_va_info hbm_segment initial).1

two : VaManager
unfolding one
two = (add_va_info dram_segment one).1

one-IsValid : IsValid one
unfolding one find
one-IsValid =
    add_va_info-IsValid initial hbm_segment initial-IsValid (omega arith)
      (λ g j e. absurd (some-ne-none j (ground arith)))

two-IsValid : IsValid two
unfolding two find assign
two-IsValid =
    add_va_info-IsValid one dram_segment one-IsValid (omega arith) (λ g j e d. ground arith)

-- A second segment is recorded beside the first.
add_va_info_outcome_example : AddOutcome dram_segment one
unfolding one find assign
add_va_info_outcome_example =
    add_va_info_outcome one dram_segment one-IsValid (omega arith) (omega arith) (omega arith)
      (λ e. cc) (λ g j e d. ground arith)

add_va_info-IsValid_example : IsValid (add_va_info dram_segment one).1
unfolding one find assign
add_va_info-IsValid_example =
    add_va_info-IsValid one dram_segment one-IsValid (omega arith) (λ g j e d. ground arith)

two_has_dram : find 0x4000 two.by_gva ≡ some dram_segment
unfolding two find assign
two_has_dram = refl

dram_Covers : Covers two dram_segment 0x4800
dram_Covers = record { found = two_has_dram; from = omega arith; to = omega arith }

find_alloc_by_gva-Covers_example :
    (find_alloc_by_gva 0x4800 two ≡ some (dram_segment, true)) ↔ Covers two dram_segment 0x4800
find_alloc_by_gva-Covers_example = find_alloc_by_gva-Covers two two-IsValid 0x4800 dram_segment

lookups_of_Covers_example :
    (is_gva 0x4800 two ≡ some true)
    × (get_rank 0x4800 two ≡ some (rank_id dram_segment, true))
    × (get_lva_by_gva 0x4800 two ≡ add64 0x20000 (0x4800 - 0x4000))
    × (is_valid_addr 0x4800 two ≡ some true)
lookups_of_Covers_example = lookups_of_Covers two two-IsValid 0x4800 dram_segment dram_Covers

two_translates : get_gva_by_lva 0x20800 two ≡ 0x4800
unfolding two get_gva_by_lva floor assign contains_by_lva find
two_translates = refl

get_lva_by_gva-get_gva_by_lva_example : get_lva_by_gva 0x4800 two ≡ 0x20800
get_lva_by_gva-get_gva_by_lva_example =
    get_lva_by_gva-get_gva_by_lva two two-IsValid 0x20800 0x4800 (omega arith) two_translates
      (omega arith)

remove_one_va_info_forgets_example :
    (t : VaManager) × (remove_one_va_info 0x4000 two ≡ some t)
    × IsValid t
    × ((g : ℕ) → find g t.by_gva ≡ (if 0x4000 == g then none else find g two.by_gva))
    × ((l : ℕ) → find l t.by_lva ≡ entry_unless_at 0x4000 (find l two.by_lva))
    × ((u : MemType) → segments u t ≡ filter_map (unless_at 0x4000) (segments u two))
remove_one_va_info_forgets_example =
    remove_one_va_info_forgets two dram_segment two-IsValid two_has_dram

initial-IsReserveValid : IsReserveValid initial
unfolding initial
initial-IsReserveValid = omega arith

alloc_reserve_gva_outcome_example : ReserveOutcome initial 3 0x40000000 MemType.host
alloc_reserve_gva_outcome_example =
    alloc_reserve_gva_outcome initial initial-IsReserveValid 3 0x40000000 MemType.host (omega arith)

alloc_reserve_gva-IsReserveValid_example :
    IsReserveValid (alloc_reserve_gva 3 0x40000000 MemType.host initial).1
alloc_reserve_gva-IsReserveValid_example =
    alloc_reserve_gva-IsReserveValid initial 3 0x40000000 MemType.host initial-IsReserveValid

reserve_start_test : (alloc_reserve_gva 3 0x40000000 MemType.host initial).0.start ≡ 0x280000000000
unfolding alloc_reserve_gva find_free_space initial assign
reserve_start_test = refl

-- 0x4800 is in the DRAM segment, and 0x100000000010 is device memory that no segment covers.
classify_dram : classify_address 0x4800 two ≡ some global_host
unfolding classify_address get_mem_type two cursor floor assign contains find
classify_dram = refl

classify_next : classify_address 0x4801 two ≡ some global_host
unfolding classify_address get_mem_type two cursor floor assign contains find
classify_next = refl

infer_copy_direction-endpoints_example :
    (r : CopyDirection) × (infer_copy_direction 0x4800 0x4801 two ≡ some r)
    × (endpoints r ≡ some (global_host, global_host))
infer_copy_direction-endpoints_example =
    infer_copy_direction-endpoints 0x4800 0x4801 two global_host global_host classify_dram
      classify_next

is_gva_undefined_example : (is_gva 0x1000 initial ≡ none) ↔ ((0 < 0x1000) × (initial.by_gva ≡ []))
is_gva_undefined_example = is_gva_undefined 0x1000 initial
