-- ===== src/Hybm/RangePool/Examples.antt =====
-- Runs of the range pool, and the theorems at concrete pools.
use memfabric_hybrid.Base.{
  ℕ, ◌+◌, ◌-◌, ◌%◌, ◌≤◌, ◌<◌, ◌^◌, ◌≡◌, ◌⊎◌, refl, true, false, List, [], ◌∷◌, some, is_some, arith,
  u64_mod,
}
use memfabric_hybrid.Base.OrdMap.{find, assign, erase, floor}
use memfabric_hybrid.Hybm.RangePool.{
  Range, range, Pool, Element, new_pool, align_up, can_allocate, allocate, release, lower_bound,
  take_range, put_range, without_range, erase_range, emplace, insert_range, previous,
  merge_previous, merge_next, release_range,
}
use memfabric_hybrid.Hybm.RangePool.Free.{covered, IsValid}
use memfabric_hybrid.Hybm.RangePool.Allocating.{
  AllocateOutcome, Allocates, allocate_outcome, can_allocate-allocate, align_up_bounds,
  allocate-overflow,
}
use memfabric_hybrid.Hybm.RangePool.Merging.{InUse}
use memfabric_hybrid.Hybm.RangePool.Releasing.{Returned, release_outcome}
use memfabric_hybrid.Hybm.RangePool.Session.{
  Taken, first, later, Session, start, allocated, released, IsSound,
}
use memfabric_hybrid.Hybm.RangePool.SessionLaws.{new_pool-IsValid}
use memfabric_hybrid.Hybm.RangePool.SessionRuns.{
  Session-partition, Session-release, Session-drained,
}

abbrev element : ℕ → ℕ → Element
element a s = record { address = a; size = s }

abbrev pool_of : List (ℕ × ℕ) → List Range → Pool
pool_of a s = record { base = 65536; total = 16384; address_tree = a; size_tree = s }

abbrev fresh : Pool
fresh = pool_of ((0, 16384) ∷ []) (range 0 16384 ∷ [])

-- 5000 bytes take two pages.
abbrev one_taken : Pool
one_taken = pool_of ((8192, 8192) ∷ []) (range 8192 8192 ∷ [])

abbrev two_taken : Pool
two_taken = pool_of ((12288, 4096) ∷ []) (range 12288 4096 ∷ [])

abbrev second_left : Pool
second_left = pool_of ((0, 8192) ∷ (12288, 4096) ∷ []) (range 12288 4096 ∷ range 0 8192 ∷ [])

new_test : new_pool 65536 16384 ≡ fresh
unfolding new_pool
new_test = refl

allocate_test : allocate 5000 fresh ≡ (some (element 65536 5000), one_taken)
unfolding allocate release release_range align_up lower_bound take_range put_range without_range
    erase_range emplace insert_range find assign erase previous merge_previous merge_next floor
allocate_test = refl

allocate_second_test : allocate 4096 one_taken ≡ (some (element 73728 4096), two_taken)
unfolding allocate release release_range align_up lower_bound take_range put_range without_range
    erase_range emplace insert_range find assign erase previous merge_previous merge_next floor
allocate_second_test = refl

release_test : release (element 65536 5000) two_taken ≡ (true, second_left)
unfolding allocate release release_range align_up lower_bound take_range put_range without_range
    erase_range emplace insert_range find assign erase previous merge_previous merge_next floor
release_test = refl

release_merges_test : release (element 73728 4096) second_left ≡ (true, fresh)
unfolding allocate release release_range align_up lower_bound take_range put_range without_range
    erase_range emplace insert_range find assign erase previous merge_previous merge_next floor
release_merges_test = refl

release_outside_test : release (element 81920 4096) second_left ≡ (false, second_left)
unfolding allocate release release_range align_up lower_bound take_range put_range without_range
    erase_range emplace insert_range find assign erase previous merge_previous merge_next floor
release_outside_test = refl

-- An element of no bytes, released after its address was taken, puts an empty range into both trees,
-- and the release of the bytes there then leaves the two trees apart.
abbrev empty_left : Pool
empty_left = pool_of ((0, 0) ∷ (4096, 12288) ∷ []) (range 0 0 ∷ range 4096 12288 ∷ [])

allocate_nothing_test : allocate 0 fresh ≡ (some (element 65536 0), fresh)
unfolding allocate release release_range align_up lower_bound take_range put_range without_range
    erase_range emplace insert_range find assign erase previous merge_previous merge_next floor
allocate_nothing_test = refl

release_nothing_test : (release (element 65536 0) (allocate 4096 fresh).1) ≡ (true, empty_left)
unfolding allocate release release_range align_up lower_bound take_range put_range without_range
    erase_range emplace insert_range find assign erase previous merge_previous merge_next floor
release_nothing_test = refl

trees_apart_test :
    (release (element 65536 4096) empty_left).1
    ≡ pool_of ((0, 0) ∷ []) (range 0 0 ∷ range 0 16384 ∷ [])
unfolding allocate release release_range align_up lower_bound take_range put_range without_range
    erase_range emplace insert_range find assign erase previous merge_previous merge_next floor
trees_apart_test = refl

fresh-IsValid : IsValid fresh
unfolding new_pool
fresh-IsValid = new_pool-IsValid 65536 16384 (omega arith) (omega arith) (omega arith)

allocate_outcome_example : AllocateOutcome 5000 fresh
allocate_outcome_example = allocate_outcome 5000 fresh fresh-IsValid

can_allocate-allocate_example : can_allocate 5000 fresh ≡ is_some (allocate 5000 fresh).0
can_allocate-allocate_example = can_allocate-allocate 5000 fresh fresh-IsValid

align_up_bounds_example :
    (5000 ≤ u64_mod - 4096
      → (5000 ≤ align_up 5000) × (align_up 5000 < 9096) × (align_up 5000 % 4096 ≡ 0))
    × (u64_mod - 4096 < 5000 → align_up 5000 ≡ 0)
align_up_bounds_example = align_up_bounds 5000 (omega arith)

allocate-overflow_example :
    (r : Range) × ((p' : Pool) × Allocates (2 ^ 64 - 1) fresh r p'
      × ((a : ℕ) → covered a p'.address_tree ≡ covered a fresh.address_tree))
unfolding find
allocate-overflow_example =
    allocate-overflow (2 ^ 64 - 1) fresh (range 0 16384) fresh-IsValid refl (omega arith)
      (omega arith)

abbrev ReleaseOutcome : Element → Pool → Type 0
ReleaseOutcome e p =
    ((e.address < p.base) ⊎ (p.base + p.total ≤ e.address) → release e p ≡ (false, p))
    × ((r : Range)
        → e.address ≡ p.base + r.offset
        → align_up e.size ≡ r.size
        → InUse r p
        → ((release e p).0 ≡ true) × Returned r p (release e p).1)

release_outcome_example : ReleaseOutcome (element 81920 4096) fresh
release_outcome_example = release_outcome (element 81920 4096) fresh fresh-IsValid

first_allocated : Session 65536 16384 (element 65536 5000 ∷ []) one_taken
unfolding new_pool
first_allocated =
    allocated 5000 (element 65536 5000) [] fresh one_taken start (omega arith) (omega arith)
      allocate_test

second_allocated : Session 65536 16384 (element 73728 4096 ∷ element 65536 5000 ∷ []) two_taken
second_allocated =
    allocated 4096 (element 73728 4096) (element 65536 5000 ∷ []) one_taken two_taken
      first_allocated (omega arith) (omega arith) allocate_second_test

older_taken :
    Taken
      (element 65536 5000)
      (element 73728 4096 ∷ element 65536 5000 ∷ [])
      (element 73728 4096 ∷ [])
older_taken = later (element 73728 4096) (element 65536 5000 ∷ []) [] (first [])

Session-partition_example :
    IsSound 65536 16384 (element 73728 4096 ∷ element 65536 5000 ∷ []) two_taken
Session-partition_example =
    Session-partition 65536 16384 (element 73728 4096 ∷ element 65536 5000 ∷ []) two_taken
      (omega arith) (omega arith) (omega arith) second_allocated

Session-release_example : (release (element 65536 5000) two_taken).0 ≡ true
Session-release_example =
    Session-release 65536 16384 (element 65536 5000) (element 73728 4096 ∷ element 65536 5000 ∷ [])
      (element 73728 4096 ∷ []) two_taken (omega arith) (omega arith) (omega arith) second_allocated
      older_taken

abbrev all_released : Pool
all_released = (release (element 73728 4096) (release (element 65536 5000) two_taken).1).1

Session-drained_example : all_released ≡ new_pool 65536 16384
Session-drained_example =
    Session-drained 65536 16384 all_released (omega arith) (omega arith) (omega arith) (
      released (element 73728 4096) (element 73728 4096 ∷ []) []
        (release (element 65536 5000) two_taken).1
        (released (element 65536 5000) (element 73728 4096 ∷ element 65536 5000 ∷ [])
          (element 73728 4096 ∷ []) two_taken second_allocated older_taken)
        (first []))
