-- ===== src/Hybm/RangePool.antt =====
-- RbtreeRangePool, src/hybm/csrc/common/hybm_rbtree_range_pool.{h,cpp}: ranges of a block of memory,
-- in a tree by address and a tree by size. The spin lock is not modelled: a method is one step.
pub mod SizeTree
pub mod Free
pub mod Allocating
pub mod Merging
pub mod Releasing
pub mod Session
pub mod SessionLaws
pub mod SessionRuns
mod Examples
use memfabric_hybrid.Base.{
  ℕ, ◌+◌, ◌-◌, ◌*◌, ◌/◌, Bool, true, false, not, ◌&&◌, ◌||◌, List, [], ◌∷◌, Option, none, some, ltb,
  leb, ◌==◌, if◌then◌else◌, add64,
}
use memfabric_hybrid.Base.OrdMap.{OrdMap, find, assign, erase, floor}

-- SpaceRange
pub record Range : Type 0 where
  pub offset : ℕ
  pub size : ℕ

abbrev pub range : ℕ → ℕ → Range
range o s = record { offset = o; size = s }

-- RangeSizeFirst
abbrev pub size_first : Range → Range → Bool
size_first a b = if a.size == b.size then ltb a.offset b.offset else ltb a.size b.size

-- std::set<SpaceRange, RangeSizeFirst>: insert, erase by value, and lower_bound.
unfoldable pub insert_range : Range → List Range → List Range
insert_range r [] = r ∷ []
insert_range r (q ∷ t) =
    let later = q ∷ insert_range r t in
    if size_first r q then r ∷ q ∷ t else if size_first q r then later else q ∷ t

unfoldable pub erase_range : Range → List Range → List Range
erase_range r [] = []
erase_range r (q ∷ t) =
    let rest = q ∷ erase_range r t in if size_first r q || size_first q r then rest else t

unfoldable pub lower_bound : Range → List Range → Option Range
lower_bound r [] = none
lower_bound r (q ∷ t) = let rest = lower_bound r t in if size_first q r then rest else some q

pub record Pool : Type 0 where
  pub base : ℕ
  pub total : ℕ
  pub address_tree : OrdMap ℕ
  pub size_tree : List Range

-- The constructor.
unfoldable pub new_pool : ℕ → ℕ → Pool
new_pool base total = record {
  base = base;
  total = total;
  address_tree = (0, total) ∷ [];
  size_tree = range 0 total ∷ [];
}

-- AllocateSizeAlignUp, with its 64-bit sum; the mask clears the twelve low bits.
unfoldable pub align_up : ℕ → ℕ
align_up size = add64 size 4095 / 4096 * 4096

unfoldable pub can_allocate : ℕ → Pool → Bool
unfolding align_up lower_bound
can_allocate size p = elim (lower_bound (range 0 (align_up size)) p.size_tree) [
  | none ↦ false
  | some r ↦ true
]

-- AllocatedElement: its address and the size that was asked for.
pub record Element : Type 0 where
  pub address : ℕ
  pub size : ℕ

-- std::map::emplace, which keeps an entry that is there.
unfoldable pub emplace : ℕ → ℕ → OrdMap ℕ → OrdMap ℕ
emplace k v m = elim (find k m) [ none ↦ assign k v m | some w ↦ m ]

-- A range leaves both trees, or enters both.
unfoldable pub without_range : Range → Pool → Pool
unfolding erase_range
without_range r p = record p {
  address_tree = erase r.offset p.address_tree;
  size_tree = erase_range r p.size_tree;
}

unfoldable pub put_range : Range → Pool → Pool
unfolding emplace insert_range
put_range r p = record p {
  address_tree = emplace r.offset r.size p.address_tree;
  size_tree = insert_range r p.size_tree;
}

-- The range without its first `aligned` bytes, which may be all of it.
unfoldable pub take_range : ℕ → Range → Pool → Pool
take_range aligned r p =
    if ltb aligned r.size
    then put_range (range (r.offset + aligned) (r.size - aligned)) (without_range r p)
    else without_range r p

-- Allocate from the range that lower_bound found: `none` is the empty element.
abbrev pub allocate_from : ℕ → Option Range → Pool → Option Element × Pool
allocate_from size none p = (none, p)
allocate_from size (some r) p =
    if p.base == 0 then (none, p) else elim (find r.offset p.address_tree) [
      | none ↦ (none, p)
      | some s ↦ (
        some (record { address = p.base + r.offset; size = size }),
        take_range (align_up size) r p,
      )
    ]

unfoldable pub allocate : ℕ → Pool → Option Element × Pool
allocate size p = allocate_from size (lower_bound (range 0 (align_up size)) p.size_tree) p

-- The entry before addressTree.lower_bound(offset).
unfoldable pub previous : ℕ → OrdMap ℕ → Option (ℕ × ℕ)
previous offset m = if offset == 0 then none else floor (offset - 1) m

-- Merge with the range that ends at the offset, if there is one: the merged range, and the pool
-- without that one.
unfoldable pub merge_previous : Range → Option (ℕ × ℕ) → Pool → Range × Pool
merge_previous r none p = (r, p)
merge_previous r (some (o, s)) p =
    if add64 o s == r.offset
    then (range o (add64 r.size s), without_range (range o s) p)
    else (r, p)

-- Merge with the range that begins at `stop`, the end of the released one.
unfoldable pub merge_next : ℕ → Range → Pool → Range × Pool
merge_next stop r p = elim (find stop p.address_tree) [
  | none ↦ (r, p)
  | some s ↦ (range r.offset (add64 r.size s), without_range (range stop s) p)
]

-- Release under the lock.
unfoldable pub release_range : Range → Pool → Pool
release_range r p =
    let (r1, p1) = merge_previous r (previous r.offset p.address_tree) p in
    let (r2, p2) = merge_next (add64 r.offset r.size) r1 p1 in put_range r2 p2

unfoldable pub release : Element → Pool → Bool × Pool
release e p =
    if p.base == 0 || e.address == 0
    then (false, p)
    else if ltb e.address p.base || leb (p.base + p.total) e.address
    then (false, p)
    else (true, release_range (range (e.address - p.base) (align_up e.size)) p)
