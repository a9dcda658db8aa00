-- ===== src/Hybm/RangePool/Session.antt =====
-- Allocate and Release in any order: the pool and the elements that are alive.
use memfabric_hybrid.Base.{
  ℕ, ◌+◌, ◌-◌, ◌≤◌, ◌<◌, ◌≡◌, List, [], ◌∷◌, none, some, if◌then◌else◌, u64_mod,
}
use memfabric_hybrid.Hybm.RangePool.{
  Range, range, Pool, Element, new_pool, align_up, allocate, release,
}
use memfabric_hybrid.Hybm.RangePool.Free.{within, covered, IsValid}

-- The element leaves the list.
pub data Taken (e : Element) : List Element → List Element → Type 0 where
  first : (rest : List Element) → Taken e (e ∷ rest) rest
  later :
      (f : Element) (live rest : List Element) → Taken e live rest → Taken e (f ∷ live) (f ∷ rest)

-- The runs over a block of `total` bytes at `base`, with sizes that do not wrap.
pub data Session (base total : ℕ) : List Element → Pool → Type 0 where
  start : Session base total [] (new_pool base total)
  allocated :
      (size : ℕ) (e : Element) (live : List Element) (p p' : Pool)
      → Session base total live p
      → 0 < size
      → size ≤ u64_mod - 4096
      → allocate size p ≡ (some e, p')
      → Session base total (e ∷ live) p'
  refused :
      (size : ℕ) (live : List Element) (p p' : Pool)
      → Session base total live p
      → allocate size p ≡ (none, p')
      → Session base total live p'
  released :
      (e : Element) (live rest : List Element) (p : Pool)
      → Session base total live p
      → Taken e live rest
      → Session base total rest (release e p).1

-- The bytes of the block that an element has, by their offsets.
abbrev pub extent_of : ℕ → Element → Range
extent_of base e = range (e.address - base) (align_up e.size)

unfoldable pub holders : ℕ → ℕ → List Element → ℕ
holders base a [] = 0
holders base a (e ∷ t) =
    (if within (e.address - base) (align_up e.size) a then 1 else 0) + holders base a t

-- The element has bytes, all of them in the block.
pub record Placed (base total : ℕ) (e : Element) : Type 0 where
  pub above : base ≤ e.address
  pub sized : 0 < align_up e.size
  pub inside : e.address - base + align_up e.size ≤ total

abbrev pub AllPlaced : ℕ → ℕ → List Element → Type 0
AllPlaced base total [] = Unit {0}
AllPlaced base total (e ∷ t) = Placed base total e × AllPlaced base total t

pub record IsSound (base total : ℕ) (live : List Element) (p : Pool) : Type 0 where
  pub valid : IsValid p
  pub same_base : p.base ≡ base
  pub same_total : p.total ≡ total
  pub placed : AllPlaced base total live
  pub partition :
      (a : ℕ) → a < total → holders base a live + (if covered a p.address_tree then 1 else 0) ≡ 1
