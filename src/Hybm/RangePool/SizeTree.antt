-- ===== src/Hybm/RangePool/SizeTree.antt =====
-- The set of ranges by size: what it holds, and what lower_bound finds.
use memfabric_hybrid.Base.{
  ℕ, ◌≤◌, ◌<◌, ◌≡◌, refl, sym, Bool, true, false, not, ◌&&◌, ◌||◌, List, [], ◌∷◌, none, some, ◌==◌,
  arith,
}
use mathlib.Core.Option.{some-ne-none}
use memfabric_hybrid.Hybm.RangePool.{
  Range, range, size_first, insert_range, erase_range, lower_bound,
}

abbrev pub same_range : Range → Range → Bool
same_range a b = a.offset == b.offset && a.size == b.size

unfoldable pub holds : Range → List Range → Bool
holds r [] = false
holds r (q ∷ t) = same_range r q || holds r t

-- Every range of the list comes after `q`.
abbrev pub After : Range → List Range → Type 0
After q [] = Unit {0}
After q (x ∷ t) = (size_first q x ≡ true) × After q t

abbrev pub Sorted : List Range → Type 0
Sorted [] = Unit {0}
Sorted (q ∷ t) = After q t × Sorted t

pub holds-insert_range :
    (x r : Range) (t : List Range) → holds x (insert_range r t) ≡ (same_range x r || holds x t)
unfolding holds insert_range
holds-insert_range x r [] = refl
holds-insert_range x r (q ∷ t) = ground (arith, holds-insert_range x r t)

After-holds : (q x : Range) (t : List Range) → After q t → holds x t ≡ true → size_first q x ≡ true
unfolding holds
After-holds q x [] a h = cc
After-holds q x (y ∷ t) a h = ground (arith, After-holds q x t a.1)

pub holds-erase_range :
    (x r : Range) (t : List Range)
    → Sorted t
    → holds x (erase_range r t) ≡ (holds x t && not (same_range x r))
unfolding holds erase_range
holds-erase_range x r [] s = refl
holds-erase_range x r (q ∷ t) s = ground (arith, holds-erase_range x r t s.1, After-holds q x t s.0)

After-insert :
    (b r : Range) (t : List Range) → size_first b r ≡ true → After b t → After b (insert_range r t)
unfolding insert_range
After-insert b r [] h a = (h, tt)
After-insert b r (q ∷ t) h a = ground (arith, After-insert b r t h a.1)

After-trans : (a b : Range) (t : List Range) → size_first a b ≡ true → After b t → After a t
After-trans a b [] h k = tt
After-trans a b (q ∷ t) h k = (ground arith, After-trans a b t h k.1)

pub Sorted-insert : (r : Range) (t : List Range) → Sorted t → Sorted (insert_range r t)
unfolding insert_range
Sorted-insert r [] s = (tt, tt)
Sorted-insert r (q ∷ t) s =
    ground (arith, Sorted-insert r t s.1, After-trans r q t, After-insert q r t)

After-erase : (b r : Range) (t : List Range) → After b t → After b (erase_range r t)
unfolding erase_range
After-erase b r [] a = tt
After-erase b r (q ∷ t) a = ground (arith, After-erase b r t a.1)

pub Sorted-erase : (r : Range) (t : List Range) → Sorted t → Sorted (erase_range r t)
unfolding erase_range
Sorted-erase r [] s = tt
Sorted-erase r (q ∷ t) s = ground (arith, Sorted-erase r t s.1, After-erase q r t s.0)

-- What lower_bound of a size finds is the smallest range of at least that size, the first of these.
pub lower_bound-least :
    (n : ℕ) (r x : Range) (t : List Range)
    → Sorted t
    → lower_bound (range 0 n) t ≡ some r
    → holds x t ≡ true
    → n ≤ x.size
    → size_first x r ≡ false
unfolding lower_bound holds
lower_bound-least n r x [] s e h p = cc
lower_bound-least n r x (q ∷ t) s e h p =
    ground (arith, lower_bound-least n r x t s.1, After-holds q x t s.0)

pub lower_bound-holds :
    (n : ℕ) (r : Range) (t : List Range)
    → lower_bound (range 0 n) t ≡ some r
    → (holds r t ≡ true) × (n ≤ r.size)
unfolding lower_bound holds
lower_bound-holds n r [] e = absurd (some-ne-none r (sym e))
lower_bound-holds n r (q ∷ t) e = ground (arith, lower_bound-holds n r t)

pub lower_bound-none :
    (n : ℕ) (x : Range) (t : List Range)
    → lower_bound (range 0 n) t ≡ none
    → holds x t ≡ true
    → x.size < n
unfolding lower_bound holds
lower_bound-none n x [] e h = absurd (cc)
lower_bound-none n x (q ∷ t) e h = ground (arith, lower_bound-none n x t)
