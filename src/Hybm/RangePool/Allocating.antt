-- ===== src/Hybm/RangePool/Allocating.antt =====
-- Allocate takes the best fitting range, and exactly the bytes that it promises.
use memfabric_hybrid.Base.{
  ℕ, ◌+◌, ◌-◌, ◌%◌, ◌≤◌, ◌<◌, ◌≡◌, ◌⊎◌, refl, sym, ap, ◌∙◌, inl, inr, true, false, not, ◌&&◌, none,
  some, is_some, ltb, ◌==◌, arith, Bool-cases, Option-cases, u64_mod,
}
use mathlib.Core.Option.{some-ne-none}
use memfabric_hybrid.Base.OrdMap.{find, All-of_find}
use memfabric_hybrid.Base.Ranges.{Chain-bounds, Chain-Rising}
use memfabric_hybrid.Hybm.RangePool.{
  Range, range, size_first, Pool, lower_bound, align_up, can_allocate, allocate, allocate_from,
  take_range, without_range, put_range,
}
use memfabric_hybrid.Hybm.RangePool.SizeTree.{
  holds, lower_bound-least, lower_bound-holds, lower_bound-none,
}
use memfabric_hybrid.Hybm.RangePool.Free.{
  extent, within, covered, covered-find, Chain-apart, IsValid, find-without, without_range-IsValid,
  covered-without, Fits, put_range-IsValid, covered-put,
}

-- The range is one of the pool's free ranges.
abbrev pub Free : Range → Pool → Type 0
Free r p = find r.offset p.address_tree ≡ some r.size

pub Free-holds : (r : Range) (p : Pool) → IsValid p → holds r p.size_tree ≡ true → Free r p
Free-holds r p v h = ground (arith, v.mirrored r)

pub holds-Free : (r : Range) (p : Pool) → IsValid p → Free r p → holds r p.size_tree ≡ true
holds-Free r p v h = ground (arith, v.mirrored r)

rest_of : ℕ → Range → Range
rest_of aligned r = range (r.offset + aligned) (r.size - aligned)

module _ (aligned : ℕ) (r : Range) (p : Pool) (v : IsValid p) (free : Free r p)
    (room : aligned < r.size) where
  others :
      (k s : ℕ)
      → find k (without_range r p).address_tree ≡ some s
      → (find k p.address_tree ≡ some s) × ((k + s ≤ r.offset) ⊎ (r.offset + r.size ≤ k))
  others k s e = ground (
    arith,
    find-without r p v free k,
    Chain-apart 0 p.total k r.offset s r.size p.address_tree v.chain,
    Chain-apart 0 p.total r.offset k r.size s p.address_tree v.chain,
  )

  bounds : (k s : ℕ) → find k p.address_tree ≡ some s → (0 < s) × (k + s ≤ p.total)
  bounds k s e =
      let b : (0 ≤ k) × (0 < s) × (k + s ≤ p.total) =
        Chain-bounds extent 0 p.total k s p.address_tree v.chain e in
      (b.1, b.2)

  total-without : (without_range r p).total ≡ p.total
  unfolding without_range
  total-without = refl

  rest-absent : find (r.offset + aligned) (without_range r p).address_tree ≡ none
  rest-absent = elim (Option-cases (find (r.offset + aligned) (without_range r p).address_tree)) [
    | inl e ↦ e
    | inr (s, e) ↦
        let (old, side) = others (r.offset + aligned) s e in
        absurd (omega (arith, bounds (r.offset + aligned) s old, side))
  ]

  rest-Fits : Fits (rest_of aligned r) (without_range r p)
  unfolding rest_of
  rest-Fits = record {
    sized = omega arith;
    inside = omega (arith, bounds r.offset r.size free, total-without);
    clear =
        All-of_find _ (without_range r p).address_tree
          (Chain-Rising extent 0 (without_range r p).total (without_range r p).address_tree
            (without_range-IsValid r p v free).chain)
          (λ k s e. ground (arith, others k s e));
    absent = rest-absent;
    after = λ k s e. λ same.
        let (old, side) = others k s e in
        let stuck : (k + s ≡ r.offset) → some r.size ≡ none =
          λ q. sym free ∙ ap (λ x. find x p.address_tree) (sym q) ∙ v.coalesced k s old in
        elim side [
          | inl low ↦ absurd (some-ne-none r.size (stuck (omega arith)))
          | inr high ↦ absurd (omega (arith, bounds k s old))
        ];
    next =
        let stop : r.offset + aligned + (r.size - aligned) ≡ r.offset + r.size = omega arith in
        rw stop (
          find-without r p v free (r.offset + r.size)
          ∙ (ground (arith, v.coalesced r.offset r.size free)));
  }

-- The pool without the first bytes of one of its free ranges.
module _ (aligned : ℕ) (r : Range) (p : Pool) (v : IsValid p) (free : Free r p)
    (room : aligned ≤ r.size) where
  take_range-IsValid : IsValid (take_range aligned r p)
  unfolding take_range rest_of
  take_range-IsValid = elim (Bool-cases (ltb aligned r.size)) [
    | inl e ↦ rw e (
        put_range-IsValid (rest_of aligned r) (without_range r p) (without_range-IsValid r p v free)
          (rest-Fits aligned r p v free (ground arith)))
    | inr e ↦ rw e (without_range-IsValid r p v free)
  ]

  covered-take_range :
      (a : ℕ)
      → covered a (take_range aligned r p).address_tree
        ≡ (covered a p.address_tree && not (within r.offset aligned a))
  unfolding take_range rest_of
  covered-take_range a = elim (Bool-cases (ltb aligned r.size)) [
    | inl e ↦ rw e (
        covered-put (rest_of aligned r) (without_range r p) (without_range-IsValid r p v free)
          (rest-Fits aligned r p v free (ground arith)) a
        ∙ (ground (
          arith,
          covered-without r p v free a,
          covered-find r.offset r.size a p.address_tree free,
        )))
    | inr e ↦ rw e (covered-without r p v free a ∙ (ground arith))
  ]

take_range-base : (n : ℕ) (r : Range) (p : Pool) → (take_range n r p).base ≡ p.base
unfolding take_range without_range put_range
take_range-base n r p = ground arith

take_range-total : (n : ℕ) (r : Range) (p : Pool) → (take_range n r p).total ≡ p.total
unfolding take_range without_range put_range
take_range-total n r p = ground arith

-- What an allocation of `size` bytes from the range `r` promises.
pub record Allocates (size : ℕ) (p : Pool) (r : Range) (p' : Pool) : Type 0 where
  pub answer : allocate size p ≡ (some (record { address = p.base + r.offset; size = size }), p')
  pub free : Free r p
  pub fits : align_up size ≤ r.size
  pub best : (x : Range) → Free x p → align_up size ≤ x.size → size_first x r ≡ false
  pub taken :
      (a : ℕ)
      → covered a p'.address_tree
        ≡ (covered a p.address_tree && not (within r.offset (align_up size) a))
  pub valid : IsValid p'
  pub same_base : p'.base ≡ p.base
  pub same_total : p'.total ≡ p.total

-- What a call of Allocate does, and when.
abbrev pub AllocateOutcome : ℕ → Pool → Type 0
AllocateOutcome size p =
    ((allocate size p ≡ (none, p)) × ((x : Range) → Free x p → x.size < align_up size))
    ⊎ ((r : Range) × ((p' : Pool) × Allocates size p r p'))

-- Allocate on a valid pool either fails, changes nothing, and every free range is smaller than the
-- rounded size; or it returns the first bytes of the smallest free range that is large enough, the one
-- with the lowest offset among these, takes exactly the rounded number of bytes at its start, and
-- leaves a valid pool.
pub allocate_outcome : (size : ℕ) (p : Pool) → IsValid p → AllocateOutcome size p
unfolding allocate
allocate_outcome size p v =
    elim (Option-cases (lower_bound (range 0 (align_up size)) p.size_tree)) [
      | inl e ↦ inl (
        rw (e, allocate),
        λ x f. lower_bound-none (align_up size) x p.size_tree e (holds-Free x p v f),
      )
      | inr (r, e) ↦
          let (held, room) = lower_bound-holds (align_up size) r p.size_tree e in
          let free : Free r p = Free-holds r p v held in
          let based : (p.base == 0) ≡ false = ground (arith, v.based) in
          inr (
            r,
            (
              take_range (align_up size) r p,
              record {
                answer = rw (e, allocate) (rw based (rw (free, allocate_from)));
                free = free;
                fits = room;
                best = λ x f n.
                    lower_bound-least (align_up size) r x p.size_tree v.sorted e
                      (holds-Free x p v f) n;
                taken = covered-take_range (align_up size) r p v free room;
                valid = take_range-IsValid (align_up size) r p v free room;
                same_base = take_range-base (align_up size) r p;
                same_total = take_range-total (align_up size) r p;
              },
            ),
          )
    ]

-- CanAllocate on a valid pool is true exactly where Allocate returns an element.
pub can_allocate-allocate :
    (size : ℕ) (p : Pool) → IsValid p → can_allocate size p ≡ is_some (allocate size p).0
unfolding can_allocate allocate
can_allocate-allocate size p v =
    elim (Option-cases (lower_bound (range 0 (align_up size)) p.size_tree)) [
      | inl e ↦ rw (e, can_allocate)
      | inr (r, e) ↦
          let free : Free r p =
            Free-holds r p v (lower_bound-holds (align_up size) r p.size_tree e).0 in
          let based : (p.base == 0) ≡ false = ground (arith, v.based) in
          rw (e, can_allocate) (rw based (rw (free, allocate_from)))
    ]

-- The rounded size of a 64-bit size is a multiple of 4096 that is at least the size and less than 4096
-- above it, exactly up to 2 ^ 64 - 4096; above that the sum wraps and the rounded size is 0.
pub align_up_bounds :
    (size : ℕ)
    → size < u64_mod
    → (size ≤ u64_mod - 4096
        → (size ≤ align_up size) × (align_up size < size + 4096) × (align_up size % 4096 ≡ 0))
      × (u64_mod - 4096 < size → align_up size ≡ 0)
unfolding align_up
align_up_bounds size small = (λ h. omega arith, λ h. omega arith)

-- An Allocate of more than 2 ^ 64 - 4096 bytes on a valid pool that has a free range succeeds and takes
-- nothing: the rounded size is 0.
pub allocate-overflow :
    (size : ℕ) (p : Pool) (x : Range)
    → IsValid p
    → Free x p
    → size < u64_mod
    → u64_mod - 4096 < size
    → (r : Range) × ((p' : Pool) × Allocates size p r p'
        × ((a : ℕ) → covered a p'.address_tree ≡ covered a p.address_tree))
allocate-overflow size p x v f small big =
    let zero_size : align_up size ≡ 0 = (align_up_bounds size small).1 big in
    elim (allocate_outcome size p v) [
      | inl (e, full) ↦ absurd (omega (arith, full x f, zero_size))
      | inr (r, (p', done)) ↦ (r, (p', done, λ a. done.taken a ∙ (ground (arith, zero_size))))
    ]
