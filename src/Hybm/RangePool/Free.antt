-- ===== src/Hybm/RangePool/Free.antt =====
-- The free bytes of an address tree, and the invariant of a pool.
use memfabric_hybrid.Base.{
  ℕ, ◌+◌, ◌≤◌, ◌<◌, ◌≡◌, ◌≢◌, refl, Bool, true, false, not, ◌&&◌, ◌||◌, [], ◌∷◌, none, some, ltb,
  leb, ◌==◌, if◌then◌else◌, arith, u64_mod,
}
use memfabric_hybrid.Base.OrdMap.{OrdMap, find, assign, erase, find-assign, find-erase-Rising}
use memfabric_hybrid.Base.Ranges.{
  Chain, Clear, Chain-bounds, Chain-Rising, Chain-erase, Chain-assign,
}
use memfabric_hybrid.Hybm.RangePool.{Range, Pool, emplace, without_range, put_range}
use memfabric_hybrid.Hybm.RangePool.SizeTree.{
  holds, Sorted, holds-insert_range, holds-erase_range, Sorted-insert, Sorted-erase,
}

abbrev pub extent : ℕ → ℕ
extent s = s

-- [offset, offset + size) has the byte `a`.
abbrev pub within : ℕ → ℕ → ℕ → Bool
within offset size a = leb offset a && ltb a (offset + size)

-- The byte `a` lies in a range of the tree.
unfoldable pub covered : ℕ → OrdMap ℕ → Bool
covered a [] = false
covered a ((o, s) ∷ m) = within o s a || covered a m

pub covered-assign :
    (lo hi k s a : ℕ) (m : OrdMap ℕ)
    → Chain extent lo hi m
    → 0 < s
    → Clear extent k s m
    → covered a (assign k s m) ≡ (within k s a || covered a m)
unfolding covered assign
covered-assign lo hi k s a [] c p h = refl
covered-assign lo hi k s a ((o, w) ∷ m) c p h =
    ground (arith, covered-assign (o + w) hi k s a m c.2)

pub covered_below :
    (lo hi a : ℕ) (m : OrdMap ℕ) → Chain extent lo hi m → a < lo → covered a m ≡ false
unfolding covered
covered_below lo hi a [] c h = refl
covered_below lo hi a ((o, w) ∷ m) c h = ground (arith, covered_below (o + w) hi a m c.2)

pub covered-erase :
    (lo hi k s a : ℕ) (m : OrdMap ℕ)
    → Chain extent lo hi m
    → find k m ≡ some s
    → covered a (erase k m) ≡ (covered a m && not (within k s a))
unfolding covered erase find
covered-erase lo hi k s a [] c e = absurd (cc)
covered-erase lo hi k s a ((o, w) ∷ m) c e = ground (
  arith,
  covered-erase (o + w) hi k s a m c.2,
  covered_below (o + w) hi a m c.2,
  Chain-bounds extent (o + w) hi k s m c.2,
)

pub covered-find :
    (k s a : ℕ) (m : OrdMap ℕ) → find k m ≡ some s → within k s a ≡ true → covered a m ≡ true
unfolding covered find
covered-find k s a [] e h = absurd (cc)
covered-find k s a ((o, w) ∷ m) e h = ground (arith, covered-find k s a m)

-- Two ranges of a chain do not meet.
pub Chain-apart :
    (lo hi j k v w : ℕ) (m : OrdMap ℕ)
    → Chain extent lo hi m
    → find j m ≡ some v
    → find k m ≡ some w
    → j < k
    → j + v ≤ k
unfolding find
Chain-apart lo hi j k v w [] c e f h = absurd (cc)
Chain-apart lo hi j k v w ((o, x) ∷ m) c e f h = ground (
  arith,
  Chain-apart (o + x) hi j k v w m c.2,
  Chain-bounds extent (o + x) hi k w m c.2,
  Chain-bounds extent (o + x) hi j v m c.2,
)

-- The tree by size holds a range exactly if the tree by address does.
abbrev pub listed : Range → OrdMap ℕ → Bool
listed r m = elim (find r.offset m) [ none ↦ false | some s ↦ s == r.size ]

pub record IsValid (p : Pool) : Type 0 where
  pub based : 0 < p.base
  pub small : p.base + p.total < u64_mod
  pub chain : Chain extent 0 p.total p.address_tree
  pub coalesced : (k s : ℕ) → find k p.address_tree ≡ some s → find (k + s) p.address_tree ≡ none
  pub sorted : Sorted p.size_tree
  pub mirrored : (r : Range) → holds r p.size_tree ≡ listed r p.address_tree

emplace-assign : (k v : ℕ) (m : OrdMap ℕ) → find k m ≡ none → emplace k v m ≡ assign k v m
unfolding emplace
emplace-assign k v m e = rw (e, emplace)

module _ (r : Range) (p : Pool) (valid : IsValid p)
    (found : find r.offset p.address_tree ≡ some r.size) where
  pub find-without :
      (k : ℕ)
      → find k (without_range r p).address_tree
        ≡ (if r.offset == k then none else find k p.address_tree)
  unfolding without_range
  find-without k =
      find-erase-Rising r.offset k p.address_tree
        (Chain-Rising extent 0 p.total p.address_tree valid.chain)

  pub without_range-IsValid : IsValid (without_range r p)
  unfolding without_range
  without_range-IsValid = record {
    based = valid.based;
    small = valid.small;
    chain = Chain-erase extent 0 p.total r.offset p.address_tree valid.chain;
    coalesced = λ k s e. ground (arith, find-without k, find-without (k + s), valid.coalesced k s);
    sorted = Sorted-erase r p.size_tree valid.sorted;
    mirrored = λ x. ground (
      arith,
      holds-erase_range x r p.size_tree valid.sorted,
      find-without x.offset,
      valid.mirrored x,
      found,
    );
  }

  pub covered-without :
      (a : ℕ)
      → covered a (without_range r p).address_tree
        ≡ (covered a p.address_tree && not (within r.offset r.size a))
  unfolding without_range
  covered-without a = covered-erase 0 p.total r.offset r.size a p.address_tree valid.chain found

pub total-without : (r : Range) (p : Pool) → (without_range r p).total ≡ p.total
unfolding without_range
total-without r p = refl

-- The range is free of the pool's ranges, and touches none of them.
pub record Fits (r : Range) (p : Pool) : Type 0 where
  pub sized : 0 < r.size
  pub inside : r.offset + r.size ≤ p.total
  pub clear : Clear extent r.offset r.size p.address_tree
  pub absent : find r.offset p.address_tree ≡ none
  pub after : (k s : ℕ) → find k p.address_tree ≡ some s → k + s ≢ r.offset
  pub next : find (r.offset + r.size) p.address_tree ≡ none

module _ (r : Range) (p : Pool) (valid : IsValid p) (fits : Fits r p) where
  pub find-put :
      (k : ℕ)
      → find k (put_range r p).address_tree
        ≡ (if r.offset == k then some r.size else find k p.address_tree)
  unfolding put_range
  find-put k =
      rw (emplace-assign r.offset r.size p.address_tree fits.absent)
        (find-assign r.offset k r.size p.address_tree)

  pub put_range-IsValid : IsValid (put_range r p)
  unfolding put_range
  put_range-IsValid = record {
    based = valid.based;
    small = valid.small;
    chain = rw (emplace-assign r.offset r.size p.address_tree fits.absent) (
        Chain-assign extent 0 p.total r.offset r.size p.address_tree valid.chain (omega arith)
          fits.inside fits.sized fits.clear);
    coalesced = λ k s e. ground (
      arith,
      find-put k,
      find-put (k + s),
      valid.coalesced k s,
      fits.after k s,
      fits.next,
      fits.sized,
    );
    sorted = Sorted-insert r p.size_tree valid.sorted;
    mirrored = λ x. ground (
      arith,
      holds-insert_range x r p.size_tree,
      find-put x.offset,
      valid.mirrored x,
      fits.absent,
    );
  }

  pub covered-put :
      (a : ℕ)
      → covered a (put_range r p).address_tree
        ≡ (within r.offset r.size a || covered a p.address_tree)
  unfolding put_range
  covered-put a =
      rw (emplace-assign r.offset r.size p.address_tree fits.absent) (
        covered-assign 0 p.total r.offset r.size a p.address_tree valid.chain fits.sized fits.clear)
