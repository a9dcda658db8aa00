-- ===== src/Hybm/RangePool/Merging.antt =====
-- Release's merge with the range before the released one.
use memfabric_hybrid.Base.{
  ℕ, ◌+◌, ◌-◌, ◌%◌, ◌≤◌, ◌<◌, ◌≡◌, ◌⊎◌, ◌≢◌, refl, sym, ap, ◌∙◌, inl, inr, ◌||◌, [], ◌∷◌, none,
  some, ◌==◌, arith, Bool-cases, Option-cases, u64_mod, add64,
}
use mathlib.Core.Option.{some-ne-none}
use memfabric_hybrid.Base.OrdMap.{OrdMap, find, floor, All-of_find, All-find}
use memfabric_hybrid.Base.Ranges.{Chain, Clear, Chain-bounds, Chain-Rising, floor-find}
use memfabric_hybrid.Hybm.RangePool.{Range, range, Pool, previous, merge_previous, without_range}
use memfabric_hybrid.Hybm.RangePool.Free.{
  extent, within, covered, covered-find, Chain-apart, IsValid, find-without, without_range-IsValid,
  covered-without, total-without,
}

pub u64_sum : (n : ℕ) → n < u64_mod → n % u64_mod ≡ n
u64_sum n small = omega arith

-- The range is in use: no free range of the pool meets it.
pub record InUse (r : Range) (p : Pool) : Type 0 where
  pub sized : 0 < r.size
  pub inside : r.offset + r.size ≤ p.total
  pub clear : Clear extent r.offset r.size p.address_tree

floor-none :
    (lo hi a k w : ℕ) (m : OrdMap ℕ)
    → Chain extent lo hi m
    → floor a m ≡ none
    → find k m ≡ some w
    → a < k
unfolding find floor
floor-none lo hi a k w [] c e f = absurd (some-ne-none w (sym f))
floor-none lo hi a k w ((j, v) ∷ m) c e f = ground (arith, Chain-bounds extent (j + v) hi k w m c.2)

floor-greatest :
    (lo hi a k w o s : ℕ) (m : OrdMap ℕ)
    → Chain extent lo hi m
    → floor a m ≡ some (o, s)
    → find k m ≡ some w
    → k ≤ a
    → k ≤ o
unfolding find floor
floor-greatest lo hi a k w o s [] c e f h = absurd (some-ne-none w (sym f))
floor-greatest lo hi a k w o s ((j, v) ∷ m) c e f h = ground (
  arith,
  floor-none (j + v) hi a k w m c.2,
  floor-greatest (j + v) hi a k w o s m c.2,
  floor-find extent (j + v) hi a o s m c.2,
  Chain-bounds extent (j + v) hi o s m c.2,
)

-- The entry that stands before the offset, or that none does.
previous-none :
    (offset total k w : ℕ) (m : OrdMap ℕ)
    → Chain extent 0 total m
    → previous offset m ≡ none
    → find k m ≡ some w
    → offset ≤ k
unfolding previous
previous-none offset total k w m c e f = ground (arith, floor-none 0 total (offset - 1) k w m c)

previous-some :
    (offset total o s : ℕ) (m : OrdMap ℕ)
    → Chain extent 0 total m
    → previous offset m ≡ some (o, s)
    → (find o m ≡ some s) × (o < offset)
unfolding previous
previous-some offset total o s m c e =
    ground (arith, floor-find extent 0 total (offset - 1) o s m c)

previous-greatest :
    (offset total o s k w : ℕ) (m : OrdMap ℕ)
    → Chain extent 0 total m
    → previous offset m ≡ some (o, s)
    → find k m ≡ some w
    → k < offset
    → k ≤ o
unfolding previous
previous-greatest offset total o s k w m c e f h =
    ground (arith, floor-greatest 0 total (offset - 1) k w o s m c)

-- Free of the pool's ranges, and touching none of them on the left.
pub record FitsLeft (r : Range) (p : Pool) : Type 0 where
  pub sized : 0 < r.size
  pub inside : r.offset + r.size ≤ p.total
  pub clear : Clear extent r.offset r.size p.address_tree
  pub absent : find r.offset p.address_tree ≡ none
  pub after : (k s : ℕ) → find k p.address_tree ≡ some s → k + s ≢ r.offset

-- The range `r` of the pool `p` became the range `r'` of the pool `p'` by a merge.
pub record Merged (r : Range) (p : Pool) (r' : Range) (p' : Pool) : Type 0 where
  pub valid : IsValid p'
  pub stop : r'.offset + r'.size ≡ r.offset + r.size
  pub fits : FitsLeft r' p'
  pub same :
      (a : ℕ)
      → (within r'.offset r'.size a || covered a p'.address_tree)
        ≡ (within r.offset r.size a || covered a p.address_tree)

module _ (r : Range) (p : Pool) (v : IsValid p) (used : InUse r p) where
  bounds : (k s : ℕ) → find k p.address_tree ≡ some s → (0 < s) × (k + s ≤ p.total)
  bounds k s e =
      let b : (0 ≤ k) × (0 < s) × (k + s ≤ p.total) =
        Chain-bounds extent 0 p.total k s p.address_tree v.chain e in
      (b.1, b.2)

  side : (k s : ℕ) → find k p.address_tree ≡ some s → (k + s ≤ r.offset) ⊎ (r.offset + r.size ≤ k)
  side k s e = All-find _ k s p.address_tree used.clear e

  pub absent : find r.offset p.address_tree ≡ none
  absent = elim (Option-cases (find r.offset p.address_tree)) [
    | inl e ↦ e
    | inr (s, e) ↦ absurd (omega (arith, side r.offset s e, bounds r.offset s e, used.sized))
  ]

  unmerged : ((k s : ℕ) → find k p.address_tree ≡ some s → k + s ≢ r.offset) → Merged r p r p
  unmerged after = record {
    valid = v;
    stop = refl;
    fits = record {
      sized = used.sized;
      inside = used.inside;
      clear = used.clear;
      absent = absent;
      after = after;
    };
    same = λ a. refl;
  }

  others :
      (o s k w : ℕ)
      → find o p.address_tree ≡ some s
      → o + s ≡ r.offset
      → find k (without_range (range o s) p).address_tree ≡ some w
      → (find k p.address_tree ≡ some w) × ((k + w ≤ o) ⊎ (r.offset + r.size ≤ k))
  others o s k w e touch f = ground (
    arith,
    find-without (range o s) p v e k,
    Chain-apart 0 p.total k o w s p.address_tree v.chain,
    Chain-apart 0 p.total o k s w p.address_tree v.chain,
    side k w,
    bounds k w,
  )

  joined :
      (o s : ℕ)
      → find o p.address_tree ≡ some s
      → o + s ≡ r.offset
      → Merged r p (range o (r.size + s)) (without_range (range o s) p)
  joined o s e touch =
      let p1 : Pool = without_range (range o s) p in
      let v1 : IsValid p1 = without_range-IsValid (range o s) p v e in
      record {
        valid = v1;
        stop = omega arith;
        fits = record {
          sized = omega (arith, used.sized);
          inside = omega (arith, used.inside, total-without (range o s) p);
          clear =
              All-of_find _ p1.address_tree
                (Chain-Rising extent 0 p1.total p1.address_tree v1.chain)
                (λ k w f. ground (arith, others o s k w e touch f));
          absent = find-without (range o s) p v e o ∙ (ground arith);
          after = λ k w f. λ same.
              let old : find k p.address_tree ≡ some w = (others o s k w e touch f).0 in
              absurd (
                some-ne-none s
                  (sym e ∙ ap (λ x. find x p.address_tree) (sym same) ∙ v.coalesced k w old));
        };
        same = λ a.
            ground
              (arith, covered-without (range o s) p v e a, covered-find o s a p.address_tree e);
      }

  pub merge_previous-Merged :
      Merged r p
        (merge_previous r (previous r.offset p.address_tree) p).0
        (merge_previous r (previous r.offset p.address_tree) p).1
  unfolding merge_previous
  merge_previous-Merged = elim (Option-cases (previous r.offset p.address_tree)) [
    | inl e ↦ rw e (
        unmerged (λ k w f same. absurd (
          omega
            (arith, previous-none r.offset p.total k w p.address_tree v.chain e f, bounds k w f))))
    | inr ((o, s), e) ↦
        let (found, below) = previous-some r.offset p.total o s p.address_tree v.chain e in
        let end_sum : add64 o s ≡ o + s =
          u64_sum (o + s) (omega (arith, bounds o s found, v.small)) in
        elim (Bool-cases (o + s == r.offset)) [
          | inl touch ↦
              let met : o + s ≡ r.offset = ground (arith, touch) in
              let size_sum : add64 r.size s ≡ r.size + s =
                u64_sum (r.size + s) (omega (arith, used.inside, v.small)) in
              rw e (rw end_sum (rw touch (rw size_sum (joined o s found met))))
          | inr apart ↦ rw e (
              rw end_sum (
                rw apart (
                  unmerged (λ k w f same. absurd (
                    ground (
                      arith,
                      previous-greatest r.offset p.total o s k w p.address_tree v.chain e f,
                      Chain-apart 0 p.total k o w s p.address_tree v.chain f found,
                      bounds k w f,
                      found,
                      f,
                    ))))))
        ]
  ]
