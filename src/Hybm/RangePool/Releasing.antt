-- ===== src/Hybm/RangePool/Releasing.antt =====
-- Release gives exactly the bytes of its range back, and merges what then touches.
use memfabric_hybrid.Base.{
  ℕ, ◌+◌, ◌-◌, ◌≤◌, ◌<◌, ◌≡◌, ◌⊎◌, refl, sym, ap, ◌∙◌, inl, inr, true, false, ◌||◌, Option, none,
  some, ltb, leb, ◌==◌, arith, Option-cases, add64,
}
use memfabric_hybrid.Base.OrdMap.{find, All-of_find, All-find}
use memfabric_hybrid.Base.Ranges.{Chain-bounds, Chain-Rising}
use memfabric_hybrid.Hybm.RangePool.{
  Range, range, Pool, Element, align_up, previous, merge_previous, merge_next, release_range,
  release, without_range, put_range,
}
use memfabric_hybrid.Hybm.RangePool.Free.{
  extent, within, covered, covered-find, Chain-apart, IsValid, find-without, without_range-IsValid,
  covered-without, total-without, Fits, put_range-IsValid, covered-put,
}
use memfabric_hybrid.Hybm.RangePool.Merging.{
  InUse, FitsLeft, Merged, u64_sum, merge_previous-Merged,
}

-- The range `r2` of the pool `p2` may be entered, and gives back the bytes of `r1` to `p1`.
record Ready (r1 : Range) (p1 : Pool) (r2 : Range) (p2 : Pool) : Type 0 where
  valid : IsValid p2
  fits : Fits r2 p2
  same :
      (a : ℕ)
      → (within r2.offset r2.size a || covered a p2.address_tree)
        ≡ (within r1.offset r1.size a || covered a p1.address_tree)

module _ (r : Range) (p : Pool) (v : IsValid p) (fits : FitsLeft r p) where
  extended :
      (s : ℕ)
      → find (r.offset + r.size) p.address_tree ≡ some s
      → Ready r p (range r.offset (r.size + s)) (without_range (range (r.offset + r.size) s) p)
  extended s e =
      let q : Range = range (r.offset + r.size) s in
      let p2 : Pool = without_range q p in
      let v2 : IsValid p2 = without_range-IsValid q p v e in
      record {
        valid = v2;
        fits = record {
          sized = omega (arith, fits.sized);
          inside =
              let b : (0 ≤ r.offset + r.size) × (0 < s) × (r.offset + r.size + s ≤ p.total) =
                Chain-bounds extent 0 p.total (r.offset + r.size) s p.address_tree v.chain e in
              omega (arith, b, total-without q p);
          clear =
              All-of_find _ p2.address_tree
                (Chain-Rising extent 0 p2.total p2.address_tree v2.chain)
                (λ k w f. ground (
                  arith,
                  find-without q p v e k,
                  All-find _ k w p.address_tree fits.clear,
                  Chain-apart 0 p.total (r.offset + r.size) k s w p.address_tree v.chain e,
                ));
          absent = find-without q p v e r.offset ∙ (ground (arith, fits.absent));
          after = λ k w f. fits.after k w (ground (arith, find-without q p v e k));
          next =
              ap (λ n. find n p2.address_tree) (omega arith)
              ∙ find-without q p v e (r.offset + r.size + s)
              ∙ (ground (arith, v.coalesced (r.offset + r.size) s e));
        };
        same = λ a. ground (
          arith,
          covered-without q p v e a,
          covered-find (r.offset + r.size) s a p.address_tree e,
        );
      }

  merge_next-Ready :
      Ready r p (merge_next (r.offset + r.size) r p).0 (merge_next (r.offset + r.size) r p).1
  unfolding merge_next
  merge_next-Ready = elim (Option-cases (find (r.offset + r.size) p.address_tree)) [
    | inl e ↦
        rw (e, merge_next)
          (record {
            valid = v;
            fits = record {
              sized = fits.sized;
              inside = fits.inside;
              clear = fits.clear;
              absent = fits.absent;
              after = fits.after;
              next = e;
            };
            same = λ a. refl;
          })
    | inr (s, e) ↦
        let size_sum : add64 r.size s ≡ r.size + s = u64_sum (r.size + s) (
          omega (
            arith,
            Chain-bounds extent 0 p.total (r.offset + r.size) s p.address_tree v.chain e,
            v.small,
          )) in
        rw (e, merge_next) (rw size_sum (extended s e))
  ]

-- What the return of the bytes of `r` to a pool promises.
pub record Returned (r : Range) (p p' : Pool) : Type 0 where
  pub valid : IsValid p'
  pub same_total : p'.total ≡ p.total
  pub same_base : p'.base ≡ p.base
  pub given :
      (a : ℕ) → covered a p'.address_tree ≡ (within r.offset r.size a || covered a p.address_tree)

merge_previous-block :
    (r : Range) (o : Option (ℕ × ℕ)) (p : Pool)
    → ((merge_previous r o p).1.total ≡ p.total) × ((merge_previous r o p).1.base ≡ p.base)
unfolding merge_previous without_range
merge_previous-block r none p = (refl, refl)
merge_previous-block r (some (o, s)) p = ground arith

merge_next-block :
    (n : ℕ) (r : Range) (p : Pool)
    → ((merge_next n r p).1.total ≡ p.total) × ((merge_next n r p).1.base ≡ p.base)
unfolding merge_next without_range
merge_next-block n r p = ground arith

release_range-Returned :
    (r : Range) (p : Pool) → IsValid p → InUse r p → Returned r p (release_range r p)
unfolding release_range put_range
release_range-Returned r p v used =
    let before_it : Option (ℕ × ℕ) = previous r.offset p.address_tree in
    let r1 : Range = (merge_previous r before_it p).0 in
    let p1 : Pool = (merge_previous r before_it p).1 in
    let m : Merged r p r1 p1 = merge_previous-Merged r p v used in
    let stop : add64 r.offset r.size ≡ r1.offset + r1.size =
      u64_sum (r.offset + r.size) (omega (arith, used.inside, v.small)) ∙ sym m.stop in
    let r2 : Range = (merge_next (r1.offset + r1.size) r1 p1).0 in
    let p2 : Pool = (merge_next (r1.offset + r1.size) r1 p1).1 in
    let n : Ready r1 p1 r2 p2 = merge_next-Ready r1 p1 m.valid m.fits in
    let b1 : (p1.total ≡ p.total) × (p1.base ≡ p.base) = merge_previous-block r before_it p in
    let b2 : (p2.total ≡ p1.total) × (p2.base ≡ p1.base) =
      merge_next-block (r1.offset + r1.size) r1 p1 in
    let done : Returned r p (put_range r2 p2) = record {
      valid = put_range-IsValid r2 p2 n.valid n.fits;
      same_total = b2.0 ∙ b1.0;
      same_base = b2.1 ∙ b1.1;
      given = λ a. covered-put r2 p2 n.valid n.fits a ∙ n.same a ∙ m.same a;
    } in
    rw stop done

-- Release on a valid pool refuses a null address and an address outside the block, and changes
-- nothing then; for an element whose rounded range is inside the block, is not empty and holds no free
-- byte, it succeeds, leaves a valid pool over the same block, and makes exactly the bytes of that
-- range free.
pub release_outcome :
    (e : Element) (p : Pool)
    → IsValid p
    → ((e.address < p.base) ⊎ (p.base + p.total ≤ e.address) → release e p ≡ (false, p))
      × ((r : Range)
          → e.address ≡ p.base + r.offset
          → align_up e.size ≡ r.size
          → InUse r p
          → ((release e p).0 ≡ true) × Returned r p (release e p).1)
unfolding release
release_outcome e p v =
    let based : (p.base == 0) ≡ false = ground (arith, v.based) in
    (
      λ out. ground (arith, v.based, out),
      λ r at long used.
          let nonzero : (e.address == 0) ≡ false = ground (arith, at, v.based) in
          let above : ltb e.address p.base ≡ false = ground (arith, at) in
          let below : leb (p.base + p.total) e.address ≡ false =
            ground (arith, at, used.inside, used.sized) in
          let offset : e.address - p.base ≡ r.offset = omega (arith, at) in
          rw based (
            rw nonzero (
              rw above
                (rw below (rw offset (rw long ((refl, release_range-Returned r p v used))))))),
    )
