-- ===== src/Hybm/RangePool/SessionLaws.antt =====
-- Allocate and Release keep every byte of the block with one holder.
use memfabric_hybrid.Base.{
  ℕ, ◌+◌, ◌-◌, ◌%◌, ◌≤◌, ◌<◌, ◌≡◌, ◌⊎◌, refl, sym, ap, ◌∙◌, inl, inr, true, false, ◌||◌, List, [],
  ◌∷◌, some, if◌then◌else◌, arith, u64_mod,
}
use mathlib.Core.Option.{some-injective, some-ne-none}
use memfabric_hybrid.Base.OrdMap.{find, All-of_find}
use memfabric_hybrid.Base.Ranges.{Chain-bounds, Chain-Rising}
use memfabric_hybrid.Hybm.RangePool.{Pool, Element, new_pool, align_up, allocate, release}
use memfabric_hybrid.Hybm.RangePool.SizeTree.{holds}
use memfabric_hybrid.Hybm.RangePool.Free.{extent, within, covered, covered-find, IsValid}
use memfabric_hybrid.Hybm.RangePool.Allocating.{allocate_outcome, align_up_bounds}
use memfabric_hybrid.Hybm.RangePool.Merging.{InUse}
use memfabric_hybrid.Hybm.RangePool.Releasing.{release_outcome}
use memfabric_hybrid.Hybm.RangePool.Session.{
  Taken, first, later, extent_of, holders, Placed, AllPlaced, IsSound,
}

module _ (base total : ℕ) where
  Taken-Placed :
      (e : Element) (live rest : List Element)
      → Taken e live rest
      → AllPlaced base total live
      → Placed base total e × AllPlaced base total rest
  Taken-Placed e _ _ (first rest) a = a
  Taken-Placed e _ _ (later f live rest t) a =
      let (here, more) = Taken-Placed e live rest t a.1 in (here, (a.0, more))

  Taken-holders :
      (e : Element) (live rest : List Element) (a : ℕ)
      → Taken e live rest
      → holders base a live ≡ holders base a (e ∷ rest)
  unfolding holders
  Taken-holders e _ _ a (first rest) = refl
  Taken-holders e _ _ a (later f live rest t) = omega (arith, Taken-holders e live rest a t)

  pub new_pool-IsValid :
      0 < base → 0 < total → base + total < u64_mod → IsValid (new_pool base total)
  unfolding new_pool find holds
  new_pool-IsValid b t w = record {
    based = b;
    small = w;
    chain = (omega arith, t, omega arith);
    coalesced = λ k s e. ground arith;
    sorted = (tt, tt);
    mirrored = λ r. ground arith;
  }

  pub start-IsSound :
      0 < base → 0 < total → base + total < u64_mod → IsSound base total [] (new_pool base total)
  unfolding new_pool covered holders
  start-IsSound b t w = record {
    valid = new_pool-IsValid b t w;
    same_base = refl;
    same_total = refl;
    placed = tt;
    partition = λ a h. ground arith;
  }

  pub allocated-IsSound :
      (size : ℕ) (e : Element) (live : List Element) (p p' : Pool)
      → IsSound base total live p
      → 0 < size
      → size ≤ u64_mod - 4096
      → allocate size p ≡ (some e, p')
      → IsSound base total (e ∷ live) p'
  unfolding holders
  allocated-IsSound size e live p p' s positive small eq = elim (allocate_outcome size p s.valid) [
    | inl (failed, full) ↦ absurd (some-ne-none e (ap (λ x. x.0) (sym eq ∙ failed)))
    | inr (r, (q, done)) ↦
        let same_e : record { address = p.base + r.offset; size = size } ≡ e =
          some-injective _ _ (ap (λ x. x.0) (sym done.answer ∙ eq)) in
        let same_p : q ≡ p' = ap (λ x. x.1) (sym done.answer ∙ eq) in
        rw (sym same_e) (
          rw (sym same_p) (
            let rounded : (size ≤ align_up size)
                × (align_up size < size + 4096)
                × (align_up size % 4096 ≡ 0) =
              (align_up_bounds size (omega arith)).0 small in
            let inner : (0 ≤ r.offset) × (0 < r.size) × (r.offset + r.size ≤ p.total) =
              Chain-bounds extent 0 p.total r.offset r.size p.address_tree s.valid.chain
                done.free in
            let offset : p.base + r.offset - base ≡ r.offset = omega (arith, s.same_base) in
            record {
              valid = done.valid;
              same_base = done.same_base ∙ s.same_base;
              same_total = done.same_total ∙ s.same_total;
              placed = (
                record {
                  above = omega (arith, s.same_base);
                  sized = omega (arith, rounded);
                  inside = omega (arith, offset, inner, done.fits, s.same_total);
                },
                s.placed,
              );
              partition = λ a h. rw offset (
                  ground (
                    arith,
                    done.taken a,
                    s.partition a h,
                    covered-find r.offset r.size a p.address_tree done.free,
                    done.fits,
                  ));
            }))
  ]

  -- A byte of a taken element is not free.
  pub held_byte :
      (e : Element) (live rest : List Element) (p : Pool) (a : ℕ)
      → IsSound base total live p
      → Taken e live rest
      → within (e.address - base) (align_up e.size) a ≡ true
      → covered a p.address_tree ≡ false
  unfolding holders
  held_byte e live rest p a s t h = ground (
    arith,
    s.partition a,
    Taken-holders e live rest a t,
    (Taken-Placed e live rest t s.placed).0.inside,
  )

  clear_of :
      (e : Element) (live rest : List Element) (p : Pool)
      → IsSound base total live p
      → Taken e live rest
      → (k w : ℕ) → find k p.address_tree ≡ some w
      → (k + w ≤ e.address - base) ⊎ (e.address - base + align_up e.size ≤ k)
  clear_of e live rest p s t k w f = ground (
    arith,
    held_byte e live rest p k s t,
    held_byte e live rest p (e.address - base) s t,
    covered-find k w k p.address_tree f,
    covered-find k w (e.address - base) p.address_tree f,
    Chain-bounds extent 0 p.total k w p.address_tree s.valid.chain f,
    (Taken-Placed e live rest t s.placed).0.sized,
  )

  meets_none :
      (e : Element) (live rest : List Element) (p : Pool)
      → IsSound base total live p
      → Taken e live rest
      → InUse (extent_of base e) p
  meets_none e live rest p s t =
      let (here, more) = Taken-Placed e live rest t s.placed in
      record {
        sized = here.sized;
        inside = omega (arith, here.inside, s.same_total);
        clear =
            All-of_find _ p.address_tree
              (Chain-Rising extent 0 p.total p.address_tree s.valid.chain)
              (λ k w f. clear_of e live rest p s t k w f);
      }

  returned_byte :
      (e : Element) (live rest : List Element) (p : Pool) (a : ℕ)
      → IsSound base total live p
      → Taken e live rest
      → a < total
      → ((b : ℕ)
          → covered b (release e p).1.address_tree
            ≡ (within (e.address - base) (align_up e.size) b || covered b p.address_tree))
      → holders base a rest + (if covered a (release e p).1.address_tree then 1 else 0) ≡ 1
  unfolding holders
  returned_byte e live rest p a s t h given = ground (
    arith,
    given a,
    s.partition a h,
    Taken-holders e live rest a t,
    held_byte e live rest p a s t,
  )

  pub released-IsSound :
      (e : Element) (live rest : List Element) (p : Pool)
      → IsSound base total live p
      → Taken e live rest
      → ((release e p).0 ≡ true) × IsSound base total rest (release e p).1
  released-IsSound e live rest p s t =
      let (here, more) = Taken-Placed e live rest t s.placed in
      let (good, back) =
        (release_outcome e p s.valid).1 (extent_of base e) (omega (arith, here.above, s.same_base))
          refl (meets_none e live rest p s t) in
      (
        good,
        record {
          valid = back.valid;
          same_base = back.same_base ∙ s.same_base;
          same_total = back.same_total ∙ s.same_total;
          placed = more;
          partition = λ a h. returned_byte e live rest p a s t h back.given;
        },
      )
