-- ===== src/Hybm/RangePool/SessionRuns.antt =====
-- A run of Allocate and Release hands every byte of the block to one holder at a time.
use memfabric_hybrid.Base.{
  ℕ, ◌+◌, ◌<◌, ◌≡◌, ◌≢◌, refl, sym, ap, subst, ◌∙◌, inl, inr, true, false, List, [], ◌∷◌, none,
  some, ltb, arith, Bool-cases, u64_mod,
}
use mathlib.Core.Option.{some-ne-none}
use memfabric_hybrid.Base.OrdMap.{OrdMap, find}
use memfabric_hybrid.Base.Ranges.{Chain, Chain-le, Chain-mono}
use memfabric_hybrid.Hybm.RangePool.{Range, range, Pool, Element, new_pool, release}
use memfabric_hybrid.Hybm.RangePool.SizeTree.{holds, Sorted}
use memfabric_hybrid.Hybm.RangePool.Free.{extent, covered, covered_below, listed}
use memfabric_hybrid.Hybm.RangePool.Allocating.{allocate_outcome}
use memfabric_hybrid.Hybm.RangePool.Session.{
  Taken, Session, start, allocated, refused, released, holders, IsSound,
}
use memfabric_hybrid.Hybm.RangePool.SessionLaws.{start-IsSound, allocated-IsSound, released-IsSound}

-- A chain that has its lowest byte has a range there.
covered-lowest :
    (lo hi : ℕ) (m : OrdMap ℕ) → Chain extent lo hi m → covered lo m ≡ true → find lo m ≢ none
unfolding covered find
covered-lowest lo hi [] c h = absurd (cc)
covered-lowest lo hi ((j, v) ∷ m) c h = ground (arith, covered_below (j + v) hi lo m c.2)

lead :
    (total o s : ℕ) (m : OrdMap ℕ)
    → 0 < total
    → Chain extent 0 total ((o, s) ∷ m)
    → covered 0 ((o, s) ∷ m) ≡ true
    → o ≡ 0
unfolding covered
lead total o s m t c h = ground (arith, covered_below (o + s) total 0 m c.2)

reach :
    (total s : ℕ) (m : OrdMap ℕ)
    → Chain extent 0 total ((0, s) ∷ m)
    → find s ((0, s) ∷ m) ≡ none
    → (s < total → covered s ((0, s) ∷ m) ≡ true)
    → s ≡ total
unfolding covered find
reach total s m c g h =
    let tail : Chain extent s total m = Chain-mono extent s (0 + s) total m (omega arith) c.2 in
    elim (Bool-cases (ltb s total)) [
      | inl e ↦
          let low : s < total = ground (arith, e) in
          absurd
            (covered-lowest s total m tail (ground (arith, h low, c.1)) (ground (arith, g, c.1)))
      | inr e ↦ ground (arith, Chain-le extent s total m tail)
    ]

Bool-apart : false ≢ true
Bool-apart h = absurd (cc)

from_start :
    (o s : ℕ) (m : OrdMap ℕ)
    → o ≡ 0
    → (find o ((o, s) ∷ m) ≡ some s → find (o + s) ((o, s) ∷ m) ≡ none)
    → find s ((o, s) ∷ m) ≡ none
unfolding find
from_start o s m at g = ground (arith, at, g)

closed : (n : ℕ) (m : OrdMap ℕ) → Chain extent n n m → m ≡ []
closed n [] c = refl
closed n ((j, v) ∷ m) c = absurd (omega (arith, Chain-le extent (j + v) n m c.2))

-- One free range that covers the block.
whole :
    (total : ℕ) (m : OrdMap ℕ)
    → 0 < total
    → Chain extent 0 total m
    → ((k s : ℕ) → find k m ≡ some s → find (k + s) m ≡ none)
    → ((a : ℕ) → a < total → covered a m ≡ true)
    → m ≡ (0, total) ∷ []
unfolding covered
whole total [] t c g h = absurd (Bool-apart (h 0 t))
whole total ((o, s) ∷ m) t c g h =
    let at : o ≡ 0 = lead total o s m t c (h 0 t) in
    let same : (o, s) ∷ m ≡ (0, s) ∷ m = ap (λ x. (x, s) ∷ m) at in
    let c0 : Chain extent 0 total ((0, s) ∷ m) =
      subst (λ x. Chain extent 0 total ((x, s) ∷ m)) at c in
    let long : s ≡ total =
      reach total s m c0 (ap (find s) (sym same) ∙ from_start o s m at (g o s))
        (λ low. ap (covered s) (sym same) ∙ h s low) in
    let tail : m ≡ [] = closed total m (
      subst (λ x. Chain extent x total m) long
        (Chain-mono extent s (0 + s) total m (omega arith) c0.2)) in
    same ∙ ap (λ x. (0, x) ∷ m) long ∙ ap (λ x. (0, total) ∷ x) tail

listing :
    (total : ℕ) (l : List Range)
    → Sorted l
    → ((r : Range) → holds r l ≡ listed r ((0, total) ∷ []))
    → l ≡ range 0 total ∷ []
unfolding holds find
listing total [] s h = absurd (ground (arith, h (range 0 total)))
listing total (q ∷ []) s h =
    let (same_offset, same_size) : (q.offset ≡ 0) × (q.size ≡ total) = ground (arith, h q) in
    ap (λ x. x ∷ []) (rw (same_offset, same_size) refl)
listing total (q ∷ x ∷ l) s h = absurd (ground (arith, h q, h x, s.0.0))

-- In every run of Allocate and Release over a pool on a block with a base other than null, whose end
-- is below 2 ^ 64, where the sizes asked for are from 1 to 2 ^ 64 - 4096 bytes and elements are
-- released in any order, the pool stays valid, the live elements lie in the block, and every byte of
-- the block is either free or in exactly one live element.
pub Session-partition :
    (base total : ℕ) (live : List Element) (p : Pool)
    → 0 < base
    → 0 < total
    → base + total < u64_mod
    → Session base total live p
    → IsSound base total live p
Session-partition base total _ _ b t w start = start-IsSound base total b t w
Session-partition base total _ _ b t w (allocated size e live p p' s positive small eq) =
    allocated-IsSound base total size e live p p' (Session-partition base total live p b t w s)
      positive small eq
Session-partition base total _ _ b t w (refused size live p p' s eq) =
    let sound : IsSound base total live p = Session-partition base total live p b t w s in
    elim (allocate_outcome size p sound.valid) [
      | inl (same, full) ↦ rw (sym (ap (λ x. x.1) (sym same ∙ eq))) sound
      | inr (r, (q, done)) ↦ absurd (some-ne-none _ (ap (λ x. x.0) (sym done.answer ∙ eq)))
    ]
Session-partition base total _ _ b t w (released e live rest p s taken) =
    (released-IsSound base total e live rest p (Session-partition base total live p b t w s)
      taken).1

-- In every such run each live element can be released: Release returns true.
pub Session-release :
    (base total : ℕ) (e : Element) (live rest : List Element) (p : Pool)
    → 0 < base
    → 0 < total
    → base + total < u64_mod
    → Session base total live p
    → Taken e live rest
    → (release e p).0 ≡ true
Session-release base total e live rest p b t w s taken =
    (released-IsSound base total e live rest p (Session-partition base total live p b t w s)
      taken).0

-- When every element of such a run is released, the pool is as its constructor made it: one free
-- range, the whole block, in both trees.
pub Session-drained :
    (base total : ℕ) (p : Pool)
    → 0 < base
    → 0 < total
    → base + total < u64_mod
    → Session base total [] p
    → p ≡ new_pool base total
unfolding new_pool holders
Session-drained base total p b t w s =
    let sound : IsSound base total [] p = Session-partition base total [] p b t w s in
    let tree : p.address_tree ≡ (0, total) ∷ [] =
      whole total p.address_tree t
        (subst (λ x. Chain extent 0 x p.address_tree) sound.same_total sound.valid.chain)
        sound.valid.coalesced (λ a h. ground (arith, sound.partition a h)) in
    let sizes : p.size_tree ≡ range 0 total ∷ [] =
      listing total p.size_tree sound.valid.sorted
        (λ r. sound.valid.mirrored r ∙ ap (listed r) tree) in
    λ i. record {
      base = sound.same_base i;
      total = sound.same_total i;
      address_tree = tree i;
      size_tree = sizes i;
    }
