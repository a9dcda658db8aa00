-- ===== src/Hybm/Va/Reserve/Gaps.antt =====
-- FindFreeSpace finds the lowest free space that is large enough, if there is any.
use memfabric_hybrid.Base.{
  ℕ, ◌+◌, ◌-◌, ◌≤◌, ◌<◌, ◌≡◌, refl, inl, inr, sym, ◌∙◌, false, subst, ◌&&◌, ◌||◌, List, [], ◌∷◌,
  some, ltb, leb, ◌==◌, if◌then◌else◌, arith, u64_mod, Bool-cases,
}
use mathlib.Core.Option.{some-injective, some-ne-none}
use memfabric_hybrid.Base.Pairs.{insert_pair, sort_pairs}
use memfabric_hybrid.Base.OrdMap.{OrdMap, All}
use memfabric_hybrid.Base.Ranges.{Chain, Clear, Chain-le}
use memfabric_hybrid.Hybm.Va.Types.{ReservedGvaInfo}
use memfabric_hybrid.Hybm.Va.Reserve.{used_ranges, first_gap, or_start, find_free_space}

abbrev pub reserved_size : ReservedGvaInfo → ℕ
reserved_size r = r.size

abbrev spans : OrdMap ReservedGvaInfo → List (ℕ × ℕ)
spans [] = []
spans ((k, r) ∷ m) = (k, k + r.size) ∷ spans m

used_ranges-spans :
    (start stop lo : ℕ) (m : OrdMap ReservedGvaInfo)
    → Chain reserved_size lo stop m
    → All (λ k r. r.start ≡ k) m
    → start ≤ lo
    → stop < u64_mod
    → used_ranges start stop m ≡ spans m
unfolding used_ranges
used_ranges-spans start stop lo [] c k h u = refl
used_ranges-spans start stop lo ((j, r) ∷ m) c k h u = ground (
  arith,
  used_ranges-spans start stop (j + r.size) m c.2 k.1,
  Chain-le reserved_size (j + r.size) stop m c.2,
)

sort-spans :
    (lo hi : ℕ) (m : OrdMap ReservedGvaInfo)
    → Chain reserved_size lo hi m
    → sort_pairs (spans m) ≡ spans m
unfolding sort_pairs
sort-spans lo hi [] c = refl
sort-spans lo hi ((j, r) ∷ m) c =
    rw (sort-spans (j + r.size) hi m c.2)
      (insert-spans j (j + r.size) (j + r.size) hi m (omega arith) c.2)
  where
    insert-spans :
        (a b lo hi : ℕ) (n : OrdMap ReservedGvaInfo)
        → a < lo
        → Chain reserved_size lo hi n
        → insert_pair (a, b) (spans n) ≡ (a, b) ∷ spans n
    insert-spans a b lo hi [] h c = refl
    insert-spans a b lo hi ((i, q) ∷ n) h c = ground arith

Clear-below :
    (a size lo hi : ℕ) (m : OrdMap ReservedGvaInfo)
    → Chain reserved_size lo hi m
    → a + size ≤ lo
    → Clear reserved_size a size m
Clear-below a size lo hi [] c h = tt
Clear-below a size lo hi ((j, r) ∷ m) c h =
    (inr (omega arith), Clear-below a size (j + r.size) hi m c.2 (omega arith))

first_gap-Clear :
    (size lo hi a : ℕ) (m : OrdMap ReservedGvaInfo)
    → Chain reserved_size lo hi m
    → hi < u64_mod
    → first_gap size hi lo (spans m) ≡ some a
    → (lo ≤ a) × (a + size ≤ hi) × Clear reserved_size a size m
unfolding first_gap
first_gap-Clear size lo hi a [] c u e = ground arith
first_gap-Clear size lo hi a ((j, r) ∷ m) c u e =
    elim (Bool-cases (ltb lo j && leb size (j - lo))) [
      | inl q ↦
          let here : lo ≡ a = some-injective lo a (rw q at e) in
          let tail : (j + r.size ≤ hi) = Chain-le reserved_size (j + r.size) hi m c.2 in
          let clear : Clear reserved_size lo size ((j, r) ∷ m) =
            (inr (ground arith), Clear-below lo size (j + r.size) hi m c.2 (ground arith)) in
          subst (λ x. (lo ≤ x) × (x + size ≤ hi) × Clear reserved_size x size ((j, r) ∷ m)) here
            (omega arith, ground arith, clear)
      | inr q ↦
          let next : (if ltb lo (j + r.size) then j + r.size else lo) ≡ j + r.size = ground arith in
          let (l, h, k) = first_gap-Clear size (j + r.size) hi a m c.2 u (rw (q, next) at e) in
          (omega arith, h, (inl l, k))
    ]

first_gap-lowest :
    (size lo hi x : ℕ) (m : OrdMap ReservedGvaInfo)
    → Chain reserved_size lo hi m
    → hi < u64_mod
    → 0 < size
    → lo ≤ x
    → x + size ≤ hi
    → Clear reserved_size x size m
    → (a : ℕ) × (first_gap size hi lo (spans m) ≡ some a) × (a ≤ x)
unfolding first_gap
first_gap-lowest size lo hi x [] c u p l h k = (lo, ground arith, l)
first_gap-lowest size lo hi x ((j, r) ∷ m) c u p l h k =
    elim (Bool-cases (ltb lo j && leb size (j - lo))) [
      | inl q ↦ (lo, rw q, l)
      | inr q ↦
          let next : (if ltb lo (j + r.size) then j + r.size else lo) ≡ j + r.size = ground arith in
          rw (q, next)
            (first_gap-lowest size (j + r.size) hi x m c.2 u p (ground (arith, k.0)) h k.1)
    ]

or_start_empty :
    (size start stop : ℕ)
    → stop < u64_mod
    → start + size ≤ stop
    → or_start size start stop [] ≡ first_gap size stop start []
unfolding first_gap
or_start_empty size start stop u h = ground arith

-- FindFreeSpace over a chain of reserved ranges that fills part of [start, stop).
module _ (start stop size : ℕ) (m : OrdMap ReservedGvaInfo) (c : Chain reserved_size start stop m)
    (keyed : All (λ k r. r.start ≡ k) m) (small : stop < u64_mod) where
  filled : used_ranges start stop m ≡ spans m
  filled = used_ranges-spans start stop start m c keyed (omega arith) small

  or_start-gap :
      start + size ≤ stop
      → or_start size start stop (used_ranges start stop m) ≡ first_gap size stop start (spans m)
  or_start-gap h = rw filled (sorted m c)
    where
      sorted :
          (n : OrdMap ReservedGvaInfo)
          → Chain reserved_size start stop n
          → or_start size start stop (spans n) ≡ first_gap size stop start (spans n)
      sorted [] d = or_start_empty size start stop small h
      sorted ((j, r) ∷ n) d = rw (sort-spans start stop ((j, r) ∷ n) d)

  pub find_free_space-Clear :
      (a : ℕ)
      → find_free_space start stop size m ≡ some a
      → (start ≤ a) × (a + size ≤ stop) × Clear reserved_size a size m
  unfolding find_free_space
  find_free_space-Clear a e =
      elim (Bool-cases (size == 0 || leb stop start || ltb (stop - start) size)) [
        | inl q ↦ absurd (some-ne-none a (sym (rw q at e)))
        | inr q ↦
            first_gap-Clear size start stop a m c small
              (sym (or_start-gap (ground arith)) ∙ (rw q at e))
      ]

  pub find_free_space-lowest :
      (x : ℕ)
      → 0 < size
      → start ≤ x
      → x + size ≤ stop
      → Clear reserved_size x size m
      → (a : ℕ) × (find_free_space start stop size m ≡ some a) × (a ≤ x)
  unfolding find_free_space
  find_free_space-lowest x p l h k =
      let guard : (size == 0 || leb stop start || ltb (stop - start) size) ≡ false = ground arith in
      let (a, e, low) = first_gap-lowest size start stop x m c small p l h k in
      (a, rw guard (or_start-gap (omega arith) ∙ e), low)
