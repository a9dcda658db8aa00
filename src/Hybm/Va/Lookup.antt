-- ===== src/Hybm/Va/Lookup.antt =====
-- The methods that look an address up, in a valid manager.
use memfabric_hybrid.Base.{
  ℕ, ◌+◌, ◌-◌, ◌≤◌, ◌<◌, ◌≡◌, refl, ◌≢◌, ◌↔◌, inl, inr, Bool, true, false, [], ◌∷◌, Option, none,
  some, arith, sym, ap, subst, ==_iff, u64_mod, Bool-cases, ◌==◌, if◌then◌else◌, ◌∙◌, add64, sub64,
}
use mathlib.Core.Option.{some-injective, some-ne-none}
use mathlib.Core.Bool.{false≢true}
use memfabric_hybrid.Base.OrdMap.{OrdMap, find, floor, cursor, All-find, floor-find}
use memfabric_hybrid.Base.Ranges.{Chain-bounds, floor_covering, cursor-find, cursor_covering}
use memfabric_hybrid.Hybm.Va.Types.{
  AllocatedGvaInfo, VaManager, empty_info, contains, contains_by_lva, rank_id,
}
use memfabric_hybrid.Hybm.Va.Alloc.{
  is_gva, get_gva_by_lva, get_lva_by_gva, find_alloc_by_gva, get_rank, is_valid_addr, translate_gva,
  read_cursor,
}
use memfabric_hybrid.Hybm.Va.Invariant.{info_size, top, IsValid}

-- `a` lies in a segment of the manager that is `i`.
pub record Covers (s : VaManager) (i : AllocatedGvaInfo) (a : ℕ) : Type 0 where
  pub found : find i.gva s.by_gva ≡ some i
  pub from : i.gva ≤ a
  pub to : a < i.gva + i.size

contains-bounds :
    (i : AllocatedGvaInfo) (a : ℕ)
    → i.gva + i.size ≤ top
    → (contains i a ≡ true) ↔ ((i.gva ≤ a) × (a < i.gva + i.size))
unfolding contains
contains-bounds i a f = (λ h. (ground arith, ground arith), λ h. ground arith)

module _ (s : VaManager) (v : IsValid s) where
  pub bounds :
      (g : ℕ) (i : AllocatedGvaInfo)
      → find g s.by_gva ≡ some i
      → (i.gva ≡ g) × (0 < i.gva) × (i.gva + i.size ≤ top)
  bounds g i e =
      let b : (1 ≤ g) × (0 < i.size) × (g + i.size ≤ top) =
        Chain-bounds info_size 1 top g i s.by_gva v.chain e in
      let key : i.gva ≡ g = All-find _ g i s.by_gva v.keyed e in (key, omega arith, omega arith)

  pub cursor_of_Covers :
      (i : AllocatedGvaInfo) (a : ℕ) → Covers s i a → cursor a s.by_gva ≡ some (i.gva, i)
  cursor_of_Covers i a c =
      cursor_covering info_size 1 top a i.gva i s.by_gva v.chain c.found c.from c.to

  pub contains_of_Covers : (i : AllocatedGvaInfo) (a : ℕ) → Covers s i a → contains i a ≡ true
  contains_of_Covers i a c = (contains-bounds i a (bounds i.gva i c.found).2).1 (c.from, c.to)

  Covers-of_cursor :
      (k : ℕ) (i : AllocatedGvaInfo) (a : ℕ)
      → cursor a s.by_gva ≡ some (k, i)
      → contains i a ≡ true
      → Covers s i a
  Covers-of_cursor k i a e h =
      let here : find k s.by_gva ≡ some i = cursor-find info_size 1 top a k i s.by_gva v.chain e in
      let (key, pos, fits) = bounds k i here in
      let (l, u) = (contains-bounds i a fits).0 h in
      record { found = subst (λ x. find x s.by_gva ≡ some i) (sym key) here; from = l; to = u }

  Covers-of_read :
      (a : ℕ) (i : AllocatedGvaInfo) (o : Option (ℕ × AllocatedGvaInfo))
      → cursor a s.by_gva ≡ o
      → read_cursor {B = AllocatedGvaInfo × Bool} o
          (λ j. if contains j a then (j, true) else (empty_info, false))
        ≡ some (i, true)
      → Covers s i a
  Covers-of_read a i none e h = absurd (some-ne-none (i, true) (sym h))
  Covers-of_read a i (some (k, j)) e h = elim (Bool-cases (contains j a)) [
    | inl q ↦
        let same : j ≡ i =
          ap (λ (p : AllocatedGvaInfo × Bool). p.0)
            (some-injective (j, true) (i, true) (rw q at h)) in
        subst (λ x. Covers s x a) same (Covers-of_cursor k j a e q)
    | inr q ↦ absurd (
        false≢true (
          ap (λ (p : AllocatedGvaInfo × Bool). p.1)
            (some-injective (empty_info, false) (i, true) (rw q at h))))
  ]

  -- In a valid manager, FindAllocByGva returns a segment with `true` exactly when the segment
  -- covers the address.
  pub find_alloc_by_gva-Covers :
      (a : ℕ) (i : AllocatedGvaInfo) → (find_alloc_by_gva a s ≡ some (i, true)) ↔ Covers s i a
  unfolding find_alloc_by_gva
  find_alloc_by_gva-Covers a i = (
    λ h. Covers-of_read a i (cursor a s.by_gva) refl h,
    λ c. rw (cursor_of_Covers i a c, contains_of_Covers i a c),
  )

  -- In a valid manager, for an address that a segment covers: IsGva and IsValidAddr are true,
  -- GetRank is the rank of the segment, and GetLvaByGva is the local address at the same offset.
  pub lookups_of_Covers :
      (a : ℕ) (i : AllocatedGvaInfo)
      → Covers s i a
      → (is_gva a s ≡ some true)
        × (get_rank a s ≡ some (rank_id i, true))
        × (get_lva_by_gva a s ≡ add64 i.lva (a - i.gva))
        × (is_valid_addr a s ≡ some true)
  unfolding is_gva get_rank get_lva_by_gva is_valid_addr
  lookups_of_Covers a i c =
      let pos : 0 < i.gva = (bounds i.gva i c.found).1 in
      let nonzero : (a == 0) ≡ false = ground (arith, c.from) in
      let at : cursor a s.by_gva ≡ some (i.gva, i) = cursor_of_Covers i a c in
      let low : floor a s.by_gva ≡ some (i.gva, i) =
        floor_covering info_size 1 top a i.gva i s.by_gva v.chain c.found c.from c.to in
      let hit : contains i a ≡ true = contains_of_Covers i a c in
      let global : is_gva a s ≡ some true = rw (nonzero, at, hit) in
      (
        global,
        rw (nonzero, at, hit),
        rw (nonzero, low, hit) (ground (arith, bounds i.gva i c.found, c.from, c.to)),
        rw (global, is_valid_addr),
      )

  Covers-of_lva :
      (lva k : ℕ) (j : AllocatedGvaInfo)
      → floor lva s.by_lva ≡ some (k, j)
      → contains_by_lva j lva ≡ true
      → Covers s j (j.gva + (lva - j.lva))
        × (j.lva ≤ lva)
        × (add64 j.gva (sub64 lva j.lva) ≡ j.gva + (lva - j.lva))
  unfolding contains_by_lva
  Covers-of_lva lva k j e h =
      let here : find j.gva s.by_gva ≡ some j =
        v.lva_live k j (floor-find lva k j s.by_lva v.lva_rising e) in
      let b : (j.gva ≡ j.gva) × (0 < j.gva) × (j.gva + j.size ≤ top) = bounds j.gva j here in
      (
        record { found = here; from = omega arith; to = ground (arith, h, b) },
        ground arith,
        ground (arith, h, b),
      )

  back :
      (lva g : ℕ) (o : Option (ℕ × AllocatedGvaInfo))
      → lva < u64_mod
      → floor lva s.by_lva ≡ o
      → translate_gva lva o ≡ g
      → g ≢ 0
      → get_lva_by_gva g s ≡ lva
  back lva g none small e t nonzero = absurd (nonzero (sym t))
  back lva g (some (k, j)) small e t nonzero = elim (Bool-cases (contains_by_lva j lva)) [
    | inr q ↦ absurd (nonzero (sym (rw q at t)))
    | inl q ↦
        let (c, low, sum) = Covers-of_lva lva k j e q in
        let same : g ≡ j.gva + (lva - j.lva) = sym (rw q at t) ∙ sum in
        rw same ((lookups_of_Covers (j.gva + (lva - j.lva)) j c).2 ∙ omega arith)
  ]

  -- In a valid manager, a 64-bit local address that GetGvaByLva translates to a non-zero global
  -- one is what GetLvaByGva translates that one back to.
  pub get_lva_by_gva-get_gva_by_lva :
      (lva g : ℕ) → lva < u64_mod → get_gva_by_lva lva s ≡ g → g ≢ 0 → get_lva_by_gva g s ≡ lva
  unfolding get_gva_by_lva
  get_lva_by_gva-get_gva_by_lva lva g small e nonzero = elim (Bool-cases (lva == 0)) [
    | inl q ↦ absurd (nonzero (sym (rw q at e)))
    | inr q ↦ back lva g (floor lva s.by_lva) small refl (rw q at e) nonzero
  ]

is_gva_at :
    (a : ℕ) (m : OrdMap AllocatedGvaInfo)
    → (read_cursor (cursor a m) (λ i. contains i a) ≡ none) ↔ (m ≡ [])
unfolding cursor floor
is_gva_at a [] = (λ e. refl, λ e. refl)
is_gva_at a ((k, i) ∷ m) = (λ e. ground arith, λ e. ground arith)

-- IsGva has no defined result exactly for a non-zero address while no segment is allocated: it then
-- reads through the end of the map.
pub is_gva_undefined : (a : ℕ) (s : VaManager) → (is_gva a s ≡ none) ↔ ((0 < a) × (s.by_gva ≡ []))
unfolding is_gva
is_gva_undefined a s = elim (Bool-cases (a == 0)) [
  | inl q ↦ rw q (λ e. absurd (some-ne-none false e), λ h. absurd (omega (arith, (==_iff a 0).0 q)))
  | inr q ↦
      rw q (λ e. (ground arith, (is_gva_at a s.by_gva).0 e), λ h. (is_gva_at a s.by_gva).1 h.1)
]
