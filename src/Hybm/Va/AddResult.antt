-- ===== src/Hybm/Va/AddResult.antt =====
-- AddVaInfo: what it returns and writes in each of its cases, and when.
use memfabric_hybrid.Base.{
  ℕ, ◌+◌, ◌≤◌, ◌<◌, ◌≡◌, ◌≢◌, ◌⊎◌, inl, inr, true, false, List, [], ◌∷◌, some, arith, In, sym,
  subst, Bool-cases, Option-cases, ◌==◌,
}
use mathlib.Core.Option.{some-injective, some-ne-none}
use memfabric_hybrid.Base.OrdMap.{find}
use memfabric_hybrid.Base.Ranges.{Chain-bounds}
use memfabric_hybrid.Hybm.Va.Types.{
  MemType, AllocatedGvaInfo, VaManager, empty_info, same_info, Code, bm_ok, bm_error,
}
use memfabric_hybrid.Hybm.Va.Alloc.{
  segments, overlaps, first_overlap, record_info, check_overlap, is_butt, add_checked, add_va_info,
}
use memfabric_hybrid.Hybm.Va.Invariant.{info_size, top, IsValid, Apart}
use memfabric_hybrid.Hybm.Va.Adding.{clear_of_check}

first_overlap-some :
    (i : AllocatedGvaInfo) (l : List AllocatedGvaInfo) (j : AllocatedGvaInfo)
    → first_overlap i.gva i.size l ≡ some j
    → In j l × (overlaps i.gva i.size j ≡ true)
unfolding first_overlap
first_overlap-some i [] j e = absurd (some-ne-none j (sym e))
first_overlap-some i (x ∷ l) j e = elim (Bool-cases (overlaps i.gva i.size x)) [
  | inl q ↦
      let same : x ≡ j = some-injective x j (rw q at e) in
      (inl (sym same), subst (λ y. overlaps i.gva i.size y ≡ true) same q)
  | inr q ↦ let (h, o) = first_overlap-some i l j (rw q at e) in (inr h, o)
]

overlaps-not_Apart :
    (i j : AllocatedGvaInfo)
    → 0 < i.size
    → 0 < j.size
    → i.gva + i.size ≤ top
    → j.gva + j.size ≤ top
    → overlaps i.gva i.size j ≡ true
    → ¬ Apart i j
unfolding overlaps
overlaps-not_Apart i j p q a b e h = ground arith

-- The segment is there already, under its address, size and rank.
abbrev pub Present : AllocatedGvaInfo → VaManager → Type 0
Present i s = (j : AllocatedGvaInfo) × (find j.gva s.by_gva ≡ some j) × (same_info j i ≡ true)

-- Another segment of the same type is in the way.
abbrev pub Blocked : AllocatedGvaInfo → VaManager → Type 0
Blocked i s =
    (j : AllocatedGvaInfo) × (find j.gva s.by_gva ≡ some j)
    × (j.mem_type ≡ i.mem_type)
    × (¬ Apart i j)
    × (same_info j i ≡ false)

-- What a call of AddVaInfo does, and when.
abbrev pub AddOutcome : AllocatedGvaInfo → VaManager → Type 0
AddOutcome i s =
    ((add_va_info i s ≡ (bm_ok, record_info i s))
      × ((g : ℕ) (j : AllocatedGvaInfo) → find g s.by_gva ≡ some j → Apart i j))
    ⊎ (((add_va_info i s ≡ (bm_ok, s)) × Present i s)
        ⊎ ((add_va_info i s ≡ (bm_error, s)) × Blocked i s))

not_butt : (t : MemType) → t ≢ MemType.butt → is_butt t ≡ false
not_butt t h = ground arith

module _ (s : VaManager) (i : AllocatedGvaInfo) (v : IsValid s) (positive : 0 < i.gva)
    (sized : 0 < i.size) (fits : i.gva + i.size ≤ top) (typed : i.mem_type ≢ MemType.butt)
    (other : (g : ℕ) (j : AllocatedGvaInfo)
      → find g s.by_gva ≡ some j
      → j.mem_type ≢ i.mem_type
      → Apart i j) where
  guards :
      (r : Code × VaManager)
      → add_checked i (check_overlap i.gva i.size i.mem_type s) s ≡ r
      → add_va_info i s ≡ r
  unfolding add_va_info
  guards r e =
      let a : (i.gva == 0) ≡ false = ground arith in
      let p : (i.size == 0) ≡ false = ground arith in
      let b : is_butt i.mem_type ≡ false = not_butt i.mem_type typed in rw (a, p, b) e

  conflict :
      (j : AllocatedGvaInfo)
      → check_overlap i.gva i.size i.mem_type s ≡ some j
      → (find j.gva s.by_gva ≡ some j) × (j.mem_type ≡ i.mem_type) × (¬ Apart i j)
  unfolding check_overlap
  conflict j e =
      let (listed, hit) = first_overlap-some i (segments i.mem_type s) j e in
      let (found, same) = v.live i.mem_type j listed in
      let b : (1 ≤ j.gva) × (0 < j.size) × (j.gva + j.size ≤ top) =
        Chain-bounds info_size 1 top j.gva j s.by_gva v.chain found in
      (found, same, overlaps-not_Apart i j sized b.1 fits b.2 hit)

  -- In a valid manager, AddVaInfo of a segment with a non-zero address and size and a type other
  -- than the end mark, which ends in the address space and meets no segment of another type: it
  -- records the segment and succeeds, and none is in the way; or it succeeds without a change, and
  -- the same segment is recorded; or it fails without a change, and another segment of its type is
  -- in the way.
  pub add_va_info_outcome : AddOutcome i s
  unfolding add_checked
  add_va_info_outcome = elim (Option-cases (check_overlap i.gva i.size i.mem_type s)) [
    | inl c ↦
        let new : same_info empty_info i ≡ false = unfold same_info in ground arith in
        inl (
          guards (bm_ok, record_info i s) (rw (c, add_checked) (rw new)),
          clear_of_check s i v sized fits other c,
        )
    | inr (j, c) ↦
        let (found, same, meets) = conflict j c in
        elim (Bool-cases (same_info j i)) [
          | inl q ↦ inr (inl (guards (bm_ok, s) (rw (c, add_checked) (rw q)), (j, found, q)))
          | inr q ↦
              inr (
                inr (guards (bm_error, s) (rw (c, add_checked) (rw q)), (j, found, same, meets, q)))
        ]
  ]
