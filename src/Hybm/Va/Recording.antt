-- ===== src/Hybm/Va/Recording.antt =====
-- The writes of AddVaInfo: what recording a segment that meets no other does to the maps.
use memfabric_hybrid.Base.{
  ℕ, ◌+◌, ◌≤◌, ◌<◌, ◌≡◌, refl, ◌⊎◌, inl, inr, false, List, [], ◌∷◌, ◌++◌, none, some, arith, In,
  In-append, In-append_left, In-append_right, ==_iff, sym, subst, Bool-cases, Option-cases, ◌==◌,
  if◌then◌else◌,
}
use mathlib.Core.Option.{some-injective}
use memfabric_hybrid.Base.OrdMap.{
  find, find-assign, All-find, All-assign, All-of_find, Rising-assign,
}
use memfabric_hybrid.Base.Ranges.{Chain, Chain-assign, Chain-Rising, Chain-bounds}
use memfabric_hybrid.Hybm.Va.Types.{MemType, mem_type_value, AllocatedGvaInfo, VaManager}
use memfabric_hybrid.Hybm.Va.Alloc.{segments, overlaps, first_overlap, record_info}
use memfabric_hybrid.Hybm.Va.Invariant.{info_size, top, IsValid, Apart, mem_type_value-injective}

pub overlaps-Apart :
    (i j : AllocatedGvaInfo)
    → 0 < i.size
    → i.gva + i.size ≤ top
    → 0 < j.size
    → j.gva + j.size ≤ top
    → overlaps i.gva i.size j ≡ false
    → Apart i j
unfolding overlaps
overlaps-Apart i j p a q b e = ground arith

pub first_overlap-none :
    (g s : ℕ) (l : List AllocatedGvaInfo) (j : AllocatedGvaInfo)
    → first_overlap g s l ≡ none
    → In j l
    → overlaps g s j ≡ false
unfolding first_overlap
first_overlap-none g s [] j e h = absurd h
first_overlap-none g s (x ∷ l) j e (inl h) = rw h (ground arith)
first_overlap-none g s (x ∷ l) j e (inr h) = first_overlap-none g s l j (ground arith) h

segments-record_info :
    (t : MemType) (i : AllocatedGvaInfo) (s : VaManager)
    → segments t (record_info i s) ≡ (
        if mem_type_value i.mem_type == mem_type_value t
        then segments i.mem_type s ++ i ∷ []
        else segments t s)
unfolding segments record_info
segments-record_info t i s = ground (
  arith,
  find-assign (mem_type_value i.mem_type) (mem_type_value t) (segments i.mem_type s ++ i ∷ [])
      s.by_mem_type,
)

In-recorded :
    (t : MemType) (i j : AllocatedGvaInfo) (s : VaManager)
    → In j (segments t s)
    → In j (segments t (record_info i s))
In-recorded t i j s h =
    rw (segments-record_info t i s)
      (elim (Bool-cases (mem_type_value i.mem_type == mem_type_value t)) [
        | inl e ↦ rw e (
            In-append_left j (segments i.mem_type s) (i ∷ []) (
              subst (λ u. In j (segments u s))
                (sym (mem_type_value-injective i.mem_type t ((==_iff _ _).0 e))) h))
        | inr e ↦ rw e h
      ])

In-recorded_self :
    (i : AllocatedGvaInfo) (s : VaManager) → In i (segments i.mem_type (record_info i s))
In-recorded_self i s =
    rw
      (
        segments-record_info i.mem_type i s,
        (==_iff (mem_type_value i.mem_type) (mem_type_value i.mem_type)).1 refl,
      )
      (In-append_right i (segments i.mem_type s) (i ∷ []) (inl refl))

In-of_recorded :
    (t : MemType) (i j : AllocatedGvaInfo) (s : VaManager)
    → In j (segments t (record_info i s))
    → In j (segments t s) ⊎ ((j ≡ i) × (i.mem_type ≡ t))
In-of_recorded t i j s h = elim (Bool-cases (mem_type_value i.mem_type == mem_type_value t)) [
  | inl e ↦
      elim (In-append j (segments i.mem_type s) (i ∷ [])
        (rw (segments-record_info t i s, e) at h)) [
          | inl old ↦ inl (
              subst (λ u. In j (segments u s))
                (mem_type_value-injective i.mem_type t ((==_iff _ _).0 e)) old)
          | inr (inl new) ↦ inr (new, mem_type_value-injective i.mem_type t ((==_iff _ _).0 e))
          | inr (inr none_left) ↦ absurd none_left
        ]
  | inr e ↦ inl (rw (segments-record_info t i s, e) at h)
]

module _ (s : VaManager) (v : IsValid s) (i : AllocatedGvaInfo) (positive : 0 < i.gva)
    (sized : 0 < i.size) (fits : i.gva + i.size ≤ top)
    (clear : (g : ℕ) (j : AllocatedGvaInfo) → find g s.by_gva ≡ some j → Apart i j) where
  fresh : find i.gva s.by_gva ≡ none
  fresh = elim (Option-cases (find i.gva s.by_gva)) [
    | inl e ↦ e
    | inr (j, e) ↦ absurd (
        omega (
          arith,
          clear i.gva j e,
          All-find _ i.gva j s.by_gva v.keyed e,
          Chain-bounds info_size 1 top i.gva j s.by_gva v.chain e,
        ))
  ]

  kept :
      (j : AllocatedGvaInfo)
      → find j.gva s.by_gva ≡ some j
      → find j.gva (record_info i s).by_gva ≡ some j
  unfolding record_info
  kept j e = rw (find-assign i.gva j.gva i s.by_gva) (ground (arith, fresh))

  Chain-kept : Chain info_size 1 top (record_info i s).by_gva
  unfolding record_info
  Chain-kept = Chain-assign info_size 1 top i.gva i s.by_gva v.chain positive fits sized (
      All-of_find _ s.by_gva (Chain-Rising info_size 1 top s.by_gva v.chain)
        (λ g j e. ground (arith, clear g j e, All-find _ g j s.by_gva v.keyed e)))

  filed_kept :
      (g : ℕ) (j : AllocatedGvaInfo)
      → find g (record_info i s).by_gva ≡ some j
      → In j (segments j.mem_type (record_info i s))
  unfolding record_info
  filed_kept g j e = elim (Bool-cases (i.gva == g)) [
    | inl here ↦
        let same : i ≡ j = some-injective i j (rw (find-assign i.gva g i s.by_gva, here) at e) in
        subst (λ k. In k (segments k.mem_type (record_info i s))) same (In-recorded_self i s)
    | inr there ↦
        In-recorded j.mem_type i j s (v.filed g j (rw (find-assign i.gva g i s.by_gva, there) at e))
  ]

  live_kept :
      (t : MemType) (j : AllocatedGvaInfo)
      → In j (segments t (record_info i s))
      → (find j.gva (record_info i s).by_gva ≡ some j) × (j.mem_type ≡ t)
  unfolding record_info
  live_kept t j h = elim (In-of_recorded t i j s h) [
    | inl old ↦ (kept j (v.live t j old).0, (v.live t j old).1)
    | inr (same, typed) ↦ rw same (rw (find-assign i.gva i.gva i s.by_gva) (ground arith), typed)
  ]

  lva_live_kept :
      (l : ℕ) (j : AllocatedGvaInfo)
      → find l (record_info i s).by_lva ≡ some j
      → find j.gva (record_info i s).by_gva ≡ some j
  unfolding record_info
  lva_live_kept l j e = elim (Bool-cases (i.lva == l)) [
    | inl here ↦
        let same : i ≡ j = some-injective i j (rw (find-assign i.lva l i s.by_lva, here) at e) in
        rw (← same) (rw (find-assign i.gva i.gva i s.by_gva) (ground arith))
    | inr there ↦ kept j (v.lva_live l j (rw (find-assign i.lva l i s.by_lva, there) at e))
  ]

  pub record_info-IsValid : IsValid (record_info i s)
  unfolding record_info
  record_info-IsValid = record {
    chain = Chain-kept;
    keyed = All-assign _ i.gva i s.by_gva refl v.keyed;
    filed = filed_kept;
    live = live_kept;
    types_rising =
        Rising-assign (mem_type_value i.mem_type) (segments i.mem_type s ++ i ∷ []) s.by_mem_type
          v.types_rising;
    lva_rising = Rising-assign i.lva i s.by_lva v.lva_rising;
    lva_keyed = All-assign _ i.lva i s.by_lva refl v.lva_keyed;
    lva_live = lva_live_kept;
  }
