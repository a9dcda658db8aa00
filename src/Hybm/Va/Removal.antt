-- ===== src/Hybm/Va/Removal.antt =====
-- RemoveOneVaInfo keeps the maps valid, and removes exactly the segment that it is given.
use memfabric_hybrid.Base.{
  ℕ, ◌+◌, ◌≤◌, ◌<◌, ◌≡◌, inl, inr, true, false, none, some, arith, In, sym, ap, subst, ==_iff,
  Bool-cases, Option-cases, ◌==◌, if◌then◌else◌, ◌∙◌,
}
use mathlib.Core.Bool.{false≢true}
use mathlib.Core.Option.{some-injective}
use mathlib.Core.List.{filter_map}
use memfabric_hybrid.Base.OrdMap.{
  find, All, Rising, find-erase-Rising, All-find, All-erase, Rising-erase,
}
use memfabric_hybrid.Base.Ranges.{Chain-erase, Chain-Rising, Chain-bounds}
use memfabric_hybrid.Hybm.Va.Types.{MemType, mem_type_value, AllocatedGvaInfo, VaManager}
use memfabric_hybrid.Hybm.Va.Alloc.{
  segments, without_gva, unfile, unlink_lva, drop_found, remove_at, remove_one_va_info, is_gva,
}
use memfabric_hybrid.Hybm.Va.Lookup.{Covers, lookups_of_Covers}
use memfabric_hybrid.Hybm.Va.Invariant.{info_size, top, IsValid, mem_type_value-injective}
use memfabric_hybrid.Hybm.Va.Dropping.{
  In-without, In-of_without, vector_at-unfile, Rising-unfile, unlink_cases, find_of_unlink,
  unless_at, entry_unless_at, without_gva-filter_map, filter_map_all, find-unlink_none,
  find-unlink_other, find-unlink_own,
}

module _ (s : VaManager) (v : IsValid s) (i : AllocatedGvaInfo)
    (found : find i.gva s.by_gva ≡ some i) where
  unfoldable pub gone : VaManager
  unfolding unlink_lva unfile
  gone = drop_found i.gva (some i) s

  pub find-gone : (g : ℕ) → find g gone.by_gva ≡ (if i.gva == g then none else find g s.by_gva)
  unfolding gone
  find-gone g = find-erase-Rising i.gva g s.by_gva (Chain-Rising info_size 1 top s.by_gva v.chain)

  segments-gone :
      (t : MemType)
      → segments t gone ≡ (
          if mem_type_value i.mem_type == mem_type_value t
          then without_gva i.gva (segments i.mem_type s)
          else segments t s)
  unfolding gone segments
  segments-gone t =
      vector_at-unfile i.gva (mem_type_value i.mem_type) (mem_type_value t) s.by_mem_type
        v.types_rising

  filed_kept :
      (g : ℕ) (j : AllocatedGvaInfo) → find g gone.by_gva ≡ some j → In j (segments j.mem_type gone)
  filed_kept g j e = elim (Bool-cases (i.gva == g)) [
    | inl q ↦ absurd (cc (rw (find-gone g, q) at e))
    | inr q ↦
        let old : find g s.by_gva ≡ some j = rw (find-gone g, q) at e in
        let key : j.gva ≡ g = All-find _ g j s.by_gva v.keyed old in
        rw (segments-gone j.mem_type)
          (elim (Bool-cases (mem_type_value i.mem_type == mem_type_value j.mem_type)) [
            | inl same ↦ rw same (
                In-without i.gva j (segments i.mem_type s)
                  (subst (λ t. In j (segments t s))
                    (sym (mem_type_value-injective i.mem_type j.mem_type ((==_iff _ _).0 same)))
                    (v.filed g j old))
                  (λ z. ground arith))
            | inr differs ↦ rw differs (v.filed g j old)
          ])
  ]

  live_kept :
      (t : MemType) (j : AllocatedGvaInfo)
      → In j (segments t gone)
      → (find j.gva gone.by_gva ≡ some j) × (j.mem_type ≡ t)
  live_kept t j h = elim (Bool-cases (mem_type_value i.mem_type == mem_type_value t)) [
    | inl q ↦
        let (old, differs) =
          In-of_without i.gva j (segments i.mem_type s) (rw (segments-gone t, q) at h) in
        let (at_key, typed) = v.live i.mem_type j old in
        (
          rw (find-gone j.gva) (ground arith),
          typed ∙ mem_type_value-injective i.mem_type t ((==_iff _ _).0 q),
        )
    | inr q ↦
        let (at_key, typed) = v.live t j (rw (segments-gone t, q) at h) in
        (rw (find-gone j.gva) (ground arith), typed)
  ]

  lva_live_kept :
      (l : ℕ) (j : AllocatedGvaInfo) → find l gone.by_lva ≡ some j → find j.gva gone.by_gva ≡ some j
  unfolding gone
  lva_live_kept l j e =
      let (old, differs) = find_of_unlink i.gva i.lva l j s.by_lva v.lva_rising e in
      let alive : find j.gva s.by_gva ≡ some j = v.lva_live l j old in
      let key : j.lva ≡ l = All-find _ l j s.by_lva v.lva_keyed old in
      elim (Bool-cases (i.gva == j.gva)) [
        | inl q ↦
            let eq : i.gva ≡ j.gva = (==_iff _ _).0 q in
            let same : i ≡ j =
              some-injective i j (sym found ∙ ap (λ g. find g s.by_gva) eq ∙ alive) in
            absurd (differs (ap (λ (k : AllocatedGvaInfo). k.lva) same ∙ key) (sym eq))
        | inr q ↦ rw (find-gone j.gva, q) alive
      ]

  pub gone-IsValid : IsValid gone
  unfolding gone unfile unlink_lva
  gone-IsValid = record {
    chain = Chain-erase info_size 1 top i.gva s.by_gva v.chain;
    keyed = All-erase _ i.gva s.by_gva v.keyed;
    filed = filed_kept;
    live = live_kept;
    types_rising = Rising-unfile i.gva (mem_type_value i.mem_type) s.by_mem_type v.types_rising;
    lva_rising =
        unlink_cases Rising i.gva i.lva s.by_lva v.lva_rising
          (Rising-erase i.lva s.by_lva v.lva_rising);
    lva_keyed =
        unlink_cases (All (λ l j. j.lva ≡ l)) i.gva i.lva s.by_lva v.lva_keyed
          (All-erase _ i.lva s.by_lva v.lva_keyed);
    lva_live = lva_live_kept;
  }

  -- By local address, the segment alone is gone.
  find-gone_lva : (l : ℕ) → find l gone.by_lva ≡ entry_unless_at i.gva (find l s.by_lva)
  unfolding gone unlink_lva
  find-gone_lva l = elim (Option-cases (find l s.by_lva)) [
    | inl e ↦ rw e (find-unlink_none i.gva i.lva l s.by_lva v.lva_rising e)
    | inr (j, e) ↦ elim (Bool-cases (j.gva == i.gva)) [
      | inr q ↦ rw e (rw q (find-unlink_other i.gva i.lva l j s.by_lva v.lva_rising e q))
      | inl q ↦
          let eq : j.gva ≡ i.gva = (==_iff _ _).0 q in
          let same : i ≡ j =
            some-injective i j
              (sym found ∙ ap (λ g. find g s.by_gva) (sym eq) ∙ v.lva_live l j e) in
          let key : i.lva ≡ l =
            ap (λ (k : AllocatedGvaInfo). k.lva) same ∙ All-find _ l j s.by_lva v.lva_keyed e in
          rw e (rw q (rw key (find-unlink_own i.gva l j s.by_lva v.lva_rising e q)))
    ]
  ]

  segments_dropped : (t : MemType) → segments t gone ≡ filter_map (unless_at i.gva) (segments t s)
  segments_dropped t = elim (Bool-cases (mem_type_value i.mem_type == mem_type_value t)) [
    | inl q ↦
        let same : i.mem_type ≡ t = mem_type_value-injective i.mem_type t ((==_iff _ _).0 q) in
        segments-gone t
        ∙ (rw q (
            without_gva-filter_map i.gva (segments i.mem_type s)
            ∙ ap (λ u. filter_map (unless_at i.gva) (segments u s)) same))
    | inr q ↦
        let others : (j : AllocatedGvaInfo) → In j (segments t s) → (j.gva == i.gva) ≡ false =
          λ j c. elim (Bool-cases (j.gva == i.gva)) [
            | inr h ↦ h
            | inl h ↦
                let (at_key, typed) = v.live t j c in
                let same : i ≡ j =
                  some-injective i j
                    (sym found ∙ ap (λ g. find g s.by_gva) (sym ((==_iff _ _).0 h)) ∙ at_key) in
                let type : i.mem_type ≡ t =
                  ap (λ (k : AllocatedGvaInfo). k.mem_type) same ∙ typed in
                absurd (false≢true (sym q ∙ (==_iff _ _).1 (ap mem_type_value type)))
          ] in
        segments-gone t ∙ (rw q (sym (filter_map_all i.gva (segments t s) others)))
  ]

-- In a valid manager, RemoveOneVaInfo at the first address of a recorded segment has a defined
-- result, which is valid, where that segment is gone from all three maps and nothing else is: by global
-- address every other entry is as before; by local address, the entries of other segments are as
-- before, and those of this one are gone; and each type's list is the old one without this segment.
pub remove_one_va_info_forgets :
    (s : VaManager) (i : AllocatedGvaInfo)
    → IsValid s
    → find i.gva s.by_gva ≡ some i
    → (t : VaManager) × (remove_one_va_info i.gva s ≡ some t)
      × IsValid t
      × ((g : ℕ) → find g t.by_gva ≡ (if i.gva == g then none else find g s.by_gva))
      × ((l : ℕ) → find l t.by_lva ≡ entry_unless_at i.gva (find l s.by_lva))
      × ((u : MemType) → segments u t ≡ filter_map (unless_at i.gva) (segments u s))
unfolding remove_one_va_info remove_at gone
remove_one_va_info_forgets s i v e =
    let b : (1 ≤ i.gva) × (0 < i.size) × (i.gva + i.size ≤ top) =
      Chain-bounds info_size 1 top i.gva i s.by_gva v.chain e in
    let nonzero : (i.gva == 0) ≡ false = ground (arith, b) in
    let c : Covers s i i.gva = record { found = e; from = omega arith; to = omega arith } in
    let global : is_gva i.gva s ≡ some true = (lookups_of_Covers s v i.gva i c).0 in
    (
      gone s v i e,
      rw (global, remove_one_va_info) (rw nonzero (rw (e, drop_found))),
      gone-IsValid s v i e,
      find-gone s v i e,
      find-gone_lva s v i e,
      segments_dropped s v i e,
    )
