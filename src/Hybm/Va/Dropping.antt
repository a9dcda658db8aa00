-- ===== src/Hybm/Va/Dropping.antt =====
-- What RemoveOneVaInfo of src/hybm/csrc/mm/hybm_va_manager.cpp takes out of the map by local address and
-- of the vectors by type.
use memfabric_hybrid.Base.{
  ℕ, ◌≡◌, ◌≢◌, refl, inl, inr, true, false, List, [], ◌∷◌, Option, none, some, arith, In, sym, ap,
  ==_iff, Bool-cases, Option-cases, ◌==◌, if◌then◌else◌, ◌∙◌,
}
use mathlib.Core.Bool.{false≢true}
use mathlib.Core.Option.{some-injective}
use mathlib.Core.List.{filter_map}
use memfabric_hybrid.Base.OrdMap.{
  OrdMap, find, erase, Rising, find-assign, find-erase-Rising, Rising-assign, Rising-erase,
}
use memfabric_hybrid.Hybm.Va.Types.{AllocatedGvaInfo}
use memfabric_hybrid.Hybm.Va.Alloc.{without_gva, refile, unfile, unlink_lva}

pub In-without :
    (g : ℕ) (j : AllocatedGvaInfo) (l : List AllocatedGvaInfo)
    → In j l
    → j.gva ≢ g
    → In j (without_gva g l)
unfolding without_gva
In-without g j [] h n = h
In-without g j (i ∷ l) (inl e) n = ground arith
In-without g j (i ∷ l) (inr h) n = ground (arith, In-without g j l h n)

pub In-of_without :
    (g : ℕ) (j : AllocatedGvaInfo) (l : List AllocatedGvaInfo)
    → In j (without_gva g l)
    → In j l × (j.gva ≢ g)
unfolding without_gva
In-of_without g j [] h = absurd h
In-of_without g j (i ∷ l) h = elim (Bool-cases (i.gva == g)) [
  | inl e ↦ let (a, b) = In-of_without g j l (rw e at h) in (inr a, b)
  | inr e ↦ kept_cases (In-of_without g j l) (rw e at h)
]
  where
    kept_cases :
        (In j (without_gva g l) → In j l × (j.gva ≢ g))
        → In j (i ∷ without_gva g l)
        → In j (i ∷ l) × (j.gva ≢ g)
    kept_cases rec (inl same) = (inl same, λ q. ground arith)
    kept_cases rec (inr later) = let (a, b) = rec later in (inr a, b)

abbrev vector_at : ℕ → OrdMap (List AllocatedGvaInfo) → List AllocatedGvaInfo
vector_at t m = elim (find t m) [ none ↦ [] | some l ↦ l ]

vector_at-refile :
    (t u : ℕ) (l : List AllocatedGvaInfo) (m : OrdMap (List AllocatedGvaInfo))
    → Rising m
    → vector_at u (refile t l m) ≡ (if t == u then l else vector_at u m)
vector_at-refile t u [] m r = ground (arith, find-erase-Rising t u m r)
vector_at-refile t u (i ∷ l) m r = ground (arith, find-assign t u (i ∷ l) m)

pub vector_at-unfile :
    (g t u : ℕ) (m : OrdMap (List AllocatedGvaInfo))
    → Rising m
    → vector_at u (unfile g t m) ≡ (if t == u then without_gva g (vector_at t m) else vector_at u m)
unfolding unfile without_gva
vector_at-unfile g t u m r = elim (Option-cases (find t m)) [
  | inl e ↦ ground (arith, e)
  | inr (l, e) ↦
      let here : vector_at t m ≡ l = ground (arith, e) in
      rw here (rw (e, unfile) (vector_at-refile t u (without_gva g l) m r))
]

Rising-refile :
    (t : ℕ) (l : List AllocatedGvaInfo) (m : OrdMap (List AllocatedGvaInfo))
    → Rising m
    → Rising (refile t l m)
Rising-refile t [] m r = Rising-erase t m r
Rising-refile t (i ∷ l) m r = Rising-assign t (i ∷ l) m r

pub Rising-unfile :
    (g t : ℕ) (m : OrdMap (List AllocatedGvaInfo)) → Rising m → Rising (unfile g t m)
unfolding unfile
Rising-unfile g t m r = elim (Option-cases (find t m)) [
  | inl e ↦ rw (e, unfile) r
  | inr (l, e) ↦ rw (e, unfile) (Rising-refile t (without_gva g l) m r)
]

-- What holds of the map and of the map without the entry holds of either outcome.
pub unlink_cases :
    (P : OrdMap AllocatedGvaInfo → Type 0) (g l : ℕ) (m : OrdMap AllocatedGvaInfo)
    → P m
    → P (erase l m)
    → P (unlink_lva g l m)
unfolding unlink_lva
unlink_cases P g l m h k = elim (Option-cases (find l m)) [
  | inl e ↦ rw (e, unlink_lva) h
  | inr (j, e) ↦ elim (Bool-cases (j.gva == g)) [
    | inl q ↦ rw (e, unlink_lva) (rw q k)
    | inr q ↦ rw (e, unlink_lva) (rw q h)
  ]
]

pub find_of_unlink :
    (g l k : ℕ) (j : AllocatedGvaInfo) (m : OrdMap AllocatedGvaInfo)
    → Rising m
    → find k (unlink_lva g l m) ≡ some j
    → (find k m ≡ some j) × (l ≡ k → j.gva ≢ g)
unfolding unlink_lva
find_of_unlink g l k j m r e =
    (ground (arith, find-erase-Rising l k m r), λ q z. ground (arith, find-erase-Rising l k m r))

-- A segment that is not at the address g.
abbrev pub unless_at : ℕ → AllocatedGvaInfo → Option AllocatedGvaInfo
unless_at g j = if j.gva == g then none else some j

abbrev pub entry_unless_at : ℕ → Option AllocatedGvaInfo → Option AllocatedGvaInfo
entry_unless_at g none = none
entry_unless_at g (some j) = unless_at g j

pub without_gva-filter_map :
    (g : ℕ) (l : List AllocatedGvaInfo) → without_gva g l ≡ filter_map (unless_at g) l
unfolding without_gva filter_map
without_gva-filter_map g [] = refl
without_gva-filter_map g (j ∷ l) = elim (Bool-cases (j.gva == g)) [
  | inl q ↦ rw q (without_gva-filter_map g l)
  | inr q ↦ rw q (ap (λ m. j ∷ m) (without_gva-filter_map g l))
]

pub filter_map_all :
    (g : ℕ) (l : List AllocatedGvaInfo)
    → ((j : AllocatedGvaInfo) → In j l → (j.gva == g) ≡ false)
    → filter_map (unless_at g) l ≡ l
unfolding filter_map
filter_map_all g [] h = refl
filter_map_all g (j ∷ l) h =
    rw (h j (inl refl)) (ap (λ m. j ∷ m) (filter_map_all g l (λ k c. h k (inr c))))

pub find-unlink_none :
    (g a l : ℕ) (m : OrdMap AllocatedGvaInfo)
    → Rising m
    → find l m ≡ none
    → find l (unlink_lva g a m) ≡ none
unfolding unlink_lva
find-unlink_none g a l m r e = ground (arith, find-erase-Rising a l m r)

pub find-unlink_other :
    (g a l : ℕ) (j : AllocatedGvaInfo) (m : OrdMap AllocatedGvaInfo)
    → Rising m
    → find l m ≡ some j
    → (j.gva == g) ≡ false
    → find l (unlink_lva g a m) ≡ some j
unfolding unlink_lva
find-unlink_other g a l j m r e differs = elim (Option-cases (find a m)) [
  | inl f ↦ rw (f, unlink_lva) e
  | inr (k, f) ↦ elim (Bool-cases (k.gva == g)) [
    | inr q ↦ rw (f, unlink_lva) (rw q e)
    | inl q ↦ elim (Bool-cases (a == l)) [
      | inr h ↦ rw (f, unlink_lva) (rw q (find-erase-Rising a l m r ∙ (rw h e)))
      | inl h ↦
          let at : a ≡ l = (==_iff a l).0 h in
          let same : k ≡ j = some-injective k j (sym f ∙ ap (λ x. find x m) at ∙ e) in
          absurd
            (false≢true (sym differs ∙ ap (λ (x : AllocatedGvaInfo). x.gva == g) (sym same) ∙ q))
    ]
  ]
]

pub find-unlink_own :
    (g l : ℕ) (j : AllocatedGvaInfo) (m : OrdMap AllocatedGvaInfo)
    → Rising m
    → find l m ≡ some j
    → (j.gva == g) ≡ true
    → find l (unlink_lva g l m) ≡ none
unfolding unlink_lva
find-unlink_own g l j m r e same =
    let here : (l == l) ≡ true = (==_iff l l).1 refl in
    rw (e, unlink_lva) (rw same (find-erase-Rising l l m r ∙ (rw here refl)))
