-- ===== src/Hybm/Va/Adding.antt =====
-- AddVaInfo keeps the maps valid, on every branch.
use memfabric_hybrid.Base.{
  ℕ, ◌+◌, ◌≤◌, ◌<◌, ◌≡◌, refl, ◌≢◌, inl, inr, Option, none, some, arith, In, subst, Bool-cases,
  ◌==◌,
}
use memfabric_hybrid.Base.OrdMap.{find, All-find}
use memfabric_hybrid.Base.Ranges.{Chain-bounds}
use memfabric_hybrid.Hybm.Va.Types.{AllocatedGvaInfo, VaManager, empty_info, same_info}
use memfabric_hybrid.Hybm.Va.Alloc.{segments, check_overlap, is_butt, add_checked, add_va_info}
use memfabric_hybrid.Hybm.Va.Invariant.{info_size, top, IsValid, Apart, mem_type-discrete}
use memfabric_hybrid.Hybm.Va.Recording.{overlaps-Apart, first_overlap-none, record_info-IsValid}

-- A segment that CheckOverlap passes is apart from every segment, if it is from those of other types.
pub clear_of_check :
    (s : VaManager) (i : AllocatedGvaInfo)
    → IsValid s
    → 0 < i.size
    → i.gva + i.size ≤ top
    → ((g : ℕ) (j : AllocatedGvaInfo)
        → find g s.by_gva ≡ some j
        → j.mem_type ≢ i.mem_type
        → Apart i j)
    → check_overlap i.gva i.size i.mem_type s ≡ none
    → (g : ℕ) (j : AllocatedGvaInfo) → find g s.by_gva ≡ some j
    → Apart i j
unfolding check_overlap
clear_of_check s i v p f other c g j e =
    let bounds : (1 ≤ g) × (0 < j.size) × (g + j.size ≤ top) =
      Chain-bounds info_size 1 top g j s.by_gva v.chain e in
    let key : j.gva ≡ g = All-find _ g j s.by_gva v.keyed e in
    elim (mem_type-discrete j.mem_type i.mem_type) [
      | yes same ↦ overlaps-Apart i j p f bounds.1 (omega arith) (
          first_overlap-none i.gva i.size (segments i.mem_type s) j c
            (subst (λ t. In j (segments t s)) same (v.filed g j e)))
      | no differ ↦ other g j e differ
    ]

add_checked-IsValid :
    (s : VaManager) (i : AllocatedGvaInfo) (o : Option AllocatedGvaInfo)
    → IsValid s
    → 0 < i.gva
    → 0 < i.size
    → i.gva + i.size ≤ top
    → ((g : ℕ) (j : AllocatedGvaInfo)
        → find g s.by_gva ≡ some j
        → j.mem_type ≢ i.mem_type
        → Apart i j)
    → check_overlap i.gva i.size i.mem_type s ≡ o
    → IsValid (add_checked i o s).1
unfolding add_checked
add_checked-IsValid s i none v a p f other c = elim (Bool-cases (same_info empty_info i)) [
  | inl e ↦ rw e v
  | inr e ↦ rw e (record_info-IsValid s v i a p f (clear_of_check s i v p f other c))
]
add_checked-IsValid s i (some old) v a p f other c = elim (Bool-cases (same_info old i)) [
  | inl e ↦ rw e v
  | inr e ↦ rw e v
]

-- AddVaInfo keeps the maps valid on every branch, for a segment that ends within the address space
-- and does not meet a segment of another type, which AddVaInfo does not check.
pub add_va_info-IsValid :
    (s : VaManager) (i : AllocatedGvaInfo)
    → IsValid s
    → i.gva + i.size ≤ top
    → ((g : ℕ) (j : AllocatedGvaInfo)
        → find g s.by_gva ≡ some j
        → j.mem_type ≢ i.mem_type
        → Apart i j)
    → IsValid (add_va_info i s).1
unfolding add_va_info
add_va_info-IsValid s i v f other = elim (Bool-cases (i.gva == 0)) [
  | inl e ↦ rw e v
  | inr a ↦ elim (Bool-cases (i.size == 0)) [
    | inl e ↦ rw (a, e) v
    | inr p ↦ elim (Bool-cases (is_butt i.mem_type)) [
      | inl e ↦ rw (a, p, e) v
      | inr e ↦
          rw (a, p, e)
            (add_checked-IsValid s i (check_overlap i.gva i.size i.mem_type s) v (ground arith)
              (ground arith) f other refl)
    ]
  ]
]
