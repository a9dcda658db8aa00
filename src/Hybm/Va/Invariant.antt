-- ===== src/Hybm/Va/Invariant.antt =====
-- The invariant of HybmVaManager's maps of allocated segments, and the methods that keep it.
use memfabric_hybrid.Base.{ℕ, ◌+◌, ◌-◌, ◌≤◌, ◌≡◌, ◌⊎◌, some, arith, In, u64_mod}
use memfabric_hybrid.Base.OrdMap.{find, All, Rising}
use memfabric_hybrid.Base.Ranges.{Chain}
use memfabric_hybrid.Hybm.Va.Types.{MemType, mem_type_value, AllocatedGvaInfo, VaManager}
use memfabric_hybrid.Hybm.Va.Alloc.{segments}

abbrev pub info_size : AllocatedGvaInfo → ℕ
info_size i = i.size

-- The last address of the 64-bit space is never part of a segment, so that its end does not wrap.
abbrev pub top : ℕ
top = u64_mod - 1

pub record IsValid (s : VaManager) : Type 0 where
  -- segments of all types are non-empty, disjoint and in order of their addresses
  pub chain : Chain info_size 1 top s.by_gva
  pub keyed : All (λ g i. i.gva ≡ g) s.by_gva
  -- the vectors by type hold the same segments
  pub filed :
      (g : ℕ) (i : AllocatedGvaInfo) → find g s.by_gva ≡ some i → In i (segments i.mem_type s)
  pub live :
      (t : MemType) (i : AllocatedGvaInfo)
      → In i (segments t s)
      → (find i.gva s.by_gva ≡ some i) × (i.mem_type ≡ t)
  pub types_rising : Rising s.by_mem_type
  -- the map by local address holds some of them
  pub lva_rising : Rising s.by_lva
  pub lva_keyed : All (λ l i. i.lva ≡ l) s.by_lva
  pub lva_live :
      (l : ℕ) (i : AllocatedGvaInfo) → find l s.by_lva ≡ some i → find i.gva s.by_gva ≡ some i

-- The ranges of two segments do not meet.
abbrev pub Apart : AllocatedGvaInfo → AllocatedGvaInfo → Type 0
Apart i j = (j.gva + j.size ≤ i.gva) ⊎ (i.gva + i.size ≤ j.gva)

pub mem_type-discrete : Discrete MemType
mem_type-discrete = hlevel

pub mem_type_value-injective : (t u : MemType) → mem_type_value t ≡ mem_type_value u → t ≡ u
mem_type_value-injective t u e = ground arith
