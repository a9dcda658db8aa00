-- ===== src/Hybm/Va/Types.antt =====
-- The records of hybm_va_manager.h and the state of HybmVaManager.
-- The mutex is not modelled: a method is one step of a single thread.
use memfabric_hybrid.Base.{
  ℕ, ◌-◌, Bool, false, ◌&&◌, List, [], ltb, leb, ◌==◌, if◌then◌else◌, add64, u32_mod,
}
use memfabric_hybrid.Base.OrdMap.{OrdMap}

-- hybm_mem_type of hybm_def.h: the bits 1 and 2, and the end mark.
pub data MemType : Type 0 where
  device host butt : MemType

abbrev pub mem_type_value : MemType → ℕ
mem_type_value MemType.device = 1
mem_type_value MemType.host = 2
mem_type_value MemType.butt = 3

-- The result codes that the manager returns.
pub data Code : Type 0 where
  bm_ok bm_error bm_invalid_param : Code

pub record ReservedGvaInfo : Type 0 where
  pub start : ℕ
  pub size : ℕ
  pub mem_type : MemType
  pub local_rank_id : ℕ

abbrev pub invalid_rank_id : ℕ
invalid_rank_id = u32_mod - 1

pub record BaseAllocatedGvaInfo : Type 0 where
  pub gva : ℕ
  pub size : ℕ
  pub mem_type : MemType
  pub lva : ℕ

pub record AllocatedGvaInfo : Type 0 where
  pub base : BaseAllocatedGvaInfo
  pub open base use *
  pub registered : Bool
  pub local_rank_id : ℕ
  pub imported_rank_id : ℕ

-- The default-constructed info that a failed lookup returns.
abbrev pub empty_info : AllocatedGvaInfo
empty_info = record {
  base = record { gva = 0; size = 0; mem_type = MemType.device; lva = 0 };
  registered = false;
  local_rank_id = invalid_rank_id;
  imported_rank_id = invalid_rank_id;
}

abbrev pub empty_reserved : ReservedGvaInfo
empty_reserved = record { start = 0; size = 0; mem_type = MemType.device; local_rank_id = 0 }

-- addr >= start && addr < start + size, over uint64_t.
unfoldable pub covers : ℕ → ℕ → ℕ → Bool
covers start size addr = leb start addr && ltb addr (add64 start size)

-- AllocatedGvaInfo::Contains
unfoldable pub contains : AllocatedGvaInfo → ℕ → Bool
unfolding covers
contains i addr = covers i.gva i.size addr

-- AllocatedGvaInfo::ContainsByLva
unfoldable pub contains_by_lva : AllocatedGvaInfo → ℕ → Bool
unfolding covers
contains_by_lva i addr = if i.lva == 0 then false else covers i.lva i.size addr

-- ReservedGvaInfo::Contains
unfoldable pub reserved_contains : ReservedGvaInfo → ℕ → Bool
unfolding covers
reserved_contains r addr = covers r.start r.size addr

-- AllocatedGvaInfo::RankId
unfoldable pub rank_id : AllocatedGvaInfo → ℕ
rank_id i = if i.imported_rank_id == invalid_rank_id then i.local_rank_id else i.imported_rank_id

-- operator== of AllocatedGvaInfo
unfoldable pub same_info : AllocatedGvaInfo → AllocatedGvaInfo → Bool
unfolding rank_id
same_info l r = l.gva == r.gva && l.size == r.size && rank_id l == rank_id r

pub record VaManager : Type 0 where
  pub by_gva : OrdMap AllocatedGvaInfo
  pub by_lva : OrdMap AllocatedGvaInfo
  pub by_mem_type : OrdMap (List AllocatedGvaInfo)
  pub reserved : OrdMap ReservedGvaInfo
  pub reserve_start : ℕ
  pub reserve_end : ℕ

-- A new manager, and the one that ClearAll leaves.
unfoldable pub initial : VaManager
initial = record {
  by_gva = [];
  by_lva = [];
  by_mem_type = [];
  reserved = [];
  reserve_start = 0x280000000000;
  reserve_end = 0xA80000000000;
}

unfoldable pub clear_all : VaManager → VaManager
clear_all s = record s { by_gva = []; by_lva = []; by_mem_type = []; reserved = [] }

-- AscendSocType
pub data SocType : Type 0 where
  ascend_unknown ascend_910b ascend_910c : SocType

-- Initialize, as it is built for the NPU.
abbrev pub initialize : SocType → Code
initialize ascend_unknown = bm_invalid_param
initialize ascend_910b = bm_ok
initialize ascend_910c = bm_ok
