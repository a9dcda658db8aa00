-- ===== src/Hybm/Va/Direction.antt =====
-- GetMemType's users: ClassifyAddress, COPY_DIRECTION_TABLE and InferCopyDirection.
use memfabric_hybrid.Base.{
  ℕ, ◌+◌, ◌≡◌, Bool, true, false, ◌&&◌, Option, none, some, ltb, leb, if◌then◌else◌, arith,
}
use memfabric_hybrid.Hybm.Va.Types.{MemType, VaManager}
use memfabric_hybrid.Hybm.Va.Alloc.{get_mem_type}

pub data AddressCategory : Type 0 where
  global_device global_host local_device local_host : AddressCategory

-- hybm_data_copy_direction
pub data CopyDirection : Type 0 where
  local_host_to_global_host local_host_to_global_device : CopyDirection
  local_device_to_global_host local_device_to_global_device : CopyDirection
  global_host_to_global_host global_host_to_global_device : CopyDirection
  global_host_to_local_host global_host_to_local_device : CopyDirection
  global_device_to_global_host global_device_to_global_device : CopyDirection
  global_device_to_local_host global_device_to_local_device : CopyDirection
  direction_auto direction_butt : CopyDirection

-- COPY_DIRECTION_TABLE, row by row.
unfoldable pub copy_direction_table : AddressCategory → AddressCategory → CopyDirection
copy_direction_table global_device global_device = global_device_to_global_device
copy_direction_table global_device global_host = global_device_to_global_host
copy_direction_table global_device local_device = global_device_to_local_device
copy_direction_table global_device local_host = global_device_to_local_host
copy_direction_table global_host global_device = global_host_to_global_device
copy_direction_table global_host global_host = global_host_to_global_host
copy_direction_table global_host local_device = global_host_to_local_device
copy_direction_table global_host local_host = global_host_to_local_host
copy_direction_table local_device global_device = local_device_to_global_device
copy_direction_table local_device global_host = local_device_to_global_host
copy_direction_table local_device local_device = direction_butt
copy_direction_table local_device local_host = direction_butt
copy_direction_table local_host global_device = local_host_to_global_device
copy_direction_table local_host global_host = local_host_to_global_host
copy_direction_table local_host local_device = direction_butt
copy_direction_table local_host local_host = direction_butt

abbrev pub device_va_start : ℕ
device_va_start = 0x100000000000

abbrev pub device_va_size : ℕ
device_va_size = 0x80000000000

abbrev classify_type : ℕ → MemType → AddressCategory
classify_type va MemType.device = global_device
classify_type va MemType.host = global_host
classify_type va MemType.butt =
    if leb device_va_start va && ltb va (device_va_start + device_va_size)
    then local_device
    else local_host

-- `none` where GetMemType has no defined result.
unfoldable pub classify_address : ℕ → VaManager → Option AddressCategory
classify_address va s = elim (get_mem_type va s) [
  | none ↦ none
  | some t ↦ some (classify_type va t)
]

unfoldable pub infer_copy_direction : ℕ → ℕ → VaManager → Option CopyDirection
infer_copy_direction src dst s = elim (classify_address src s) [
  | none ↦ none
  | some c ↦ elim (classify_address dst s) [
    | none ↦ none
    | some d ↦ some (copy_direction_table c d)
  ]
]

-- The two ends that a direction's name states.
abbrev pub endpoints : CopyDirection → Option (AddressCategory × AddressCategory)
endpoints local_host_to_global_host = some (local_host, global_host)
endpoints local_host_to_global_device = some (local_host, global_device)
endpoints local_device_to_global_host = some (local_device, global_host)
endpoints local_device_to_global_device = some (local_device, global_device)
endpoints global_host_to_global_host = some (global_host, global_host)
endpoints global_host_to_global_device = some (global_host, global_device)
endpoints global_host_to_local_host = some (global_host, local_host)
endpoints global_host_to_local_device = some (global_host, local_device)
endpoints global_device_to_global_host = some (global_device, global_host)
endpoints global_device_to_global_device = some (global_device, global_device)
endpoints global_device_to_local_host = some (global_device, local_host)
endpoints global_device_to_local_device = some (global_device, local_device)
endpoints direction_auto = none
endpoints direction_butt = none

abbrev pub is_global : AddressCategory → Bool
is_global global_device = true
is_global global_host = true
is_global local_device = false
is_global local_host = false

-- For two addresses that have a category, InferCopyDirection has a result, whose name states these
-- two categories, unless neither is global, where it is none of the directions.
pub infer_copy_direction-endpoints :
    (src dst : ℕ) (s : VaManager) (c d : AddressCategory)
    → classify_address src s ≡ some c
    → classify_address dst s ≡ some d
    → (r : CopyDirection) × (infer_copy_direction src dst s ≡ some r)
      × (endpoints r
          ≡ (if is_global c then some (c, d) else if is_global d then some (c, d) else none))
unfolding infer_copy_direction copy_direction_table
infer_copy_direction-endpoints src dst s c d p q =
    (copy_direction_table c d, rw (p, infer_copy_direction) (rw q), ground arith)
