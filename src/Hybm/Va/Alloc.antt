-- ===== src/Hybm/Va/Alloc.antt =====
-- AddVaInfo, AddVaInfoFromExternal, CheckOverlap and the methods that find an allocated segment.
use memfabric_hybrid.Base.{
  ℕ, Bool, true, false, not, ◌&&◌, ◌||◌, List, [], ◌∷◌, ◌++◌, Option, none, some, ltb, leb, ◌==◌,
  if◌then◌else◌, add64, sub64,
}
use memfabric_hybrid.Base.OrdMap.{OrdMap, find, assign, erase, floor, cursor}
use memfabric_hybrid.Hybm.Va.Types.{
  MemType, mem_type_value, Code, bm_ok, bm_error, BaseAllocatedGvaInfo, AllocatedGvaInfo, VaManager,
  empty_info, contains, contains_by_lva, rank_id, same_info, invalid_rank_id, ReservedGvaInfo,
  reserved_contains,
}

-- allocatedLookupMapByMemType_: the segments filed under a type, none if the type has no vector.
unfoldable pub segments : MemType → VaManager → List AllocatedGvaInfo
segments t s = elim (find (mem_type_value t) s.by_mem_type) [ none ↦ [] | some l ↦ l ]

-- The test of CheckOverlap against one segment, with `end = gva + size`.
unfoldable pub overlaps : ℕ → ℕ → AllocatedGvaInfo → Bool
overlaps gva size i =
    (leb i.gva gva && ltb gva (add64 i.gva i.size)) || (leb gva i.gva && ltb i.gva (add64 gva size))

unfoldable pub first_overlap : ℕ → ℕ → List AllocatedGvaInfo → Option AllocatedGvaInfo
unfolding overlaps
first_overlap gva size [] = none
first_overlap gva size (i ∷ l) = if overlaps gva size i then some i else first_overlap gva size l

unfoldable pub check_overlap : ℕ → ℕ → MemType → VaManager → Option AllocatedGvaInfo
unfolding first_overlap segments
check_overlap gva size t s = first_overlap gva size (segments t s)

-- The three writes of AddVaInfo.
unfoldable pub record_info : AllocatedGvaInfo → VaManager → VaManager
unfolding segments
record_info i s = record s {
  by_gva = assign i.gva i s.by_gva;
  by_lva = assign i.lva i s.by_lva;
  by_mem_type = assign (mem_type_value i.mem_type) (segments i.mem_type s ++ i ∷ []) s.by_mem_type;
}

-- What follows CheckOverlap: `old.second` is a default info where nothing overlaps.
unfoldable pub add_checked :
    AllocatedGvaInfo → Option AllocatedGvaInfo → VaManager → Code × VaManager
unfolding same_info record_info
add_checked i none s = if same_info empty_info i then (bm_ok, s) else (bm_ok, record_info i s)
add_checked i (some old) s = if same_info old i then (bm_ok, s) else (bm_error, s)

abbrev pub is_butt : MemType → Bool
is_butt MemType.butt = true
is_butt MemType.device = false
is_butt MemType.host = false

unfoldable pub add_va_info : AllocatedGvaInfo → VaManager → Code × VaManager
add_va_info i s =
    if i.gva == 0
    then (bm_error, s)
    else if i.size == 0
    then (bm_ok, s)
    else if is_butt i.mem_type
    then (bm_error, s)
    else add_checked i (check_overlap i.gva i.size i.mem_type s) s

-- AddVaInfo(const BaseAllocatedGvaInfo &, uint32_t)
unfoldable pub add_base_va_info : BaseAllocatedGvaInfo → ℕ → VaManager → Code × VaManager
unfolding add_va_info
add_base_va_info b local_rank = add_va_info (record {
  base = b;
  registered = false;
  local_rank_id = local_rank;
  imported_rank_id = invalid_rank_id;
})

unfoldable pub add_va_info_from_external :
    BaseAllocatedGvaInfo → ℕ → ℕ → VaManager → Code × VaManager
unfolding add_va_info
add_va_info_from_external b local_rank imported_rank = add_va_info (record {
  base = b;
  registered = imported_rank == invalid_rank_id;
  local_rank_id = local_rank;
  imported_rank_id = imported_rank;
})

-- A method that steps back only if `it != begin()` and then reads `*it` has no defined result on
-- an empty map, where `it` is `end()`: `none` below is that undefined behaviour.
abbrev pub read_cursor {ℓ κ} : {V : Type ℓ} {B : Type κ} → Option (ℕ × V) → (V → B) → Option B
read_cursor none f = none
read_cursor (some (k, v)) f = some (f v)

unfoldable pub is_gva : ℕ → VaManager → Option Bool
is_gva va s = if va == 0 then some false else read_cursor (cursor va s.by_gva) (λ i. contains i va)

abbrev pub translate_gva : ℕ → Option (ℕ × AllocatedGvaInfo) → ℕ
translate_gva lva none = 0
translate_gva lva (some (k, i)) = if contains_by_lva i lva then add64 i.gva (sub64 lva i.lva) else 0

abbrev pub translate_lva : ℕ → Option (ℕ × AllocatedGvaInfo) → ℕ
translate_lva gva none = 0
translate_lva gva (some (k, i)) = if contains i gva then add64 i.lva (sub64 gva i.gva) else 0

unfoldable pub get_gva_by_lva : ℕ → VaManager → ℕ
get_gva_by_lva lva s = if lva == 0 then 0 else translate_gva lva (floor lva s.by_lva)

unfoldable pub get_lva_by_gva : ℕ → VaManager → ℕ
get_lva_by_gva gva s = if gva == 0 then 0 else translate_lva gva (floor gva s.by_gva)

unfoldable pub find_alloc_by_gva : ℕ → VaManager → Option (AllocatedGvaInfo × Bool)
find_alloc_by_gva gva s =
    read_cursor (cursor gva s.by_gva)
      (λ i. if contains i gva then (i, true) else (empty_info, false))

unfoldable pub find_alloc_by_lva : ℕ → VaManager → Option (AllocatedGvaInfo × Bool)
find_alloc_by_lva lva s =
    read_cursor (cursor lva s.by_lva)
      (λ i. if contains_by_lva i lva then (i, true) else (empty_info, false))

unfoldable pub get_rank : ℕ → VaManager → Option (ℕ × Bool)
get_rank gva s =
    if gva == 0
    then some (0, false)
    else read_cursor (cursor gva s.by_gva)
        (λ i. if contains i gva then (rank_id i, true) else (0, false))

unfoldable pub is_valid_addr : ℕ → VaManager → Option Bool
is_valid_addr va s = elim (is_gva va s) [
  | none ↦ none
  | some true ↦ some true
  | some false ↦ some (not (get_gva_by_lva va s == 0))
]

-- std::remove_if over one vector.
unfoldable pub without_gva : ℕ → List AllocatedGvaInfo → List AllocatedGvaInfo
without_gva gva [] = []
without_gva gva (i ∷ l) = let rest = without_gva gva l in if i.gva == gva then rest else i ∷ rest

abbrev pub refile :
    ℕ → List AllocatedGvaInfo → OrdMap (List AllocatedGvaInfo) → OrdMap (List AllocatedGvaInfo)
refile t [] m = erase t m
refile t (i ∷ l) m = assign t (i ∷ l) m

-- The vector of one type without the segment; an empty vector is dropped from the map.
unfoldable pub unfile : ℕ → ℕ → OrdMap (List AllocatedGvaInfo) → OrdMap (List AllocatedGvaInfo)
unfolding without_gva
unfile gva t m = elim (find t m) [ none ↦ m | some l ↦ refile t (without_gva gva l) m ]

unfoldable pub unlink_lva : ℕ → ℕ → OrdMap AllocatedGvaInfo → OrdMap AllocatedGvaInfo
unlink_lva gva lva m = elim (find lva m) [
  | none ↦ m
  | some j ↦ if j.gva == gva then erase lva m else m
]

abbrev pub drop_found : ℕ → Option AllocatedGvaInfo → VaManager → VaManager
drop_found gva none s = s
drop_found gva (some i) s = record s {
  by_lva = unlink_lva gva i.lva s.by_lva;
  by_mem_type = unfile gva (mem_type_value i.mem_type) s.by_mem_type;
  by_gva = erase gva s.by_gva;
}

-- The part of RemoveOneVaInfo under the lock.
unfoldable pub remove_at : ℕ → VaManager → VaManager
unfolding unlink_lva unfile
remove_at gva s = if gva == 0 then s else drop_found gva (find gva s.by_gva) s

unfoldable pub remove_one_va_info : ℕ → VaManager → Option VaManager
remove_one_va_info va s = elim (is_gva va s) [
  | none ↦ none
  | some true ↦ some (remove_at va s)
  | some false ↦ some (remove_at (get_gva_by_lva va s) s)
]

-- GetMemType, GetRank's siblings over three maps. The second test returns the type of the entry
-- that the first cursor stands at, `allocIt->second`, as the source does.
abbrev pub reserved_mem_type : ℕ → Option (ℕ × ReservedGvaInfo) → Option MemType
reserved_mem_type va none = none
reserved_mem_type va (some (k, r)) =
    some (if reserved_contains r va then r.mem_type else MemType.butt)

unfoldable pub get_mem_type : ℕ → VaManager → Option MemType
get_mem_type va s = if va == 0 then some MemType.device else elim (cursor va s.by_gva) [
  | none ↦ none
  | some (k, i) ↦ if contains i va then some i.mem_type else elim (cursor va s.by_lva) [
    | none ↦ none
    | some (l, j) ↦
        if contains_by_lva j va
        then some i.mem_type
        else reserved_mem_type va (cursor va s.reserved)
  ]
]
