-- ===== src/Smem/Server/Adding.antt =====
-- AddHandler, and StrUtil::String2Int<long> of src/util/csrc/mf_str_util.h, which reads its numbers.
-- A `long` is held as its bit pattern, and a sum wraps.
use memfabric_hybrid.Base.{
  ℕ, ◌+◌, ◌-◌, ◌*◌, Bool, true, false, ◌&&◌, ◌||◌, List, [], ◌∷◌, Option, none, some, ltb, leb,
  ◌==◌, if◌then◌else◌, u64_mod, add64,
}
use memfabric_hybrid.Base.Assoc.{same_bytes}
use memfabric_hybrid.Smem.Packer.{SmemMessage}
use memfabric_hybrid.Smem.Server.State.{
  Key, Value, success, error, invalid_message, sm_ok, sm_error, backend_get, backend_put, Request,
  Server, Outcome, op_ok, op_get_object, op_failed, OpResult, Hooks, execute_handle, reply_note,
  reply_bytes, silent, answer, sole, to_string,
}
use memfabric_hybrid.Smem.Server.Waiters.{release}
use memfabric_hybrid.Smem.Server.Handlers.{refuse, with_key, answer_and_wake, positive}

-- std::isspace
abbrev pub is_space : ℕ → Bool
is_space c = c == 32 || (leb 9 c && leb c 13)

unfoldable pub skip_spaces : List ℕ → List ℕ
skip_spaces [] = []
skip_spaces (c ∷ l) = let rest = skip_spaces l in if is_space c then rest else c ∷ l

-- The C string of a std::string ends at its first zero.
unfoldable pub c_string : List ℕ → List ℕ
c_string [] = []
c_string (c ∷ l) = let rest = c_string l in if c == 0 then [] else c ∷ rest

abbrev pub read_sign : List ℕ → Bool × List ℕ
read_sign [] = (false, [])
read_sign (c ∷ l) = if c == 45 then (true, l) else if c == 43 then (false, l) else (false, c ∷ l)

-- The digits, after `seen` says whether there was one: none without any.
unfoldable pub read_digits : Bool → ℕ → List ℕ → Option (ℕ × List ℕ)
read_digits seen acc [] = if seen then some (acc, []) else none
read_digits seen acc (c ∷ l) =
    let rest = read_digits true (acc * 10 + (c - 48)) l in
    if leb 48 c && leb c 57 then rest else if seen then some (acc, c ∷ l) else none

-- 2 ^ 63
abbrev pub long_limit : ℕ
long_limit = 9223372036854775808

-- The bit pattern of the number, or none where strtoll sets ERANGE.
abbrev pub to_long : Bool → ℕ → Option ℕ
to_long false n = if ltb n long_limit then some n else none
to_long true n = if leb n long_limit then some (if n == 0 then 0 else u64_mod - n) else none

-- Nothing but spaces may follow the digits.
abbrev pub only_spaces : List ℕ → Option ℕ → Option ℕ
only_spaces [] n = n
only_spaces (c ∷ l) n = none

abbrev pub finish_long : Bool → Option (ℕ × List ℕ) → Option ℕ
finish_long negative none = none
finish_long negative (some (n, rest)) = only_spaces (skip_spaces rest) (to_long negative n)

unfoldable pub string_to_long : List ℕ → Option ℕ
unfolding skip_spaces c_string read_digits
string_to_long text =
    let (negative, digits_of) = read_sign (skip_spaces (c_string text)) in
    finish_long negative (read_digits false 0 digits_of)

-- std::to_string(long)
unfoldable pub long_to_string : ℕ → List ℕ
long_to_string n = if ltb n long_limit then to_string n else 45 ∷ to_string (u64_mod - n)

abbrev pub add_new : Hooks → Request → Key → Value → ℕ → List Request × Server → Outcome
add_new h req k v n (ws, s) =
    answer_and_wake h (reply_bytes req (backend_put k v s.store).0 (long_to_string n)) ws v
      (record s { store = (backend_put k v s.store).1 })

-- The result of this Put goes to a variable of its own, so that the reply always tells success.
abbrev pub add_sum : Request → Key → ℕ → Server → Outcome
add_sum req k sum s =
    answer (reply_bytes req success (long_to_string sum)) sm_ok
      (record s { store = (backend_put k (long_to_string sum) s.store).1 })

-- The string "0" is the only one that may stand for zero.
abbrev pub add_old : Request → Key → ℕ → Value → Option ℕ → Server → Outcome
add_old req k n old none s = answer (reply_note req invalid_message) sm_error s
add_old req k n old (some stored) s =
    let not_a_number : Bool = stored == 0 && (if same_bytes old (48 ∷ []) then false else true) in
    if not_a_number
    then answer (reply_note req invalid_message) sm_error s
    else add_sum req k (add64 stored n) s

unfoldable pub add_store : Hooks → Request → Key → Value → ℕ → Server → Outcome
add_store h req k v n s = elim (backend_get k s.store) [
  | none ↦ add_new h req k v n (release k s)
  | some old ↦ add_old req k n old (string_to_long old) s
]

abbrev pub add_executed : Hooks → Request → Key → ℕ → OpResult → Server → Outcome
add_executed h req k n r s = elim r.code [
  | op_ok ↦ add_store h req k r.value n (record s { store = r.store })
  | op_get_object ↦ answer (reply_note req error) sm_error (record s { store = r.store })
  | op_failed ↦ answer (reply_note req error) sm_error (record s { store = r.store })
]

-- The operation handler runs only for a positive number.
abbrev pub add_number : Hooks → Request → Key → Value → Option ℕ → Server → Outcome
add_number h req k v none s = silent sm_error s
add_number h req k v (some n) s =
    if same_bytes v (long_to_string n)
    then if positive n
      then add_executed h req k n (execute_handle h 2 req.link k v s.store) s
      else add_store h req k v n s
    else answer (reply_note req invalid_message) sm_error s

unfoldable pub add_handler : Hooks → Request → SmemMessage → Server → Outcome
add_handler h req m s = elim (sole m.keys) [
  | none ↦ refuse req s
  | some k ↦ elim (sole m.values) [
    | none ↦ refuse req s
    | some v ↦ with_key k s (add_number h req k v (string_to_long v) s)
  ]
]
