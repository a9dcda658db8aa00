-- ===== src/Smem/Client.antt =====
-- TcpConfigStore's requests, src/smem/csrc/config_store/tcp_store/smem_tcp_config_store.{h,cpp}: Set,
-- GetReal, Add, Remove, Append, Write and Cas over SendMessageBlocked. The state `S` is what the other
-- end and the link keep; `send` is SendMessageBlocked, whose answer is none for a null response.
pub mod Numbers
pub mod Serving
pub mod Replies
pub mod Updating
pub mod Decoding
pub mod Calls
pub mod CallLaws
pub mod UpdateCalls
pub mod Refinement
pub mod Contexts
pub mod ContextLaws
pub mod Wakeups
pub mod Watching
mod Examples
use memfabric_hybrid.Base.{
  ℕ, zero, suc, ◌+◌, ◌-◌, ◌/◌, ◌%◌, Bool, true, false, not, ◌&&◌, ◌||◌, List, [], ◌∷◌, ◌++◌, Option,
  none, some, ltb, ◌==◌, if◌then◌else◌, u64_mod, length,
}
use memfabric_hybrid.Base.Bytes.{le_bytes}
use memfabric_hybrid.Base.Assoc.{same_bytes}
use memfabric_hybrid.Smem.Packer.{SmemMessage, Parse, done, reject, overread, pack, unpack}
use memfabric_hybrid.Smem.Server.State.{
  Key, Value, StoreCode, success, error, invalid_message, invalid_key, not_exist, restore, timeout,
  io_error,
}
use memfabric_hybrid.Smem.Server.Adding.{
  c_string, skip_spaces, read_sign, read_digits, to_long, string_to_long, long_to_string,
}

-- What a caller uses of AccTcpRequestContext: the result in its header, and its data, none for null.
pub record Response : Type 0 where
  pub code : StoreCode
  pub payload : Option (List ℕ)

-- The Result of a call: a StoreErrorCode, or SM_MALLOC_FAILED.
pub data Code : Type 0 where
  store_code : StoreCode → Code
  malloc_failed : Code

-- MAX_KEY_LEN_CLIENT
abbrev pub max_key_len_client : ℕ
max_key_len_client = 1024

unfoldable pub is_bad_key : Key → Bool
is_bad_key k = length k == 0 || ltb max_key_len_client (length k)

-- SmemMessage request{type}, whose userDef is -1, with its keys and values.
abbrev pub request_of : ℕ → Key → List Value → SmemMessage
request_of mt k vs = record { mt = mt; user_def = u64_mod - 1; keys = k ∷ []; values = vs }

abbrev pub get_request : Key → ℕ → SmemMessage
get_request k timeout_ms = record { mt = 1; user_def = timeout_ms; keys = k ∷ []; values = [] }

-- The result of a call that has only a code.
abbrev pub code_of : Option Response → Code
code_of none = store_code io_error
code_of (some r) = store_code r.code

-- What GetReal and Cas make of the data: `none` is a read behind the data.
abbrev pub first_value : Code → List Value → Code × Option Value
first_value c [] = (store_code error, none)
first_value c (v ∷ vs) = (c, some v)

abbrev pub parsed_value : Code → Parse (SmemMessage × ℕ) → Option (Code × Option Value)
parsed_value c overread = none
parsed_value c reject = some (store_code error, none)
parsed_value c (done (m, size)) = some (first_value c m.values)

abbrev pub payload_value : Code → Option (List ℕ) → Option (Code × Option Value)
payload_value c none = some (malloc_failed, none)
payload_value c (some bytes) = parsed_value c (unpack bytes)

unfoldable pub get_result : Option Response → Option (Code × Option Value)
get_result none = some (store_code io_error, none)
get_result (some r) = elim r.code [
  | success ↦ payload_value (store_code success) r.payload
  | restore ↦ payload_value (store_code restore) r.payload
  | error ↦ some (store_code error, none)
  | invalid_message ↦ some (store_code invalid_message, none)
  | invalid_key ↦ some (store_code invalid_key, none)
  | not_exist ↦ some (store_code not_exist, none)
  | timeout ↦ some (store_code timeout, none)
  | io_error ↦ some (store_code io_error, none)
]

-- responseCode != 0
abbrev pub succeeded : StoreCode → Bool
succeeded success = true
succeeded error = false
succeeded invalid_message = false
succeeded invalid_key = false
succeeded not_exist = false
succeeded restore = false
succeeded timeout = false
succeeded io_error = false

unfoldable pub cas_result : Option Response → Option (Code × Option Value)
cas_result none = some (store_code io_error, none)
cas_result (some r) =
    let found = payload_value (store_code success) r.payload in
    if succeeded r.code then found else some (store_code r.code, none)

-- errno == ERANGE behind String2Int, which leaves errno alone for an empty string.
abbrev pub range_of : Bool → Option (ℕ × List ℕ) → Bool
range_of negative none = false
range_of negative (some (n, rest)) = elim (to_long negative n) [ none ↦ true | some x ↦ false ]

unfoldable pub sets_erange : Bool → List ℕ → Bool
sets_erange stale [] = stale
sets_erange stale (c ∷ l) =
    let (negative, digits_of) = read_sign (skip_spaces (c_string (c ∷ l))) in
    range_of negative (read_digits false 0 digits_of)

-- The number behind an ADD: the code, and `value` after the call.
abbrev pub added_value : List ℕ → Option ℕ → Code × ℕ
added_value text none = (store_code error, 0)
added_value text (some n) =
    if n == 0 && not (same_bytes text (48 ∷ []))
    then (store_code error, n)
    else (store_code success, n)

abbrev pub add_payload : Bool → Option (List ℕ) → Code × Option ℕ
add_payload stale none = (store_code io_error, none)
add_payload stale (some text) =
    let (code, n) = added_value text (string_to_long text) in
    (if sets_erange stale text then store_code io_error else code, some n)

unfoldable pub add_result : Bool → Option Response → Code × Option ℕ
add_result stale none = (store_code io_error, none)
add_result stale (some r) =
    let found = add_payload stale r.payload in
    if succeeded r.code then found else (store_code r.code, none)

-- The new size behind an APPEND.
abbrev pub size_read : Option ℕ → Code × Option ℕ
size_read none = (store_code error, none)
size_read (some n) = (store_code success, some n)

abbrev pub append_payload : Option (List ℕ) → Code × Option ℕ
append_payload none = (store_code io_error, none)
append_payload (some text) = size_read (string_to_long text)

unfoldable pub append_result : Option Response → Code × Option ℕ
append_result none = (store_code io_error, none)
append_result (some r) =
    let found = append_payload r.payload in
    if succeeded r.code then found else (store_code r.code, none)

module _ {ℓ} {S : Type ℓ} (send : List ℕ → S → Option Response × S) where
  unfoldable pub set : Key → Value → S → Code × S
  set k v s =
      if is_bad_key k
      then (store_code invalid_key, s)
      else let (r, t) = send (pack (request_of 0 k (v ∷ []))) s in (code_of r, t)

  -- GetReal
  unfoldable pub get : Key → ℕ → S → Option (Code × Option Value) × S
  get k timeout_ms s =
      if is_bad_key k
      then (some (store_code invalid_key, none), s)
      else let (r, t) = send (pack (get_request k timeout_ms)) s in (get_result r, t)

  -- The increment is the bit pattern of an int64_t.
  unfoldable pub add : Bool → Key → ℕ → S → (Code × Option ℕ) × S
  add stale k n s =
      if is_bad_key k
      then ((store_code invalid_key, none), s)
      else let (r, t) = send (pack (request_of 2 k (long_to_string n ∷ []))) s in
        (add_result stale r, t)

  unfoldable pub remove : Key → S → Code × S
  remove k s =
      if is_bad_key k
      then (store_code invalid_key, s)
      else let (r, t) = send (pack (request_of 3 k [])) s in (code_of r, t)

  unfoldable pub append : Key → Value → S → (Code × Option ℕ) × S
  append k v s =
      if is_bad_key k
      then ((store_code invalid_key, none), s)
      else let (r, t) = send (pack (request_of 4 k (v ∷ []))) s in (append_result r, t)

  unfoldable pub cas : Key → Value → Value → S → Option (Code × Option Value) × S
  cas k expected new s =
      if is_bad_key k
      then (some (store_code invalid_key, none), s)
      else let (r, t) = send (pack (request_of 5 k (expected ∷ new ∷ []))) s in (cas_result r, t)

  -- The offset is a uint32_t, sent as the first four bytes of the value.
  unfoldable pub write : Key → Value → ℕ → S → Code × S
  write k v offset s =
      if is_bad_key k
      then (store_code invalid_key, s)
      else let (r, t) = send (pack (request_of 6 k ((le_bytes 4 offset ++ v) ∷ []))) s in
        (code_of r, t)
