-- ===== src/Smem/Server/State.antt =====
-- The state of AccStoreServer, its requests and replies, and the methods of the local memory backend.
-- A string or a byte vector is a list of bytes. A handler is one step: it holds the mutex for all that
-- it does to the state.
use memfabric_hybrid.Base.{
  ℕ, zero, suc, ◌+◌, ◌-◌, ◌/◌, ◌%◌, Bool, List, [], ◌∷◌, Option, none, some, ltb, ◌==◌,
  if◌then◌else◌, u64_mod,
}
use memfabric_hybrid.Base.Assoc.{Assoc, lookup, put, remove, same_bytes}
use memfabric_hybrid.Smem.Packer.{SmemMessage}

abbrev pub Key : Type 0
Key = List ℕ

abbrev pub Value : Type 0
Value = List ℕ

-- kvStore_ of SmemLocalMemoryBackend.
abbrev pub Store : Type 0
Store = Assoc Key Value

-- StoreErrorCode
pub data StoreCode : Type 0 where
  success error invalid_message invalid_key not_exist restore timeout io_error : StoreCode

-- The Result of a handler.
pub data SmResult : Type 0 where
  sm_ok sm_error sm_invalid_param sm_repeat_call sm_invalid_key : SmResult

-- SmemLocalMemoryBackend::Get, with the value where it succeeds.
abbrev pub backend_get : Key → Store → Option Value
backend_get k m = lookup same_bytes k m

abbrev pub backend_put : Key → Value → Store → StoreCode × Store
backend_put k v m = (success, put same_bytes k v m)

abbrev pub backend_delete : Key → Store → StoreCode × Store
backend_delete k m = elim (lookup same_bytes k m) [
  | none ↦ (not_exist, m)
  | some v ↦ (success, remove same_bytes k m)
]

-- SmemLocalMemoryBackend::Exist and Clear. The handlers below test what Get finds in place of Exist.
abbrev pub backend_exist : Key → Store → StoreCode
backend_exist k m = elim (lookup same_bytes k m) [ none ↦ not_exist | some v ↦ success ]

abbrev pub backend_clear : Store → Store
backend_clear m = []

-- What a handler uses of AccTcpRequestContext: its link, and the number that a reply carries back.
pub record Request : Type 0 where
  pub link : ℕ
  pub seq : ℕ

-- StoreWaitContext, less its id, which is its key in waitCtx_.
pub record Waiter : Type 0 where
  pub deadline : ℕ
  pub key : Key
  pub request : Request

pub record Server : Type 0 where
  pub store : Store
  pub contexts : Assoc ℕ Waiter
  pub key_waiters : Assoc Key (List ℕ)
  pub timed_waiters : Assoc ℕ (List ℕ)
  pub rank_waiters : Assoc ℕ Request
  pub rank_queue : List ℕ
  pub world_size : ℕ
  pub rank_index : ℕ
  pub alive : List ℕ
  pub heartbeats : Assoc ℕ ℕ
  pub next_id : ℕ

-- A reply carries a fixed text for people, or bytes.
pub data Body : Type 0 where
  note : Body
  bytes : List ℕ → Body

pub record Reply : Type 0 where
  pub request : Request
  pub code : StoreCode
  pub body : Body

pub record Outcome : Type 0 where
  pub state : Server
  pub replies : List Reply
  pub result : SmResult

-- What a registered operation handler does: it gets the value and the backend by reference.
pub data OpCode : Type 0 where
  op_ok op_get_object op_failed : OpCode

pub record OpResult : Type 0 where
  pub code : OpCode
  pub value : Value
  pub store : Store

-- What the server is configured with, and the links' own state: externalOpHandlerMap_,
-- externalBrokenHandler_ and Link()->Established().
pub record Hooks : Type 0 where
  pub op_handlers : ℕ → Option (ℕ → Key → Value → Store → OpResult)
  pub broken_handler : Option (ℕ → Store → Store)
  pub established : ℕ → Bool

-- RegisterOpHandler and RegisterBrokenLinkCHandler.
unfoldable pub register_op : ℕ → (ℕ → Key → Value → Store → OpResult) → Hooks → Hooks
register_op op f h = record h {
  op_handlers = λ other. if other == op then some f else h.op_handlers other;
}

unfoldable pub register_broken : (ℕ → Store → Store) → Hooks → Hooks
register_broken f h = record h { broken_handler = some f }

-- ExecuteHandle
unfoldable pub execute_handle : Hooks → ℕ → ℕ → Key → Value → Store → OpResult
execute_handle h op link k v m = elim (h.op_handlers op) [
  | none ↦ record { code = op_ok; value = v; store = m }
  | some f ↦ f link k v m
]

-- SmemMessage responseMessage{mt} with one value: userDef stays -1.
abbrev pub response : ℕ → Value → SmemMessage
response mt v = record { mt = mt; user_def = u64_mod - 1; keys = []; values = v ∷ [] }

abbrev pub reply_note : Request → StoreCode → Reply
reply_note req c = record { request = req; code = c; body = note }

abbrev pub reply_bytes : Request → StoreCode → List ℕ → Reply
reply_bytes req c b = record { request = req; code = c; body = bytes b }

-- A handler that returns without a reply, and one that replies once.
abbrev pub silent : SmResult → Server → Outcome
silent r s = record { state = s; replies = []; result = r }

abbrev pub answer : Reply → SmResult → Server → Outcome
answer a r s = record { state = s; replies = a ∷ []; result = r }

-- keys.size() == 1, with the key.
abbrev pub sole : List (List ℕ) → Option (List ℕ)
sole [] = none
sole (x ∷ []) = some x
sole (x ∷ y ∷ l) = none

abbrev pub both : List (List ℕ) → Option (List ℕ × List ℕ)
both [] = none
both (x ∷ []) = none
both (x ∷ y ∷ []) = some (x, y)
both (x ∷ y ∷ z ∷ l) = none

-- std::to_string of an unsigned number, most significant digit first; 20 digits hold 64 bits.
unfoldable pub digits : ℕ → ℕ → List ℕ → List ℕ
digits zero n acc = acc
digits (suc fuel) n acc =
    let rest = digits fuel (n / 10) ((48 + n % 10) ∷ acc) in
    if ltb n 10 then (48 + n) ∷ acc else rest

unfoldable pub to_string : ℕ → List ℕ
unfolding digits
to_string n = digits 20 n []
