-- ===== src/Smem/Server/Handlers.antt =====
-- SetHandler, GetHandler for keys that hold no rank, RemoveHandler, CasHandler, WatchRankStateHandler
-- and HeartbeatHandler.
use memfabric_hybrid.Base.{
  ℕ, ◌+◌, ◌%◌, Bool, ◌&&◌, List, [], ◌∷◌, Option, none, some, length, ltb, ◌==◌, if◌then◌else◌,
  u64_mod,
}
use memfabric_hybrid.Base.Assoc.{lookup, put, same_bytes}
use memfabric_hybrid.Smem.Packer.{SmemMessage, pack}
use memfabric_hybrid.Smem.Server.State.{
  Key, Value, StoreCode, success, error, invalid_message, not_exist, restore, sm_ok, sm_error,
  sm_invalid_param, sm_repeat_call, sm_invalid_key, backend_get, backend_put, backend_delete,
  Request, Server, Reply, Outcome, op_ok, op_get_object, op_failed, OpResult, Hooks, execute_handle,
  response, reply_note, reply_bytes, silent, answer, sole, both,
}
use memfabric_hybrid.Smem.Server.Waiters.{release, wakeup}

-- MAX_KEY_LEN_SERVER
abbrev pub max_key_len : ℕ
max_key_len = 2048

-- A body of the wrong shape.
abbrev pub refuse : Request → Server → Outcome
refuse req s = answer (reply_note req invalid_message) sm_invalid_param s

-- Every handler drops a key that is too long without a reply.
abbrev pub with_key : Key → Server → Outcome → Outcome
with_key k s o = if ltb max_key_len (length k) then silent sm_invalid_key s else o

-- A handler's last lines: the reply to the caller, and those to the waiters that it took out.
abbrev pub answer_and_wake : Hooks → Reply → List Request → Value → Server → Outcome
answer_and_wake h a ws v s = record { state = s; replies = a ∷ wakeup h ws v; result = sm_ok }

abbrev pub set_new : Hooks → Request → Key → Value → List Request × Server → Outcome
set_new h req k v (ws, s) =
    let (ret, m) = backend_put k v s.store in
    answer_and_wake h (reply_note req ret) ws v (record s { store = m })

abbrev pub set_old : Request → Key → Value → Server → Outcome
set_old req k v s =
    let (ret, m) = backend_put k v s.store in
    answer (reply_note req ret) sm_ok (record s { store = m })

-- SetHandler behind ExecuteHandle.
unfoldable pub set_store : Hooks → Request → Key → Value → Server → Outcome
set_store h req k v s = elim (backend_get k s.store) [
  | none ↦ set_new h req k v (release k s)
  | some old ↦ set_old req k v s
]

abbrev pub set_executed : Hooks → Request → Key → OpResult → Server → Outcome
set_executed h req k r s = elim r.code [
  | op_ok ↦ set_store h req k r.value (record s { store = r.store })
  | op_get_object ↦ answer (reply_note req error) sm_error (record s { store = r.store })
  | op_failed ↦ answer (reply_note req error) sm_error (record s { store = r.store })
]

unfoldable pub set_handler : Hooks → Request → SmemMessage → Server → Outcome
set_handler h req m s = elim (sole m.keys) [
  | none ↦ refuse req s
  | some k ↦ elim (sole m.values) [
    | none ↦ refuse req s
    | some v ↦ with_key k s (set_executed h req k (execute_handle h 0 req.link k v s.store) s)
  ]
]

-- The waiters of a key, and the ids of a deadline, with one more.
abbrev pub ids_of : Option (List ℕ) → List ℕ
ids_of none = []
ids_of (some ids) = ids

-- userDef > 0, for the bit pattern of an int64_t.
abbrev pub positive : ℕ → Bool
positive user = ltb 0 user && ltb user 9223372036854775808

-- GetHandler's wait, at `now` milliseconds: a negative userDef waits with no deadline of its own.
unfoldable pub wait_for : ℕ → Request → Key → ℕ → Server → Server
wait_for now req k user s =
    let id = s.next_id in
    let deadline = (now + user) % u64_mod in
    record s {
      next_id = id + 1;
      contexts = put ◌==◌ id (record { deadline = deadline; key = k; request = req }) s.contexts;
      key_waiters =
          put same_bytes k (id ∷ ids_of (lookup same_bytes k s.key_waiters)) s.key_waiters;
      timed_waiters =
          if positive user
          then put ◌==◌ deadline (id ∷ ids_of (lookup ◌==◌ deadline s.timed_waiters))
              s.timed_waiters
          else s.timed_waiters;
    }

unfoldable pub get_missing : ℕ → Request → Key → ℕ → Server → Outcome
get_missing now req k user s =
    if user == 0
    then answer (reply_note req not_exist) sm_error s
    else silent sm_ok (wait_for now req k user s)

abbrev pub get_executed : ℕ → Request → Key → ℕ → ℕ → OpResult → Server → Outcome
get_executed now req k mt user r s = elim r.code [
  | op_get_object ↦
      answer (reply_bytes req restore (pack (response mt r.value))) sm_ok
        (record s { store = r.store })
  | op_ok ↦ get_missing now req k user (record s { store = r.store })
  | op_failed ↦ get_missing now req k user (record s { store = r.store })
]

-- GetHandler behind the test for a key of ranks.
unfoldable pub get_plain : Hooks → ℕ → Request → SmemMessage → Key → Server → Outcome
get_plain h now req m k s = elim (backend_get k s.store) [
  | some v ↦ answer (reply_bytes req success (pack (response m.mt v))) sm_ok s
  | none ↦ get_executed now req k m.mt m.user_def (execute_handle h 1 req.link k [] s.store) s
]

unfoldable pub remove_store : Request → Key → Server → Outcome
remove_store req k s = elim (backend_get k s.store) [
  | none ↦ answer (reply_note req not_exist) sm_ok s
  | some v ↦
      answer (reply_note req success) sm_ok (record s { store = (backend_delete k s.store).1 })
]

abbrev pub remove_key : Request → Key → List Value → Server → Outcome
remove_key req k [] s = with_key k s (remove_store req k s)
remove_key req k (v ∷ vs) s = refuse req s

unfoldable pub remove_handler : Request → SmemMessage → Server → Outcome
remove_handler req m s = elim (sole m.keys) [
  | none ↦ refuse req s
  | some k ↦ remove_key req k m.values s
]

-- The reply of CasHandler holds the value that it found.
abbrev pub cas_reply : Request → SmemMessage → StoreCode → Value → Reply
cas_reply req m ret found = reply_bytes req ret (pack (response m.mt found))

abbrev pub cas_new :
    Hooks → Request → SmemMessage → Key → Value → StoreCode → List Request × Server → Outcome
cas_new h req m k new ret (ws, s) = answer_and_wake h (cas_reply req m ret []) ws new s

abbrev pub cas_old : Request → SmemMessage → Key → Value → Value → Value → Server → Outcome
cas_old req m k expected new old s =
    if same_bytes expected old
    then answer (cas_reply req m (backend_put k new s.store).0 old) sm_ok
        (record s { store = (backend_put k new s.store).1 })
    else answer (cas_reply req m success old) sm_ok s

-- The compare and exchange of CasHandler, under the lock.
unfoldable pub cas_store : Hooks → Request → SmemMessage → Key → Value → Value → Server → Outcome
cas_store h req m k expected new s = elim (backend_get k s.store) [
  | some old ↦ cas_old req m k expected new old s
  | none ↦ elim expected [
    | [] ↦
        cas_new h req m k new (backend_put k new s.store).0
          (release k (record s { store = (backend_put k new s.store).1 }))
    | b ∷ bs ↦ answer (cas_reply req m success []) sm_ok s
  ]
]

unfoldable pub cas_handler : Hooks → Request → SmemMessage → Server → Outcome
cas_handler h req m s = elim (sole m.keys) [
  | none ↦ refuse req s
  | some k ↦ elim (both m.values) [
    | none ↦ refuse req s
    | some (expected, new) ↦ with_key k s (cas_store h req m k expected new s)
  ]
]

-- "WATCH_RANK_DOWN_KEY"
abbrev pub watch_rank_down_key : Key
watch_rank_down_key =
    0x57 ∷ 0x41 ∷ 0x54 ∷ 0x43 ∷ 0x48 ∷ 0x5F ∷ 0x52 ∷ 0x41 ∷ 0x4E ∷ 0x4B ∷ 0x5F ∷ 0x44 ∷ 0x4F ∷ 0x57
    ∷ 0x4E ∷ 0x5F ∷ 0x4B ∷ 0x45 ∷ 0x59 ∷ []

-- rankStateWaiters_.emplace, which keeps what it finds.
abbrev pub watch_link : Request → Server → Outcome
watch_link req s = elim (lookup ◌==◌ req.link s.rank_waiters) [
  | some r ↦ silent sm_repeat_call s
  | none ↦ silent sm_ok (record s { rank_waiters = put ◌==◌ req.link req s.rank_waiters })
]

unfoldable pub watch_handler : Request → SmemMessage → Server → Outcome
watch_handler req m s = elim (sole m.keys) [
  | none ↦ refuse req s
  | some k ↦ if same_bytes k watch_rank_down_key then watch_link req s else refuse req s
]

abbrev pub heartbeat_body : ℕ → Request → List Key → List Value → Server → Outcome
heartbeat_body now req [] [] s =
    silent sm_ok (record s { heartbeats = put ◌==◌ req.link now s.heartbeats })
heartbeat_body now req [] (v ∷ vs) s = silent sm_invalid_param s
heartbeat_body now req (k ∷ ks) vs s = silent sm_invalid_param s

unfoldable pub heartbeat_handler : ℕ → Request → SmemMessage → Server → Outcome
heartbeat_handler now req m s = heartbeat_body now req m.keys m.values s
