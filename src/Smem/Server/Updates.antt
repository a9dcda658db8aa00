-- ===== src/Smem/Server/Updates.antt =====
-- AppendHandler and WriteHandler.
use memfabric_hybrid.Base.{
  ℕ, zero, suc, ◌+◌, ◌-◌, ◌*◌, List, [], ◌∷◌, ◌++◌, Option, none, some, length, take, drop, ltb,
  if◌then◌else◌,
}
use memfabric_hybrid.Base.Bytes.{from_le}
use memfabric_hybrid.Smem.Packer.{SmemMessage}
use memfabric_hybrid.Smem.Server.State.{
  Key, Value, StoreCode, error, sm_ok, sm_error, sm_invalid_key, backend_get, backend_put, Request,
  Server, Outcome, op_ok, op_get_object, op_failed, OpResult, Hooks, execute_handle, reply_note,
  reply_bytes, silent, answer, sole, to_string,
}
use memfabric_hybrid.Smem.Server.Waiters.{release}
use memfabric_hybrid.Smem.Server.Handlers.{max_key_len, refuse, with_key, answer_and_wake}

-- AppendHandler behind its Put, of a value whose new size is `size`.
abbrev pub append_executed :
    Hooks → Request → Value → StoreCode → ℕ → List Request → OpResult → Server → Outcome
append_executed h req v ret size ws r s = elim r.code [
  | op_ok ↦
      answer_and_wake h (reply_bytes req ret (to_string size)) ws v (record s { store = r.store })
  | op_get_object ↦ answer (reply_note req error) sm_error (record s { store = r.store })
  | op_failed ↦ answer (reply_note req error) sm_error (record s { store = r.store })
]

abbrev pub append_put : Hooks → Request → Key → Value → Value → List Request × Server → Outcome
append_put h req k v whole (ws, s) =
    let (ret, m) = backend_put k whole s.store in
    append_executed h req v ret (length whole) ws (execute_handle h 4 req.link k v m)
      (record s { store = m })

unfoldable pub append_store : Hooks → Request → Key → Value → Server → Outcome
append_store h req k v s = elim (backend_get k s.store) [
  | some old ↦ append_put h req k v (old ++ v) ([], s)
  | none ↦ append_put h req k v v (release k s)
]

unfoldable pub append_handler : Hooks → Request → SmemMessage → Server → Outcome
append_handler h req m s = elim (sole m.keys) [
  | none ↦ refuse req s
  | some k ↦ elim (sole m.values) [
    | none ↦ refuse req s
    | some v ↦ with_key k s (append_store h req k v s)
  ]
]

unfoldable pub zeros : ℕ → Value
zeros zero = []
zeros (suc n) = 0 ∷ zeros n

-- The resize to offset + size if that is larger, and the copy of the data to the offset.
unfoldable pub overwrite : ℕ → Value → Value → Value
unfolding zeros
overwrite offset data_bytes old =
    let grown : Value = old ++ zeros (offset + length data_bytes - length old) in
    take offset grown ++ (data_bytes ++ drop (offset + length data_bytes) grown)

abbrev pub write_executed : Request → Key → Value → OpResult → Server → Outcome
write_executed req k whole r s = elim r.code [
  | op_ok ↦
      answer (reply_note req (backend_put k whole r.store).0) sm_ok
        (record s { store = (backend_put k whole r.store).1 })
  | op_get_object ↦ answer (reply_note req error) sm_error (record s { store = r.store })
  | op_failed ↦ answer (reply_note req error) sm_error (record s { store = r.store })
]

abbrev pub write_over : Hooks → Request → Key → Value → ℕ → Value → Value → Server → Outcome
write_over h req k v offset data_bytes old s =
    write_executed req k (overwrite offset data_bytes old) (execute_handle h 6 req.link k v s.store)
      s

-- A missing key first becomes a vector of zeros.
unfoldable pub write_store : Hooks → Request → Key → Value → ℕ → Value → Server → Outcome
unfolding zeros
write_store h req k v offset data_bytes s = elim (backend_get k s.store) [
  | some old ↦ write_over h req k v offset data_bytes old s
  | none ↦
      let fresh : Value = zeros (offset + length data_bytes) in
      write_over h req k v offset data_bytes fresh
        (record s { store = (backend_put k fresh s.store).1 })
]

-- The offset is the first four bytes of the value: `none` is the read behind a shorter one.
unfoldable pub write_handler : Hooks → Request → SmemMessage → Server → Option Outcome
write_handler h req m s = elim (sole m.keys) [
  | none ↦ some (refuse req s)
  | some k ↦ elim (sole m.values) [
    | none ↦ some (refuse req s)
    | some v ↦
        if ltb max_key_len (length k)
        then some (silent sm_invalid_key s)
        else if ltb (length v) 4
        then none
        else if ltb (65535 * (length v - 4)) (from_le (take 4 v))
        then some (silent sm_invalid_key s)
        else some (write_store h req k v (from_le (take 4 v)) (drop 4 v) s)
  ]
]
