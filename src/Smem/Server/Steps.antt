-- ===== src/Smem/Server/Steps.antt =====
-- The server's steps that keep every request watched, and what it reaches by them.
use memfabric_hybrid.Base.{
  ℕ, ◌≡◌, inl, inr, List, [], ◌∷◌, ◌++◌, none, some, ltb, length, ◌==◌, Bool-cases, Option-cases,
}
use memfabric_hybrid.Base.Assoc.{same_bytes}
use memfabric_hybrid.Smem.Packer.{SmemMessage}
use memfabric_hybrid.Smem.Server.State.{
  Key, Value, Store, Request, Server, Hooks, Outcome, backend_get, backend_put, execute_handle,
  sole, both, op_ok,
}
use memfabric_hybrid.Smem.Server.Waiters.{release}
use memfabric_hybrid.Smem.Server.Handlers.{
  max_key_len, with_key, set_store, set_executed, set_handler, get_missing, get_plain,
  remove_handler, remove_key, remove_store, cas_old, cas_store, cas_handler,
}
use memfabric_hybrid.Smem.Server.Updates.{append_store, append_handler}
use memfabric_hybrid.Smem.Server.WaiterLaws.{IsWatched}
use memfabric_hybrid.Smem.Server.Watched.{
  filled-IsWatched, filled_first-IsWatched, replaced-IsWatched, deleted-IsWatched,
}
use memfabric_hybrid.Smem.Server.Waiting.{wait_for-IsWatched}

-- No operation handler is registered.
abbrev pub Quiet : Hooks → Type 0
Quiet h = (op : ℕ) → h.op_handlers op ≡ none

pub execute_handle-Quiet :
    (h : Hooks) (op link : ℕ) (k : Key) (v : Value) (m : Store)
    → Quiet h
    → execute_handle h op link k v m ≡ record { code = op_ok; value = v; store = m }
unfolding execute_handle
execute_handle-Quiet h op link k v m quiet = rw (quiet op, execute_handle)

pub with_key-IsWatched :
    (k : Key) (s : Server) (o : Outcome)
    → IsWatched s
    → IsWatched o.state
    → IsWatched (with_key k s o).state
with_key-IsWatched k s o a b = elim (Bool-cases (ltb max_key_len (length k))) [
  | inl e ↦ rw e a
  | inr e ↦ rw e b
]

set_store-IsWatched :
    (h : Hooks) (req : Request) (k : Key) (v : Value) (s : Server)
    → IsWatched s
    → IsWatched (set_store h req k v s).state
unfolding set_store
set_store-IsWatched h req k v s w = elim (Option-cases (backend_get k s.store)) [
  | inl e ↦ rw (e, set_store) (filled-IsWatched k v s w)
  | inr (old, e) ↦ rw (e, set_store) (replaced-IsWatched k v old s e w)
]

pub set_handler-IsWatched :
    (h : Hooks) (req : Request) (m : SmemMessage) (s : Server)
    → Quiet h
    → IsWatched s
    → IsWatched (set_handler h req m s).state
unfolding set_handler
set_handler-IsWatched h req m s quiet w = elim (Option-cases (sole m.keys)) [
  | inl e ↦ rw (e, set_handler) w
  | inr (k, e) ↦ elim (Option-cases (sole m.values)) [
    | inl f ↦ rw (e, set_handler) (rw (f, set_handler) w)
    | inr (v, f) ↦
        rw (e, set_handler)
          (rw (f, set_handler)
            (with_key-IsWatched k s
              (set_executed h req k (execute_handle h 0 req.link k v s.store) s) w
              (rw (execute_handle-Quiet h 0 req.link k v s.store quiet)
                (set_store-IsWatched h req k v s w))))
  ]
]

pub get_plain-IsWatched :
    (h : Hooks) (now : ℕ) (req : Request) (m : SmemMessage) (k : Key) (s : Server)
    → Quiet h
    → IsWatched s
    → IsWatched (get_plain h now req m k s).state
unfolding get_plain get_missing
get_plain-IsWatched h now req m k s quiet w = elim (Option-cases (backend_get k s.store)) [
  | inr (v, e) ↦ rw (e, get_plain) w
  | inl e ↦
      rw (e, get_plain)
        (rw (execute_handle-Quiet h 1 req.link k [] s.store quiet)
          (elim (Bool-cases (m.user_def == 0)) [
            | inl q ↦ rw q w
            | inr q ↦ rw q (wait_for-IsWatched now m.user_def req k s w e)
          ]))
]

remove_store-IsWatched :
    (req : Request) (k : Key) (s : Server) → IsWatched s → IsWatched (remove_store req k s).state
unfolding remove_store
remove_store-IsWatched req k s w = elim (Option-cases (backend_get k s.store)) [
  | inl q ↦ rw (q, remove_store) w
  | inr (v, q) ↦ rw (q, remove_store) (deleted-IsWatched k s w)
]

remove_key-IsWatched :
    (req : Request) (k : Key) (vs : List Value) (s : Server)
    → IsWatched s
    → IsWatched (remove_key req k vs s).state
remove_key-IsWatched req k [] s w =
    with_key-IsWatched k s (remove_store req k s) w (remove_store-IsWatched req k s w)
remove_key-IsWatched req k (v ∷ vs) s w = w

pub remove_handler-IsWatched :
    (req : Request) (m : SmemMessage) (s : Server)
    → IsWatched s
    → IsWatched (remove_handler req m s).state
unfolding remove_handler
remove_handler-IsWatched req m s w = elim (Option-cases (sole m.keys)) [
  | inl e ↦ rw (e, remove_handler) w
  | inr (k, e) ↦ rw (e, remove_handler) (remove_key-IsWatched req k m.values s w)
]

exchanged :
    (h : Hooks) (req : Request) (m : SmemMessage) (k : Key) (expected new old : Value) (s : Server)
    → backend_get k s.store ≡ some old
    → IsWatched s
    → IsWatched (cas_old req m k expected new old s).state
exchanged h req m k expected new old s e w = elim (Bool-cases (same_bytes expected old)) [
  | inl q ↦ rw q (replaced-IsWatched k new old s e w)
  | inr q ↦ rw q w
]

cas_store-IsWatched :
    (h : Hooks) (req : Request) (m : SmemMessage) (k : Key) (expected new : Value) (s : Server)
    → IsWatched s
    → IsWatched (cas_store h req m k expected new s).state
unfolding cas_store
cas_store-IsWatched h req m k [] new s w = elim (Option-cases (backend_get k s.store)) [
  | inr (old, e) ↦ rw (e, cas_store) (exchanged h req m k [] new old s e w)
  | inl e ↦ rw (e, cas_store) (filled_first-IsWatched k new s w)
]
cas_store-IsWatched h req m k (b ∷ bs) new s w = elim (Option-cases (backend_get k s.store)) [
  | inr (old, e) ↦ rw (e, cas_store) (exchanged h req m k (b ∷ bs) new old s e w)
  | inl e ↦ rw (e, cas_store) w
]

pub cas_handler-IsWatched :
    (h : Hooks) (req : Request) (m : SmemMessage) (s : Server)
    → IsWatched s
    → IsWatched (cas_handler h req m s).state
unfolding cas_handler
cas_handler-IsWatched h req m s w = elim (Option-cases (sole m.keys)) [
  | inl e ↦ rw (e, cas_handler) w
  | inr (k, e) ↦ elim (Option-cases (both m.values)) [
    | inl f ↦ rw (e, cas_handler) (rw (f, cas_handler) w)
    | inr ((x, y), f) ↦
        rw (e, cas_handler)
          (rw (f, cas_handler)
            (with_key-IsWatched k s (cas_store h req m k x y s) w
              (cas_store-IsWatched h req m k x y s w)))
  ]
]

append_store-IsWatched :
    (h : Hooks) (req : Request) (k : Key) (v : Value) (s : Server)
    → Quiet h
    → IsWatched s
    → IsWatched (append_store h req k v s).state
unfolding append_store
append_store-IsWatched h req k v s quiet w = elim (Option-cases (backend_get k s.store)) [
  | inr (old, e) ↦
      rw (e, append_store)
        (rw (execute_handle-Quiet h 4 req.link k v (backend_put k (old ++ v) s.store).1 quiet)
          (replaced-IsWatched k (old ++ v) old s e w))
  | inl e ↦
      rw (e, append_store)
        (rw (execute_handle-Quiet h 4 req.link k v (backend_put k v (release k s).1.store).1 quiet)
          (filled-IsWatched k v s w))
]

pub append_handler-IsWatched :
    (h : Hooks) (req : Request) (m : SmemMessage) (s : Server)
    → Quiet h
    → IsWatched s
    → IsWatched (append_handler h req m s).state
unfolding append_handler
append_handler-IsWatched h req m s quiet w = elim (Option-cases (sole m.keys)) [
  | inl e ↦ rw (e, append_handler) w
  | inr (k, e) ↦ elim (Option-cases (sole m.values)) [
    | inl f ↦ rw (e, append_handler) (rw (f, append_handler) w)
    | inr (v, f) ↦
        rw (e, append_handler)
          (rw (f, append_handler)
            (with_key-IsWatched k s (append_store h req k v s) w
              (append_store-IsWatched h req k v s quiet w)))
  ]
]
