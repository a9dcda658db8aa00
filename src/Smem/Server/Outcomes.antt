-- ===== src/Smem/Server/Outcomes.antt =====
-- What SET and APPEND requests do to the store, what they reply, and whom they wake.
use memfabric_hybrid.Base.{
  ℕ, ◌≤◌, ◌≡◌, refl, sym, ap, ◌∙◌, true, false, inl, inr, [], ◌∷◌, ◌++◌, Option, none, some, ltb,
  length, arith, Option-cases, In,
}
use mathlib.Core.Option.{some-ne-none}
use memfabric_hybrid.Base.Assoc.{same_bytes}
use memfabric_hybrid.Smem.Packer.{SmemMessage, pack}
use memfabric_hybrid.Smem.Server.State.{
  Key, Value, Request, Waiter, Server, Hooks, Outcome, success, response, reply_bytes, reply_note,
  backend_get, backend_put, sole, Reply, to_string,
}
use memfabric_hybrid.Smem.Server.StoreLaws.{get-put, get-put_same}
use memfabric_hybrid.Smem.Server.Waiters.{release, wakeup}
use memfabric_hybrid.Smem.Server.Handlers.{max_key_len, set_store, set_handler}
use memfabric_hybrid.Smem.Server.Updates.{append_store, append_handler}
use memfabric_hybrid.Smem.Server.Ranks.{member}
use memfabric_hybrid.Smem.Server.WaiterLaws.{
  context, waiters_of, IsWatched, release-contexts, release-frame, release-requests, In-wakeup,
}
use memfabric_hybrid.Smem.Server.Steps.{Quiet, execute_handle-Quiet}

-- k was set to v, and who waited for k was told the value `told`.
pub record Fills (h : Hooks) (k : Key) (v told : Value) (s : Server) (o : Outcome) : Type 0 where
  pub stored : backend_get k o.state.store ≡ some v
  pub others :
      (j : Key) → same_bytes k j ≡ false → backend_get j o.state.store ≡ backend_get j s.store
  pub released :
      (id : ℕ) (w : Waiter) → context id s ≡ some w → w.key ≡ k → context id o.state ≡ none
  pub woken :
      (id : ℕ) (w : Waiter)
      → context id s ≡ some w
      → w.key ≡ k
      → h.established w.request.link ≡ true
      → In (reply_bytes w.request success (pack (response 1 told))) o.replies

-- A handler that stores k where it was stored already: nobody waited.
pub replaced-Fills :
    (h : Hooks) (k : Key) (v old told : Value) (s : Server) (o : Outcome)
    → IsWatched s
    → backend_get k s.store ≡ some old
    → o.state ≡ record s { store = (backend_put k v s.store).1 }
    → Fills h k v told s o
replaced-Fills h k v old told s o w e q =
    let idle : (id : ℕ) (x : Waiter) → context id s ≡ some x → x.key ≡ k → some old ≡ none =
      λ id x f g. sym e ∙ ap (λ j. backend_get j s.store) (sym g) ∙ w.missing id x f in
    record {
      stored = rw q (get-put_same k v s.store);
      others = λ j d. rw q (get-put k j v s.store ∙ (rw d));
      released = λ id x f g. absurd (some-ne-none old (idle id x f g));
      woken = λ id x f g l. absurd (some-ne-none old (idle id x f g));
    }

-- A handler that stores k where it was missing, and takes its waiters out.
pub filled-Fills :
    (h : Hooks) (k : Key) (v told : Value) (s : Server) (a : Reply) (o : Outcome)
    → IsWatched s
    → o.state ≡ record (release k s).1 { store = (backend_put k v (release k s).1.store).1 }
    → o.replies ≡ a ∷ wakeup h (release k s).0 told
    → Fills h k v told s o
filled-Fills h k v told s a o w q r =
    let (kept, next, filed) = release-frame k s in
    let listed : (id : ℕ) (x : Waiter)
        → context id s ≡ some x
        → x.key ≡ k
        → member id (waiters_of k s) ≡ true =
      λ id x f g. ap (λ j. member id (waiters_of j s)) (sym g) ∙ w.listed id x f in
    record {
      stored = rw q (get-put_same k v (release k s).1.store);
      others = λ j d. rw q (get-put k j v (release k s).1.store ∙ (rw (d, kept)));
      released = λ id x f g. rw q (release-contexts k s id ∙ (rw (listed id x f g)));
      woken = λ id x f g l. rw r (
          inr (
            In-wakeup h x.request (release k s).0 told
              (release-requests k s id x f (listed id x f g)) l));
    }

set_store-Fills :
    (h : Hooks) (req : Request) (k : Key) (v : Value) (s : Server)
    → IsWatched s
    → Fills h k v v s (set_store h req k v s)
      × In (reply_note req success) (set_store h req k v s).replies
unfolding set_store
set_store-Fills h req k v s w = elim (Option-cases (backend_get k s.store)) [
  | inl e ↦
      rw (e, set_store) (filled-Fills h k v v s (reply_note req success) _ w refl refl, inl refl)
  | inr (old, e) ↦ rw (e, set_store) (replaced-Fills h k v old v s _ w e refl, inl refl)
]

-- A SET of one key that is not too long to one value, with no operation handler registered, on a server
-- whose waiting requests are filed and wait for missing keys: the key then has the value and the other
-- keys theirs, the caller is told of success, and every request that waited for the key no longer
-- waits and was sent the value if its link stands.
pub set_handler-Fills :
    (h : Hooks) (req : Request) (m : SmemMessage) (k : Key) (v : Value) (s : Server)
    → Quiet h
    → IsWatched s
    → sole m.keys ≡ some k
    → sole m.values ≡ some v
    → length k ≤ max_key_len
    → Fills h k v v s (set_handler h req m s)
      × In (reply_note req success) (set_handler h req m s).replies
unfolding set_handler
set_handler-Fills h req m k v s quiet w e f b =
    let short : ltb max_key_len (length k) ≡ false = ground arith in
    rw (e, set_handler)
      (rw (f, set_handler)
        (rw short (
          rw (execute_handle-Quiet h 0 req.link k v s.store quiet)
            (set_store-Fills h req k v s w))))

-- The value of a key, empty where it is missing.
abbrev pub value_or_empty : Option Value → Value
value_or_empty none = []
value_or_empty (some v) = v

append_store-Fills :
    (h : Hooks) (req : Request) (k : Key) (v : Value) (s : Server)
    → Quiet h
    → IsWatched s
    → Fills h k (value_or_empty (backend_get k s.store) ++ v) v s (append_store h req k v s)
      × In
          (reply_bytes req success
            (to_string (length (value_or_empty (backend_get k s.store) ++ v))))
          (append_store h req k v s).replies
unfolding append_store
append_store-Fills h req k v s quiet w = elim (Option-cases (backend_get k s.store)) [
  | inr (old, e) ↦
      rw (e, append_store)
        (rw (execute_handle-Quiet h 4 req.link k v (backend_put k (old ++ v) s.store).1 quiet)
          (replaced-Fills h k (old ++ v) old v s _ w e refl, inl refl))
  | inl e ↦
      rw (e, append_store)
        (rw (execute_handle-Quiet h 4 req.link k v (backend_put k v (release k s).1.store).1 quiet)
          (
            filled-Fills h k v v s (reply_bytes req success (to_string (length v))) _ w refl refl,
            inl refl,
          ))
]

-- An APPEND of one value to one key that is not too long, with no operation handler registered, on a
-- server whose waiting requests are filed and wait for missing keys: the key then has its old value,
-- empty if it was missing, with the new one behind it, the other keys keep theirs, the caller is told the
-- new length, and every request that waited for the key no longer waits and was sent the value if its
-- link stands.
pub append_handler-Fills :
    (h : Hooks) (req : Request) (m : SmemMessage) (k : Key) (v : Value) (s : Server)
    → Quiet h
    → IsWatched s
    → sole m.keys ≡ some k
    → sole m.values ≡ some v
    → length k ≤ max_key_len
    → Fills h k (value_or_empty (backend_get k s.store) ++ v) v s (append_handler h req m s)
      × In
          (reply_bytes req success
            (to_string (length (value_or_empty (backend_get k s.store) ++ v))))
          (append_handler h req m s).replies
unfolding append_handler
append_handler-Fills h req m k v s quiet w e f b =
    let short : ltb max_key_len (length k) ≡ false = ground arith in
    rw (e, append_handler)
      (rw (f, append_handler) (rw short (append_store-Fills h req k v s quiet w)))
