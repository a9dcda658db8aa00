-- ===== src/Smem/Server/Watched.antt =====
-- No request waits for a key that is stored: every handler but WriteHandler keeps it so.
use memfabric_hybrid.Base.{
  ℕ, ◌<◌, ◌≡◌, sym, ap, subst, ◌∙◌, true, false, inl, inr, some, Bool-cases,
}
use mathlib.Core.Option.{some-ne-none}
use mathlib.Core.Bool.{false≢true}
use memfabric_hybrid.Base.Assoc.{same_bytes, same_bytes_eq}
use memfabric_hybrid.Smem.Server.State.{
  Key, Value, Waiter, Server, backend_get, backend_put, backend_delete,
}
use memfabric_hybrid.Smem.Server.StoreLaws.{get-put, get-delete}
use memfabric_hybrid.Smem.Server.Waiters.{release}
use memfabric_hybrid.Smem.Server.Ranks.{member}
use memfabric_hybrid.Smem.Server.WaiterLaws.{
  context, waiters_of, IsWatched, release-contexts, release-frame,
}

-- Who still waits after the waiters of k were taken out, where every request is filed under its key.
survivors :
    (k : Key) (s : Server) (id : ℕ) (w : Waiter)
    → ((i : ℕ) (x : Waiter) → context i s ≡ some x → member i (waiters_of x.key s) ≡ true)
    → context id (release k s).1 ≡ some w
    → (context id s ≡ some w) × (same_bytes k w.key ≡ false)
survivors k s id w filed e = elim (Bool-cases (member id (waiters_of k s))) [
  | inl q ↦ absurd (some-ne-none w (sym (sym (release-contexts k s id ∙ (rw q)) ∙ e)))
  | inr q ↦
      let old : context id s ≡ some w = sym (release-contexts k s id ∙ (rw q)) ∙ e in
      (
        old,
        elim (Bool-cases (same_bytes k w.key)) [
          | inr d ↦ d
          | inl d ↦ absurd (
              false≢true (
                sym q
                ∙ ap (λ j. member id (waiters_of j s)) ((same_bytes_eq k w.key).0 d)
                ∙ filed id w old))
        ],
      )
]

-- The store with k put, and the waiters of k taken out.
pub filled-IsWatched :
    (k : Key) (v : Value) (s : Server)
    → IsWatched s
    → IsWatched (record (release k s).1 { store = (backend_put k v (release k s).1.store).1 })
filled-IsWatched k v s h =
    let (stored, next, others) = release-frame k s in
    record {
      listed = λ id w e.
          let (old, apart) = survivors k s id w h.listed e in
          ap (member id) (others w.key apart) ∙ h.listed id w old;
      missing = λ id w e.
          let (old, apart) = survivors k s id w h.listed e in
          get-put k w.key v (release k s).1.store ∙ (rw (apart, stored) (h.missing id w old));
      given =
          λ id w e. subst (λ n. id < n) (sym next) (h.given id w (survivors k s id w h.listed e).0);
    }

-- The same in the order of CasHandler.
pub filled_first-IsWatched :
    (k : Key) (v : Value) (s : Server)
    → IsWatched s
    → IsWatched (release k (record s { store = (backend_put k v s.store).1 })).1
filled_first-IsWatched k v s h =
    let s1 : Server = record s { store = (backend_put k v s.store).1 } in
    let (stored, next, others) = release-frame k s1 in
    record {
      listed = λ id w e.
          let (old, apart) = survivors k s1 id w h.listed e in
          ap (member id) (others w.key apart) ∙ h.listed id w old;
      missing = λ id w e.
          let (old, apart) = survivors k s1 id w h.listed e in
          ap (backend_get w.key) stored
          ∙ get-put k w.key v s.store
          ∙ (rw apart (h.missing id w old));
      given = λ id w e.
          subst (λ n. id < n) (sym next) (h.given id w (survivors k s1 id w h.listed e).0);
    }

-- A stored key can be stored again, and any key deleted, with no one waiting for it.
pub replaced-IsWatched :
    (k : Key) (v old : Value) (s : Server)
    → backend_get k s.store ≡ some old
    → IsWatched s
    → IsWatched (record s { store = (backend_put k v s.store).1 })
replaced-IsWatched k v old s q h = record {
  listed = h.listed;
  missing = λ id w e. get-put k w.key v s.store ∙ (elim (Bool-cases (same_bytes k w.key)) [
    | inr d ↦ rw d (h.missing id w e)
    | inl d ↦ absurd (
        some-ne-none old (
          sym q ∙ ap (λ j. backend_get j s.store) ((same_bytes_eq k w.key).0 d) ∙ h.missing id w e))
  ]);
  given = h.given;
}

pub deleted-IsWatched :
    (k : Key) (s : Server)
    → IsWatched s
    → IsWatched (record s { store = (backend_delete k s.store).1 })
deleted-IsWatched k s h = record {
  listed = h.listed;
  missing = λ id w e.
      get-delete k w.key s.store
      ∙ (elim (Bool-cases (same_bytes k w.key)) [ inr d ↦ rw d (h.missing id w e) | inl d ↦ rw d ]);
  given = h.given;
}
