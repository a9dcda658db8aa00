-- ===== src/Smem/Server/Exchanging.antt =====
-- What a CAS request does to the store, and what it replies.
use memfabric_hybrid.Base.{
  ◌≤◌, ◌≡◌, refl, ap, ◌∙◌, Bool, false, inl, inr, [], ◌∷◌, Option, none, some, ltb, length,
  if◌then◌else◌, arith, Bool-cases, Option-cases, In,
}
use memfabric_hybrid.Base.Assoc.{same_bytes}
use memfabric_hybrid.Smem.Packer.{SmemMessage, pack}
use memfabric_hybrid.Smem.Server.State.{
  Key, Value, Store, Request, Server, Hooks, Outcome, success, response, reply_bytes, backend_get,
  backend_put, sole, both,
}
use memfabric_hybrid.Smem.Server.StoreLaws.{get-put, get-put_same}
use memfabric_hybrid.Smem.Server.Waiters.{release}
use memfabric_hybrid.Smem.Server.Handlers.{max_key_len, cas_store, cas_handler}
use memfabric_hybrid.Smem.Server.WaiterLaws.{release-frame}
use memfabric_hybrid.Smem.Server.Outcomes.{value_or_empty}

-- The value that CAS expects is the key's, where the empty value stands for a missing key.
abbrev pub matches : Value → Option Value → Bool
matches x none = same_bytes x []
matches x (some old) = same_bytes x old

-- What CAS leaves under its key and under another one, and that its caller is sent what it found.
pub record Exchanges (req : Request) (m : SmemMessage) (k : Key) (x y : Value) (s : Server)
    (o : Outcome) : Type 0 where
  pub stored :
      backend_get k o.state.store
      ≡ (if matches x (backend_get k s.store) then some y else backend_get k s.store)
  pub others :
      (j : Key) → same_bytes k j ≡ false → backend_get j o.state.store ≡ backend_get j s.store
  pub found :
      In
        (reply_bytes req success (pack (response m.mt (value_or_empty (backend_get k s.store)))))
        o.replies

cas_store-missing :
    (h : Hooks) (req : Request) (m : SmemMessage) (k : Key) (x y : Value) (s : Server)
    → backend_get k s.store ≡ none
    → Exchanges req m k x y s (cas_store h req m k x y s)
unfolding cas_store same_bytes
cas_store-missing h req m k [] y s e =
    let t : Store = (backend_put k y s.store).1 in
    let kept : (release k (record s { store = t })).1.store ≡ t =
      (release-frame k (record s { store = t })).0 in
    record {
      stored = rw (e, cas_store) (ap (backend_get k) kept ∙ get-put_same k y s.store);
      others = λ j d. rw (e, cas_store) (ap (backend_get j) kept ∙ get-put k j y s.store ∙ (rw d));
      found = rw (e, cas_store) (inl refl);
    }
cas_store-missing h req m k (b ∷ x) y s e = record {
  stored = rw (e, cas_store) e;
  others = λ j d. rw (e, cas_store);
  found = rw (e, cas_store) (inl refl);
}

cas_store-present :
    (h : Hooks) (req : Request) (m : SmemMessage) (k : Key) (x y old : Value) (s : Server)
    → backend_get k s.store ≡ some old
    → Exchanges req m k x y s (cas_store h req m k x y s)
unfolding cas_store
cas_store-present h req m k x y old s e = elim (Bool-cases (same_bytes x old)) [
  | inl q ↦ record {
    stored = rw (e, cas_store) (rw q (get-put_same k y s.store));
    others = λ j d. rw (e, cas_store) (rw q (get-put k j y s.store ∙ (rw d)));
    found = rw (e, cas_store) (rw q (inl refl));
  }
  | inr q ↦ record {
    stored = rw (e, cas_store) (rw q e);
    others = λ j d. rw (e, cas_store) (rw q);
    found = rw (e, cas_store) (rw q (inl refl));
  }
]

-- A CAS of one key that is not too long: the new value is stored exactly when the expected value is the
-- one that the key has, where empty stands for a missing key; else the key keeps what it has. Other
-- keys keep their values, and the caller is sent the value that was found, empty for a missing key.
pub cas_handler-Exchanges :
    (h : Hooks) (req : Request) (m : SmemMessage) (k : Key) (x y : Value) (s : Server)
    → sole m.keys ≡ some k
    → both m.values ≡ some (x, y)
    → length k ≤ max_key_len
    → Exchanges req m k x y s (cas_handler h req m s)
unfolding cas_handler
cas_handler-Exchanges h req m k x y s e f b =
    let short : ltb max_key_len (length k) ≡ false = ground arith in
    rw (e, cas_handler)
      (rw (f, cas_handler)
        (rw short (elim (Option-cases (backend_get k s.store)) [
          | inl q ↦ cas_store-missing h req m k x y s q
          | inr (old, q) ↦ cas_store-present h req m k x y old s q
        ])))
