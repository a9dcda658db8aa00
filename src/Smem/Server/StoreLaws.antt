-- ===== src/Smem/Server/StoreLaws.antt =====
-- What the local memory backend returns after a put and after a delete.
use memfabric_hybrid.Base.{
  ◌≡◌, ◌∙◌, none, some, if◌then◌else◌, Option-cases, Bool-cases, ap, sym, inl, inr,
}
use memfabric_hybrid.Base.Assoc.{
  lookup, put, same_bytes, same_bytes_eq, same_refl, lookup-put, lookup-remove,
}
use memfabric_hybrid.Smem.Server.State.{Key, Value, Store, backend_get, backend_delete}

pub get-put :
    (k l : Key) (v : Value) (m : Store)
    → backend_get l (put same_bytes k v m) ≡ (if same_bytes k l then some v else backend_get l m)
get-put k l v m = lookup-put same_bytes same_bytes_eq k l v m

pub get-put_same : (k : Key) (v : Value) (m : Store) → backend_get k (put same_bytes k v m) ≡ some v
get-put_same k v m = get-put k k v m ∙ rw (same_refl same_bytes same_bytes_eq k)

pub get-delete :
    (k l : Key) (m : Store)
    → backend_get l (backend_delete k m).1 ≡ (if same_bytes k l then none else backend_get l m)
get-delete k l m = elim (Option-cases (lookup same_bytes k m)) [
  | inl e ↦
      rw (e, backend_delete)
        (elim (Bool-cases (same_bytes k l)) [
          | inl q ↦ rw q (ap (λ x. backend_get x m) (sym ((same_bytes_eq k l).0 q)) ∙ e)
          | inr q ↦ rw q
        ])
  | inr (v, e) ↦ rw (e, backend_delete) (lookup-remove same_bytes same_bytes_eq k l m)
]
