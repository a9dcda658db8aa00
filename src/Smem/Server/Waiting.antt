-- ===== src/Smem/Server/Waiting.antt =====
-- A GET that begins to wait is filed under its key.
use memfabric_hybrid.Base.{
  ℕ, ◌+◌, ◌<◌, ◌%◌, ◌≡◌, ◌⊎◌, sym, ap, ◌∙◌, true, inl, inr, ◌∷◌, none, some, ◌==◌, ==_iff,
  if◌then◌else◌, arith, Bool-cases, u64_mod,
}
use mathlib.Core.Option.{some-injective}
use memfabric_hybrid.Base.Assoc.{lookup, same_bytes, same_bytes_eq, same_refl, lookup-put}
use memfabric_hybrid.Smem.Server.State.{Key, Request, Waiter, Server, backend_get}
use memfabric_hybrid.Smem.Server.Handlers.{wait_for, ids_of}
use memfabric_hybrid.Smem.Server.Ranks.{member}
use memfabric_hybrid.Smem.Server.WaiterLaws.{context, waiters_of, IsWatched}

wait_for-listed :
    (now user : ℕ) (req : Request) (k : Key) (s : Server) (id : ℕ) (w : Waiter)
    → IsWatched s
    → context id (wait_for now req k user s) ≡ some w
    → (member id (waiters_of w.key (wait_for now req k user s)) ≡ true)
      × ((k ≡ w.key) ⊎ (context id s ≡ some w))
      × (id < s.next_id + 1)
unfolding wait_for member
wait_for-listed now user req k s id w h e =
    let new : Waiter = record { deadline = (now + user) % u64_mod; key = k; request = req } in
    let found : context id (wait_for now req k user s)
        ≡ (if s.next_id == id then some new else context id s) =
      lookup-put ◌==◌ ==_iff s.next_id id new s.contexts in
    let listing : (j : Key)
        → waiters_of j (wait_for now req k user s)
          ≡ ids_of (
              if same_bytes k j
              then some (s.next_id ∷ waiters_of k s)
              else lookup same_bytes j s.key_waiters) =
      λ j.
        ap ids_of
          (lookup-put same_bytes same_bytes_eq k j (s.next_id ∷ waiters_of k s) s.key_waiters) in
    elim (Bool-cases (s.next_id == id)) [
      | inl q ↦
          let same : new ≡ w = some-injective new w (sym (found ∙ (rw q)) ∙ e) in
          let key : k ≡ w.key = ap (λ (x : Waiter). x.key) same in
          (
            rw (← key)
                (ap (member id) (listing k) ∙ (rw (same_refl same_bytes same_bytes_eq k) (rw q))),
            inl key,
            ground arith,
          )
      | inr q ↦
          let old : context id s ≡ some w = sym (found ∙ (rw q)) ∙ e in
          (
            ap (member id) (listing w.key) ∙ (elim (Bool-cases (same_bytes k w.key)) [
              | inr d ↦ rw d (h.listed id w old)
              | inl d ↦ rw d (
                  rw q (
                    ap (λ j. member id (waiters_of j s)) ((same_bytes_eq k w.key).0 d)
                    ∙ h.listed id w old))
            ]),
            inr old,
            omega (arith, h.given id w old),
          )
    ]

pub wait_for-IsWatched :
    (now user : ℕ) (req : Request) (k : Key) (s : Server)
    → IsWatched s
    → backend_get k s.store ≡ none
    → IsWatched (wait_for now req k user s)
unfolding wait_for
wait_for-IsWatched now user req k s h q = record {
  listed = λ id w e. (wait_for-listed now user req k s id w h e).0;
  missing = λ id w e. elim ((wait_for-listed now user req k s id w h e).1) [
    | inl same ↦ rw (← same) q
    | inr old ↦ h.missing id w old
  ];
  given = λ id w e. (wait_for-listed now user req k s id w h e).2;
}
