-- ===== src/Smem/Server/AddingLaws.antt =====
-- What an ADD request does to its key, what it replies, and whom it wakes.
use memfabric_hybrid.Base.{
  ℕ, ◌≤◌, ◌<◌, ◌≡◌, refl, sym, true, false, ◌&&◌, inl, inr, [], ◌∷◌, Option, none, some, ltb,
  length, ◌==◌, if◌then◌else◌, arith, Bool-cases, Option-cases, In, add64, u64_mod,
}
use mathlib.Core.Option.{some-injective, some-ne-none}
use memfabric_hybrid.Base.Assoc.{same_bytes, same_bytes_eq}
use memfabric_hybrid.Smem.Packer.{SmemMessage}
use memfabric_hybrid.Smem.Server.State.{
  Key, Value, Request, Server, Hooks, Outcome, success, reply_bytes, backend_get, sole,
}
use memfabric_hybrid.Smem.Server.Handlers.{max_key_len, positive}
use memfabric_hybrid.Smem.Server.Adding.{
  string_to_long, long_to_string, add_old, add_store, add_number, add_handler,
}
use memfabric_hybrid.Smem.Server.WaiterLaws.{IsWatched}
use memfabric_hybrid.Smem.Server.Watched.{filled-IsWatched, replaced-IsWatched}
use memfabric_hybrid.Smem.Server.Steps.{Quiet, execute_handle-Quiet, with_key-IsWatched}
use memfabric_hybrid.Smem.Server.Outcomes.{Fills, replaced-Fills, filled-Fills}

-- The number that a key holds: 0 for a missing key, and none for what AddHandler rejects.
abbrev pub number_of : Value → Option ℕ → Option ℕ
number_of old none = none
number_of old (some n) =
    if n == 0 && (if same_bytes old (48 ∷ []) then false else true) then none else some n

abbrev pub number_at : Option Value → Option ℕ
number_at none = some 0
number_at (some old) = number_of old (string_to_long old)

-- What AddHandler does to a number.
abbrev pub Adds : Hooks → Request → Key → Value → ℕ → Server → Outcome → Type 0
Adds h req k v sum s o =
    Fills h k (long_to_string sum) v s o
    × In (reply_bytes req success (long_to_string sum)) o.replies

add_old-Adds :
    (h : Hooks) (req : Request) (k : Key) (v old : Value) (n stored : ℕ) (o : Option ℕ) (s : Server)
    → IsWatched s
    → backend_get k s.store ≡ some old
    → number_of old o ≡ some stored
    → Adds h req k v (add64 stored n) s (add_old req k n old o s)
add_old-Adds h req k v old n stored none s w e d = absurd (some-ne-none stored (sym d))
add_old-Adds h req k v old n stored (some x) s w e d =
    elim (Bool-cases (x == 0 && (if same_bytes old (48 ∷ []) then false else true))) [
      | inl q ↦ absurd (some-ne-none stored (sym (rw q at d)))
      | inr q ↦
          let same : x ≡ stored = some-injective x stored (rw q at d) in
          rw (← same)
            (rw q (replaced-Fills h k (long_to_string (add64 x n)) old v s _ w e refl, inl refl))
    ]

add_store-Adds :
    (h : Hooks) (req : Request) (k : Key) (v : Value) (n stored : ℕ) (s : Server)
    → IsWatched s
    → n < u64_mod
    → v ≡ long_to_string n
    → number_at (backend_get k s.store) ≡ some stored
    → Adds h req k v (add64 stored n) s (add_store h req k v n s)
unfolding add_store
add_store-Adds h req k v n stored s w b c d = elim (Option-cases (backend_get k s.store)) [
  | inl e ↦
      let zero_stored : 0 ≡ stored = some-injective 0 stored (rw e at d) in
      let sum : n ≡ add64 stored n = rw (← zero_stored) (omega arith) in
      rw (← sum) (
        rw (e, add_store)
          (rw (← c) (filled-Fills h k v v s (reply_bytes req success v) _ w refl refl), inl refl))
  | inr (old, e) ↦
      rw (e, add_store) (add_old-Adds h req k v old n stored (string_to_long old) s w e (rw e at d))
]

-- An ADD of one number to one key that is not too long, with no operation handler registered, on a
-- server whose waiting requests are filed and wait for missing keys, where the number is written as
-- std::to_string writes it and the key is missing or holds a number: the key then holds the sum, where a
-- missing key counts as 0, the other keys keep theirs, the caller is told the sum, and every request
-- that waited for the key no longer waits and was sent the number if its link stands.
pub add_handler-Adds :
    (h : Hooks) (req : Request) (m : SmemMessage) (k : Key) (v : Value) (n stored : ℕ) (s : Server)
    → Quiet h
    → IsWatched s
    → sole m.keys ≡ some k
    → sole m.values ≡ some v
    → length k ≤ max_key_len
    → string_to_long v ≡ some n
    → n < u64_mod
    → v ≡ long_to_string n
    → number_at (backend_get k s.store) ≡ some stored
    → Adds h req k v (add64 stored n) s (add_handler h req m s)
unfolding add_handler
add_handler-Adds h req m k v n stored s quiet w e f b g small c d =
    let short : ltb max_key_len (length k) ≡ false = ground arith in
    let canonical : same_bytes v (long_to_string n) ≡ true =
      (same_bytes_eq v (long_to_string n)).1 c in
    let added : Adds h req k v (add64 stored n) s (add_store h req k v n s) =
      add_store-Adds h req k v n stored s w small c d in
    rw (e, add_handler)
      (rw (f, add_handler)
        (rw short (
          rw (g, add_number)
            (rw canonical (elim (Bool-cases (positive n)) [
              | inr p ↦ rw p added
              | inl p ↦ rw p (rw (execute_handle-Quiet h 2 req.link k v s.store quiet) added)
            ])))))

add_old-IsWatched :
    (req : Request) (k : Key) (old : Value) (n : ℕ) (o : Option ℕ) (s : Server)
    → IsWatched s
    → backend_get k s.store ≡ some old
    → IsWatched (add_old req k n old o s).state
add_old-IsWatched req k old n none s w e = w
add_old-IsWatched req k old n (some x) s w e =
    elim (Bool-cases (x == 0 && (if same_bytes old (48 ∷ []) then false else true))) [
      | inl q ↦ rw q w
      | inr q ↦ rw q (replaced-IsWatched k (long_to_string (add64 x n)) old s e w)
    ]

add_store-IsWatched :
    (h : Hooks) (req : Request) (k : Key) (v : Value) (n : ℕ) (s : Server)
    → IsWatched s
    → IsWatched (add_store h req k v n s).state
unfolding add_store
add_store-IsWatched h req k v n s w = elim (Option-cases (backend_get k s.store)) [
  | inl e ↦ rw (e, add_store) (filled-IsWatched k v s w)
  | inr (old, e) ↦ rw (e, add_store) (add_old-IsWatched req k old n (string_to_long old) s w e)
]

add_number-IsWatched :
    (h : Hooks) (req : Request) (k : Key) (v : Value) (o : Option ℕ) (s : Server)
    → Quiet h
    → IsWatched s
    → IsWatched (add_number h req k v o s).state
add_number-IsWatched h req k v none s quiet w = w
add_number-IsWatched h req k v (some n) s quiet w =
    elim (Bool-cases (same_bytes v (long_to_string n))) [
      | inr q ↦ rw q w
      | inl q ↦ rw q (elim (Bool-cases (positive n)) [
        | inr p ↦ rw p (add_store-IsWatched h req k v n s w)
        | inl p ↦ rw p (
            rw (execute_handle-Quiet h 2 req.link k v s.store quiet)
              (add_store-IsWatched h req k v n s w))
      ])
    ]

pub add_handler-IsWatched :
    (h : Hooks) (req : Request) (m : SmemMessage) (s : Server)
    → Quiet h
    → IsWatched s
    → IsWatched (add_handler h req m s).state
unfolding add_handler
add_handler-IsWatched h req m s quiet w = elim (Option-cases (sole m.keys)) [
  | inl e ↦ rw (e, add_handler) w
  | inr (k, e) ↦ elim (Option-cases (sole m.values)) [
    | inl f ↦ rw (e, add_handler) (rw (f, add_handler) w)
    | inr (v, f) ↦
        rw (e, add_handler)
          (rw (f, add_handler)
            (with_key-IsWatched k s (add_number h req k v (string_to_long v) s) w
              (add_number-IsWatched h req k v (string_to_long v) s quiet w)))
  ]
]
