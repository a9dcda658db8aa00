-- ===== src/Smem/Client/Replies.antt =====
-- The first reply of each handler, the map that it leaves, and that no wakeup is lost.
use memfabric_hybrid.Base.{
  ℕ, ◌≤◌, ◌≡◌, refl, sym, ap, ◌∙◌, inl, inr, false, [], ◌∷◌, ◌++◌, Option, none, some, length, take,
  ltb, add64, arith, Bool-cases, Option-cases,
}
use memfabric_hybrid.Base.Assoc.{same_bytes, same_bytes_eq}
use memfabric_hybrid.Smem.Packer.{SmemMessage, pack}
use memfabric_hybrid.Smem.Server.State.{
  Key, Value, success, invalid_message, not_exist, backend_get, backend_put, Server, Request, Reply,
  Hooks, Outcome, reply_note, reply_bytes, response, to_string,
}
use memfabric_hybrid.Smem.Server.StoreLaws.{get-delete}
use memfabric_hybrid.Smem.Server.Waiters.{release}
use memfabric_hybrid.Smem.Server.Handlers.{
  max_key_len, set_store, set_handler, get_plain, get_missing, remove_store, remove_handler,
}
use memfabric_hybrid.Smem.Server.Updates.{append_store, append_handler}
use memfabric_hybrid.Smem.Server.Adding.{long_to_string}
use memfabric_hybrid.Smem.Server.Ranks.{get_handler, auto_ranking}
use memfabric_hybrid.Smem.Server.WaiterLaws.{IsWatched}
use memfabric_hybrid.Smem.Server.Steps.{
  Quiet, execute_handle-Quiet, set_handler-IsWatched, remove_handler-IsWatched,
  append_handler-IsWatched,
}
use memfabric_hybrid.Smem.Server.Outcomes.{
  value_or_empty, Fills, set_handler-Fills, append_handler-Fills,
}
use memfabric_hybrid.Smem.Client.{request_of, get_request}
use memfabric_hybrid.Smem.Client.Serving.{FirstReply}
use memfabric_hybrid.Smem.Client.Calls.{View, view_of, update, forget}

-- What a handler did: its first reply, and the map that it left.
pub record Served (a : Reply) (f : View) (o : Outcome) : Type 0 where
  pub first : FirstReply a o
  pub view : view_of o.state ≡ f
  pub watched : IsWatched o.state

-- A map that has the value at the key, and the old ones elsewhere.
pub update_view :
    (k : Key) (v : Value) (s t : Server)
    → backend_get k t.store ≡ some v
    → ((j : Key) → same_bytes k j ≡ false → backend_get j t.store ≡ backend_get j s.store)
    → view_of t ≡ update k v (view_of s)
update_view k v s t here there = λ i j. point j i
  where
    point : (j : Key) → view_of t j ≡ update k v (view_of s) j
    point j = elim (Bool-cases (same_bytes k j)) [
      | inl e ↦ rw e (ap (λ x. backend_get x t.store) (sym ((same_bytes_eq k j).0 e)) ∙ here)
      | inr e ↦ rw e (there j e)
    ]

abbrev pub get_reply : Request → Option Value → Reply
get_reply req none = reply_note req not_exist
get_reply req (some v) = reply_bytes req success (pack (response 1 v))

abbrev pub remove_reply : Request → Option Value → Reply
remove_reply req none = reply_note req not_exist
remove_reply req (some v) = reply_note req success

abbrev pub add_reply : Request → ℕ → Option ℕ → Reply
add_reply req n none = reply_note req invalid_message
add_reply req n (some stored) = reply_bytes req success (long_to_string (add64 stored n))

forget_view :
    (k : Key) (s : Server) → backend_get k s.store ≡ none → view_of s ≡ forget k (view_of s)
forget_view k s e = λ i j. point j i
  where
    point : (j : Key) → view_of s j ≡ forget k (view_of s) j
    point j = elim (Bool-cases (same_bytes k j)) [
      | inl q ↦ rw q (ap (λ x. backend_get x s.store) (sym ((same_bytes_eq k j).0 q)) ∙ e)
      | inr q ↦ rw q
    ]

module _ (h : Hooks) (req : Request) (k : Key) (s : Server) (quiet : Quiet h) (w : IsWatched s)
    (short : length k ≤ max_key_len) where
  fits : ltb max_key_len (length k) ≡ false
  fits = ground arith

  set_store-first : (v : Value) → FirstReply (reply_note req success) (set_store h req k v s)
  unfolding set_store
  set_store-first v = elim (Option-cases (backend_get k s.store)) [
    | inl e ↦ rw (e, set_store) (_, refl)
    | inr (old, e) ↦ rw (e, set_store) (_, refl)
  ]

  pub set-Served :
      (v : Value)
      → Served
          (reply_note req success)
          (update k v (view_of s))
          (set_handler h req (request_of 0 k (v ∷ [])) s)
  unfolding set_handler
  set-Served v =
      let m : SmemMessage = request_of 0 k (v ∷ []) in
      let filled : Fills h k v v s (set_handler h req m s) =
        (set_handler-Fills h req m k v s quiet w refl refl short).0 in
      record {
        first =
            rw fits (rw (execute_handle-Quiet h 0 req.link k v s.store quiet) (set_store-first v));
        view = update_view k v s (set_handler h req m s).state filled.stored filled.others;
        watched = set_handler-IsWatched h req m s quiet w;
      }

  get-first :
      (now : ℕ)
      → FirstReply
          (get_reply req (backend_get k s.store))
          (get_plain h now req (get_request k 0) k s)
        × ((get_plain h now req (get_request k 0) k s).state ≡ s)
  unfolding get_plain get_missing
  get-first now = elim (Option-cases (backend_get k s.store)) [
    | inr (v, e) ↦ rw (e, get_plain) ((_, refl), refl)
    | inl e ↦
        rw (e, get_plain)
          (rw (execute_handle-Quiet h 1 req.link k [] s.store quiet) ((_, refl), refl))
  ]

  pub get-Served :
      (now : ℕ)
      → same_bytes (take 12 k) auto_ranking ≡ false
      → Served
          (get_reply req (backend_get k s.store))
          (view_of s)
          (get_plain h now req (get_request k 0) k s)
        × (get_handler h now req (get_request k 0) s
            ≡ some (get_plain h now req (get_request k 0) k s))
  unfolding get_handler
  get-Served now plain_key =
      let (first, same) = get-first now in
      (
        record { first = first; view = ap view_of same; watched = rw same w },
        rw fits (rw plain_key),
      )

  remove-first :
      FirstReply (remove_reply req (backend_get k s.store)) (remove_store req k s)
      × (view_of (remove_store req k s).state ≡ forget k (view_of s))
  unfolding remove_store
  remove-first = elim (Option-cases (backend_get k s.store)) [
    | inr (v, e) ↦ rw (e, remove_store) ((_, refl), λ i j. get-delete k j s.store i)
    | inl e ↦ rw (e, remove_store) ((_, refl), forget_view k s e)
  ]

  pub remove-Served :
      Served
        (remove_reply req (backend_get k s.store))
        (forget k (view_of s))
        (remove_handler req (request_of 3 k []) s)
  unfolding remove_handler
  remove-Served = record {
    first = rw fits (remove-first.0);
    view = rw fits (remove-first.1);
    watched = remove_handler-IsWatched req (request_of 3 k []) s w;
  }

  append_store-first :
      (v : Value)
      → FirstReply
          (reply_bytes req success
            (to_string (length (value_or_empty (backend_get k s.store) ++ v))))
          (append_store h req k v s)
  unfolding append_store
  append_store-first v = elim (Option-cases (backend_get k s.store)) [
    | inr (old, e) ↦
        rw (e, append_store)
          (rw (execute_handle-Quiet h 4 req.link k v (backend_put k (old ++ v) s.store).1 quiet)
            (_, refl))
    | inl e ↦
        rw (e, append_store)
          (rw
            (execute_handle-Quiet h 4 req.link k v (backend_put k v (release k s).1.store).1 quiet)
            (_, refl))
  ]

  pub append-Served :
      (v : Value)
      → Served
          (reply_bytes req success
            (to_string (length (value_or_empty (backend_get k s.store) ++ v))))
          (update k (value_or_empty (backend_get k s.store) ++ v) (view_of s))
          (append_handler h req (request_of 4 k (v ∷ [])) s)
  unfolding append_handler
  append-Served v =
      let m : SmemMessage = request_of 4 k (v ∷ []) in
      let whole : Value = value_or_empty (backend_get k s.store) ++ v in
      let filled : Fills h k whole v s (append_handler h req m s) =
        (append_handler-Fills h req m k v s quiet w refl refl short).0 in
      record {
        first = rw fits (append_store-first v);
        view = update_view k whole s (append_handler h req m s).state filled.stored filled.others;
        watched = append_handler-IsWatched h req m s quiet w;
      }
