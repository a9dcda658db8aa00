-- ===== src/Smem/Client/Updating.antt =====
-- The first reply of CAS, ADD and WRITE, the map that they leave, and that no wakeup is lost.
use memfabric_hybrid.Base.{
  ℕ, ◌+◌, ◌*◌, ◌≤◌, ◌<◌, ◌≡◌, refl, ap, subst, ◌∙◌, inl, inr, true, false, [], ◌∷◌, ◌++◌, Option,
  none, some, length, take, drop, ltb, ◌==◌, ◌&&◌, length-append, if◌then◌else◌, u32_mod, u64_mod,
  add64, arith, Bool-cases, Option-cases,
}
use mathlib.Core.Option.{some-ne-none}
use memfabric_hybrid.Smem.Server.Writing.{write_handler-present}
use memfabric_hybrid.Smem.Server.Watched.{replaced-IsWatched}
use memfabric_hybrid.Smem.Client.Numbers.{string_to_long-long_to_string}
use memfabric_hybrid.Base.Assoc.{same_bytes, same_bytes_eq}
use memfabric_hybrid.Smem.Packer.{SmemMessage, pack}
use memfabric_hybrid.Smem.Server.State.{
  Key, Value, success, backend_get, backend_put, Server, Request, Hooks, Outcome, reply_note,
  reply_bytes, response, answer, sm_ok,
}
use memfabric_hybrid.Smem.Server.StoreLaws.{get-put, get-put_same}
use memfabric_hybrid.Smem.Server.Handlers.{max_key_len, cas_old, cas_store, cas_handler}
use memfabric_hybrid.Smem.Server.Updates.{write_handler, overwrite}
use memfabric_hybrid.Smem.Server.Adding.{
  add_old, add_handler, add_store, string_to_long, long_to_string,
}
use memfabric_hybrid.Smem.Server.Handlers.{positive}
use memfabric_hybrid.Smem.Server.AddingLaws.{
  number_of, number_at, add_handler-Adds, add_handler-IsWatched,
}
use memfabric_hybrid.Smem.Server.Exchanging.{matches, Exchanges, cas_handler-Exchanges}
use memfabric_hybrid.Smem.Server.WaiterLaws.{IsWatched}
use memfabric_hybrid.Smem.Server.Steps.{Quiet, execute_handle-Quiet, cas_handler-IsWatched}
use memfabric_hybrid.Smem.Server.Outcomes.{value_or_empty, Fills}
use memfabric_hybrid.Smem.Client.{request_of}
use memfabric_hybrid.Smem.Client.Serving.{FirstReply}
use memfabric_hybrid.Smem.Client.Calls.{View, view_of, update, added}
use memfabric_hybrid.Base.Bytes.{
  length-le_bytes, le_bytes, from_le, from_le-le_bytes, take-le_bytes, drop-le_bytes,
}
use memfabric_hybrid.Smem.Client.Replies.{Served, update_view, add_reply}

-- A map whose value at the key is the old one.
kept_view :
    (k : Key) (s t : Server)
    → backend_get k t.store ≡ backend_get k s.store
    → ((j : Key) → same_bytes k j ≡ false → backend_get j t.store ≡ backend_get j s.store)
    → (j : Key) → backend_get j t.store ≡ backend_get j s.store
kept_view k s t here there j = elim (Bool-cases (same_bytes k j)) [
  | inl e ↦
      let same : k ≡ j = (same_bytes_eq k j).0 e in
      subst (λ x. backend_get x t.store ≡ backend_get x s.store) same here
  | inr e ↦ there j e
]

module _ (h : Hooks) (req : Request) (k : Key) (s : Server) (quiet : Quiet h) (w : IsWatched s)
    (short : length k ≤ max_key_len) where
  fits : ltb max_key_len (length k) ≡ false
  fits = ground arith

  -- The map behind a CAS.
  abbrev exchanged : Value → Value → View
  exchanged x y = if matches x (backend_get k s.store) then update k y (view_of s) else view_of s

  cas_view :
      (x y : Value) (t : Server)
      → backend_get k t.store
        ≡ (if matches x (backend_get k s.store) then some y else backend_get k s.store)
      → ((j : Key) → same_bytes k j ≡ false → backend_get j t.store ≡ backend_get j s.store)
      → view_of t ≡ exchanged x y
  cas_view x y t here there = elim (Bool-cases (matches x (backend_get k s.store))) [
    | inl e ↦ rw e (update_view k y s t (here ∙ (rw e)) there)
    | inr e ↦ rw e (λ i j. kept_view k s t (here ∙ (rw e)) there j i)
  ]

  found_first :
      (x y old : Value)
      → FirstReply
          (reply_bytes req success (pack (response 5 old)))
          (cas_old req (request_of 5 k (x ∷ y ∷ [])) k x y old s)
  found_first x y old = elim (Bool-cases (same_bytes x old)) [
    | inl e ↦ rw e (_, refl)
    | inr e ↦ rw e (_, refl)
  ]

  missing_first :
      (x y : Value)
      → backend_get k s.store ≡ none
      → FirstReply
          (reply_bytes req success (pack (response 5 [])))
          (cas_store h req (request_of 5 k (x ∷ y ∷ [])) k x y s)
  unfolding cas_store
  missing_first [] y e = rw (e, cas_store) (_, refl)
  missing_first (b ∷ x) y e = rw (e, cas_store) (_, refl)

  cas_store-first :
      (x y : Value)
      → FirstReply
          (reply_bytes req success (pack (response 5 (value_or_empty (backend_get k s.store)))))
          (cas_store h req (request_of 5 k (x ∷ y ∷ [])) k x y s)
  unfolding cas_store
  cas_store-first x y = elim (Option-cases (backend_get k s.store)) [
    | inr (old, e) ↦ rw (e, cas_store) (found_first x y old)
    | inl e ↦ rw e (missing_first x y e)
  ]

  pub cas-Served :
      (x y : Value)
      → Served
          (reply_bytes req success (pack (response 5 (value_or_empty (backend_get k s.store)))))
          (exchanged x y)
          (cas_handler h req (request_of 5 k (x ∷ y ∷ [])) s)
  unfolding cas_handler
  cas-Served x y =
      let m : SmemMessage = request_of 5 k (x ∷ y ∷ []) in
      let swap : Exchanges req m k x y s (cas_handler h req m s) =
        cas_handler-Exchanges h req m k x y s refl refl short in
      record {
        first = rw fits (cas_store-first x y);
        view = cas_view x y (cas_handler h req m s).state swap.stored swap.others;
        watched = cas_handler-IsWatched h req m s w;
      }

  -- The first reply of an ADD, and that one that fails changes nothing.
  abbrev AddsFirst : Option ℕ → ℕ → Outcome → Type 0
  AddsFirst stored n o = FirstReply (add_reply req n stored) o × (stored ≡ none → o.state ≡ s)

  add_old-first :
      (n : ℕ) (old : Value) (o : Option ℕ) → AddsFirst (number_of old o) n (add_old req k n old o s)
  add_old-first n old none = ((_, refl), λ e. refl)
  add_old-first n old (some x) =
      elim (Bool-cases (x == 0 && (if same_bytes old (48 ∷ []) then false else true))) [
        | inl q ↦ rw (q) ((_, refl), λ e. refl)
        | inr q ↦ rw (q) ((_, refl), λ e. absurd (some-ne-none x e))
      ]

  add_store-first :
      (n : ℕ)
      → n < u64_mod
      → AddsFirst (number_at (backend_get k s.store)) n (add_store h req k (long_to_string n) n s)
  unfolding add_store
  add_store-first n b = elim (Option-cases (backend_get k s.store)) [
    | inr (old, e) ↦ rw (e, add_store) (add_old-first n old (string_to_long old))
    | inl e ↦
        let same : add64 0 n ≡ n = omega arith in
        rw (e, add_store) (rw same ((_, refl), λ q. absurd (some-ne-none 0 q)))
  ]

  add_handler-first :
      (n : ℕ)
      → n < u64_mod
      → AddsFirst
          (number_at (backend_get k s.store))
          n
          (add_handler h req (request_of 2 k (long_to_string n ∷ [])) s)
  unfolding add_handler
  add_handler-first n b =
      let v : Value = long_to_string n in
      let canonical : same_bytes v v ≡ true = (same_bytes_eq v v).1 refl in
      rw fits (
        rw (string_to_long-long_to_string n b) (
          rw canonical (elim (Bool-cases (positive n)) [
            | inr p ↦ rw p (add_store-first n b)
            | inl p ↦
                rw p
                  (rw (execute_handle-Quiet h 2 req.link k v s.store quiet) (add_store-first n b))
          ])))

  added_view :
      (n : ℕ) (o : Option ℕ)
      → n < u64_mod
      → number_at (backend_get k s.store) ≡ o
      → view_of (add_handler h req (request_of 2 k (long_to_string n ∷ [])) s).state
        ≡ (added k n (view_of s) o).1
  added_view n none b e = ap view_of ((add_handler-first n b).1 e)
  added_view n (some stored) b e =
      let v : Value = long_to_string n in
      let m : SmemMessage = request_of 2 k (v ∷ []) in
      let sum : Fills h k (long_to_string (add64 stored n)) v s (add_handler h req m s) =
        (add_handler-Adds h req m k v n stored s quiet w refl refl short
          (string_to_long-long_to_string n b) b refl e).0 in
      update_view k (long_to_string (add64 stored n)) s (add_handler h req m s).state sum.stored
        sum.others

  pub add-Served :
      (n : ℕ)
      → n < u64_mod
      → Served
          (add_reply req n (number_at (backend_get k s.store)))
          (added k n (view_of s) (number_at (backend_get k s.store))).1
          (add_handler h req (request_of 2 k (long_to_string n ∷ [])) s)
  add-Served n b = record {
    first = (add_handler-first n b).0;
    view = added_view n (number_at (backend_get k s.store)) b refl;
    watched = add_handler-IsWatched h req (request_of 2 k (long_to_string n ∷ [])) s quiet w;
  }

  pub write-Served :
      (v old : Value) (offset : ℕ)
      → offset < u32_mod
      → offset ≤ 65535 * length v
      → backend_get k s.store ≡ some old
      → (o : Outcome) × (write_handler h req (request_of 6 k ((le_bytes 4 offset ++ v) ∷ [])) s
          ≡ some o)
        × Served (reply_note req success) (update k (overwrite offset v old) (view_of s)) o
  write-Served v old offset b near e =
      let x : Value = le_bytes 4 offset ++ v in
      let m : SmemMessage = request_of 6 k (x ∷ []) in
      let long : length x ≡ 4 + length v =
        length-append (le_bytes 4 offset) v ∙ ap (λ n. n + length v) (length-le_bytes 4 offset) in
      let at : from_le (take 4 x) ≡ offset =
        ap from_le (take-le_bytes 4 offset v) ∙ from_le-le_bytes 4 offset b in
      let rest : drop 4 x ≡ v = drop-le_bytes 4 offset v in
      let whole : Value = overwrite offset v old in
      (
        answer (reply_note req success) sm_ok
            (record s { store = (backend_put k whole s.store).1 }),
        write_handler-present h req m k x s quiet refl refl short (omega (arith, long))
              (omega (arith, long, at)) old e
            ∙ (rw (at, rest) refl),
        record {
          first = ([], refl);
          view =
              update_view k whole s (record s { store = (backend_put k whole s.store).1 })
                (get-put_same k whole s.store) (λ j d. get-put k j whole s.store ∙ (rw d));
          watched = replaced-IsWatched k whole old s e w;
        },
      )
