-- ===== src/Smem/Server/Writing.antt =====
-- What a WRITE request does to its key, and that it wakes no one.
use memfabric_hybrid.Base.{
  ℕ, zero, suc, ◌+◌, ◌-◌, ◌*◌, ◌≤◌, ◌≡◌, refl, sym, ap, subst, ◌∙◌, false, inl, inr, [], ◌∷◌, ◌++◌,
  Option, none, some, ltb, ◌==◌, length, take, drop, arith, Option-cases, length-append,
  length-take, length-drop, take-append, drop-append,
}
use mathlib.Core.Option.{some-ne-none}
use mathlib.Core.List.{append_assoc}
use memfabric_hybrid.Base.Assoc.{lookup}
use memfabric_hybrid.Base.Bytes.{from_le}
use memfabric_hybrid.Smem.Packer.{SmemMessage}
use memfabric_hybrid.Smem.Server.State.{
  Key, Value, Request, Waiter, Server, Hooks, Outcome, sole, backend_get, backend_put, success,
  reply_note, answer, sm_ok,
}
use memfabric_hybrid.Smem.Server.StoreLaws.{get-put_same}
use memfabric_hybrid.Smem.Server.Handlers.{max_key_len}
use memfabric_hybrid.Smem.Server.Updates.{
  zeros, overwrite, write_store, write_handler, write_over, write_executed,
}
use memfabric_hybrid.Smem.Server.WaiterLaws.{context, IsWatched}
use memfabric_hybrid.Smem.Server.Steps.{Quiet, execute_handle-Quiet}

length-zeros : (n : ℕ) → length (zeros n) ≡ n
unfolding zeros
length-zeros zero = refl
length-zeros (suc n) = omega (arith, length-zeros n)

drop-parts : (n : ℕ) (xs ys : Value) → length xs ≡ n → drop n (xs ++ ys) ≡ ys
drop-parts n xs ys e = subst (λ k. drop k (xs ++ ys) ≡ ys) e (drop-append xs ys)

-- What a write leaves: `whole` holds the data at the offset, and outside of it the old bytes, then zeros.
pub record Written (offset : ℕ) (new old whole : Value) : Type 0 where
  pub at : take (length new) (drop offset whole) ≡ new
  pub before : take offset whole ≡ take offset (old ++ zeros (offset + length new - length old))
  pub behind :
      drop (offset + length new) whole
      ≡ drop (offset + length new) (old ++ zeros (offset + length new - length old))
  pub size : length whole ≡ length old + (offset + length new - length old)

overwrite-Written :
    (offset : ℕ) (new old : Value) → Written offset new old (overwrite offset new old)
unfolding overwrite
overwrite-Written offset new old =
    let grown : Value = old ++ zeros (offset + length new - length old) in
    let size : length grown ≡ length old + (offset + length new - length old) =
      length-append old (zeros (offset + length new - length old))
      ∙ ap (λ n. length old + n) (length-zeros (offset + length new - length old)) in
    let front : length (take offset grown) ≡ offset = length-take offset grown (omega arith) in
    let rest : Value = drop (offset + length new) grown in
    record {
      at =
          ap (take (length new)) (drop-parts offset (take offset grown) (new ++ rest) front)
          ∙ take-append new rest;
      before =
          subst (λ n. take n (take offset grown ++ (new ++ rest)) ≡ take offset grown) front
            (take-append (take offset grown) (new ++ rest));
      behind =
          subst (λ b. drop (offset + length new) b ≡ rest)
            (append_assoc (take offset grown) new rest)
            (drop-parts (offset + length new) (take offset grown ++ new) rest
              (omega (arith, length-append (take offset grown) new, front)));
      size = omega (
        arith,
        length-append (take offset grown) (new ++ rest),
        length-append new rest,
        length-drop (offset + length new) grown,
        front,
        size,
      );
    }

-- The value that WRITE changes: a missing key counts as zeros up to the end of the data.
abbrev pub base_of : ℕ → Option Value → Value
base_of n none = zeros n
base_of n (some old) = old

-- What a WRITE of the data at the offset does.
pub record Writes (h : Hooks) (req : Request) (m : SmemMessage) (k : Key) (offset : ℕ) (new : Value)
    (s : Server) (o : Outcome) : Type 0 where
  pub answered : write_handler h req m s ≡ some o
  pub whole : Value
  pub stored : backend_get k o.state.store ≡ some whole
  pub written : Written offset new (base_of (offset + length new) (backend_get k s.store)) whole
  pub replied : o.replies ≡ reply_note req success ∷ []
  pub waiting : o.state.contexts ≡ s.contexts

module _ (h : Hooks) (req : Request) (m : SmemMessage) (k : Key) (v : Value) (s : Server)
    (quiet : Quiet h) (keyed : sole m.keys ≡ some k) (valued : sole m.values ≡ some v)
    (short : length k ≤ max_key_len) (headed : 4 ≤ length v)
    (near : from_le (take 4 v) ≤ 65535 * (length v - 4)) where
  guards : write_handler h req m s ≡ some (write_store h req k v (from_le (take 4 v)) (drop 4 v) s)
  unfolding write_handler
  guards =
      let a : ltb max_key_len (length k) ≡ false = ground arith in
      let b : ltb (length v) 4 ≡ false = ground arith in
      let c : ltb (65535 * (length v - 4)) (from_le (take 4 v)) ≡ false = ground arith in
      rw (keyed, write_handler) (rw (valued, write_handler) (rw (a, b, c)))

  abbrev stores : Value → Server → Outcome
  stores whole t =
      answer (reply_note req success) sm_ok (record t { store = (backend_put k whole t.store).1 })

  write_over-stores :
      (offset : ℕ) (new old : Value) (t : Server)
      → write_over h req k v offset new old t ≡ stores (overwrite offset new old) t
  write_over-stores offset new old t =
      ap (λ r. write_executed req k (overwrite offset new old) r t)
        (execute_handle-Quiet h 6 req.link k v t.store quiet)

  pub write_handler-present :
      (old : Value)
      → backend_get k s.store ≡ some old
      → write_handler h req m s
        ≡ some (
            answer (reply_note req success) sm_ok (record s {
              store = (backend_put k (overwrite (from_le (take 4 v)) (drop 4 v) old) s.store).1;
            }))
  unfolding write_store
  write_handler-present old e =
      guards
      ∙ (rw (e, write_store) (ap some (write_over-stores (from_le (take 4 v)) (drop 4 v) old s)))

  -- A WRITE to one key that is not too long of a value of at least four bytes, whose first four are an
  -- offset of at most 65535 times the length of the rest, with no operation handler registered: the
  -- rest stands at the offset in the key's new value, which keeps the old bytes elsewhere and has zeros
  -- where there were none; the caller is told of success, nobody else is sent anything, and the
  -- waiting requests stay as they are.
  pub write_handler-Writes : (o : Outcome) × Writes h req m k (from_le (take 4 v)) (drop 4 v) s o
  unfolding write_store
  write_handler-Writes =
      let offset : ℕ = from_le (take 4 v) in
      let new : Value = drop 4 v in
      elim (Option-cases (backend_get k s.store)) [
        | inr (old, e) ↦ (
          stores (overwrite offset new old) s,
          record {
            answered =
                guards ∙ (rw (e, write_store) (ap some (write_over-stores offset new old s)));
            whole = overwrite offset new old;
            stored = get-put_same k (overwrite offset new old) s.store;
            written = rw e (overwrite-Written offset new old);
            replied = refl;
            waiting = refl;
          },
        )
        | inl e ↦
            let fresh : Value = zeros (offset + length new) in
            let t : Server = record s { store = (backend_put k fresh s.store).1 } in
            (
              stores (overwrite offset new fresh) t,
              record {
                answered =
                    guards ∙ (rw (e, write_store) (ap some (write_over-stores offset new fresh t)));
                whole = overwrite offset new fresh;
                stored = get-put_same k (overwrite offset new fresh) t.store;
                written = rw e (overwrite-Written offset new fresh);
                replied = refl;
                waiting = refl;
              },
            )
      ]

  -- Such a WRITE to a key that someone waits for leaves the request waiting for a key that is stored:
  -- it stays in the table of the waiting requests and is sent nothing.
  pub write_handler-strands :
      (id : ℕ) (w : Waiter)
      → context id s ≡ some w
      → w.key ≡ k
      → (o : Outcome) × (write_handler h req m s ≡ some o)
        × (context id o.state ≡ some w)
        × (o.replies ≡ reply_note req success ∷ [])
        × (¬ IsWatched o.state)
  write_handler-strands id w e q =
      let (o, done) = write_handler-Writes in
      let still : context id o.state ≡ some w = ap (lookup ◌==◌ id) done.waiting ∙ e in
      (
        o,
        done.answered,
        still,
        done.replied,
        λ watched. some-ne-none done.whole (
            sym done.stored
            ∙ ap (λ j. backend_get j o.state.store) (sym q)
            ∙ watched.missing id w still),
      )
