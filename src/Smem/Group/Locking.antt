-- ===== src/Smem/Group/Locking.antt =====
-- Each step of a rank in GroupJoin or GroupLeave keeps the event of the rank inside under its key.
use memfabric_hybrid.Base.{
  ℕ, ◌≤◌, ◌<◌, ◌≡◌, refl, sym, ap, ◌∙◌, inl, inr, Bool, true, false, some, ◌==◌, ==_iff, arith,
  Bool-cases, Option-cases, u32_mod,
}
use mathlib.Core.Bool.{false≢true}
use mathlib.Core.Option.{some-injective}
use memfabric_hybrid.Smem.Client.Calls.{View, Answer}
use memfabric_hybrid.Smem.Group.{is_ok}
use memfabric_hybrid.Smem.Group.Joining.{
  event_key, event_value, Phase, idle, taking, reading, resizing, clearing, join_call, join_next,
  has_taken, reply, Joiners, answered, left_by, join_step, failed_step,
}
use memfabric_hybrid.Smem.Group.Taking.{
  is_inside, own_event, HasTries, event_value_injective, event_not_empty, is_clearing,
  clearing_inside, kept_elsewhere, same_change, missed_next, cleared_next, idle_next, taken_own,
}

-- A rank inside has its event under the key.
abbrev pub Locked : ℕ → Joiners → Type 0
Locked n g =
    (i : ℕ)
    → i < n
    → is_inside (g.members i).phase ≡ true
    → g.view event_key ≡ some (own_event i (g.members i))

-- Any answer.
module _ (n r : ℕ) (agreed : Bool) (stale : ℕ) (a : Answer) (f : View) (g : Joiners) (b : r < n)
    (small : n ≤ u32_mod) (locked : Locked n g) where
  others_Locked :
      ((i : ℕ)
        → i < n
        → (i == r) ≡ false
        → is_inside (g.members i).phase ≡ true
        → f event_key ≡ g.view event_key)
      → (is_inside (join_next r agreed stale a (g.members r)).phase ≡ true
          → f event_key ≡ some (own_event r (join_next r agreed stale a (g.members r))))
      → Locked n (answered r agreed stale a f g)
  others_Locked others own i c h = elim (Bool-cases (i == r)) [
    | inl q ↦ let at : i ≡ r = ground (arith, q) in rw (q, at) (own (rw q at h))
    | inr q ↦
        let inside : is_inside (g.members i).phase ≡ true = rw q at h in
        rw q (others i c q inside ∙ locked i c inside)
  ]

  not_clearing :
      (i : ℕ)
      → i < n
      → (i == r) ≡ false
      → is_inside (g.members i).phase ≡ true
      → is_clearing (g.members r).phase ≡ true
      → ⊥
  not_clearing i c q h e =
      let mine : is_inside (g.members r).phase ≡ true = clearing_inside (g.members r).phase e in
      let same : event_value (g.members i).change i ≡ event_value (g.members r).change r =
        some-injective _ _ (sym (locked i c h) ∙ locked r b mine) in
      let at : i ≡ r =
        event_value_injective (g.members i).change (g.members r).change i r (omega arith)
          (omega arith) same in
      false≢true (sym q ∙ (==_iff i r).1 at)

  -- The rank's call leaves the event of another rank inside.
  call_others :
      (reached : Bool) (i : ℕ)
      → i < n
      → (i == r) ≡ false
      → is_inside (g.members i).phase ≡ true
      → left_by reached (join_call r (g.members r)) g.view event_key ≡ g.view event_key
  call_others reached i c q h =
      kept_elsewhere r (g.members r) g.view (own_event i (g.members i)) reached (g.members r).phase
        (locked i c h) (event_not_empty (g.members i).change i) refl (not_clearing i c q h)

module _ (n r : ℕ) (agreed : Bool) (stale : ℕ) (g : Joiners) (b : r < n) (small : n ≤ u32_mod)
    (locked : Locked n g) where
  still_own :
      (a : Answer) (f : View)
      → is_inside (g.members r).phase ≡ true
      → f event_key ≡ g.view event_key
      → f event_key ≡ some (own_event r (join_next r agreed stale a (g.members r)))
  still_own a f h e =
      e
      ∙ locked r b h
      ∙ ap (λ c. some (event_value c r))
          (sym (same_change r agreed stale a (g.members r) (g.members r).phase refl h))

  own_kept :
      (reached : Bool) (z : Phase)
      → (g.members r).phase ≡ z
      → is_inside z ≡ true
      → (is_clearing z ≡ true → ⊥)
      → left_by reached (join_call r (g.members r)) g.view event_key ≡ g.view event_key
  own_kept reached z e h other =
      kept_elsewhere r (g.members r) g.view (own_event r (g.members r)) reached z
        (locked r b (ap is_inside e ∙ h)) (event_not_empty (g.members r).change r) e other

  failed_own :
      (reached : Bool) (a : Answer) (z : Phase)
      → (g.members r).phase ≡ z
      → HasTries z
      → is_ok a.code ≡ false
      → is_inside (join_next r agreed stale a (g.members r)).phase ≡ true
      → left_by reached (join_call r (g.members r)) g.view event_key
        ≡ some (own_event r (join_next r agreed stale a (g.members r)))
  unfolding join_next
  failed_own reached a idle e t bad h = absurd (false≢true (rw e at h))
  failed_own reached a (taking tries) e t bad h =
      let missed : has_taken (own_event r (g.members r)) a ≡ false = rw bad refl in
      absurd (false≢true (sym (missed_next r agreed stale a (g.members r) tries e t missed) ∙ h))
  failed_own reached a reading e t bad h =
      still_own a (left_by reached (join_call r (g.members r)) g.view) (rw e refl)
        (own_kept reached reading e refl false≢true)
  failed_own reached a resizing e t bad h =
      still_own a (left_by reached (join_call r (g.members r)) g.view) (rw e refl)
        (own_kept reached resizing e refl false≢true)
  failed_own reached a clearing e t bad h =
      absurd (false≢true (sym (cleared_next r agreed stale a (g.members r) e) ∙ h))

  -- The answer of the store.
  reply_own :
      (z : Phase)
      → (g.members r).phase ≡ z
      → HasTries z
      → is_inside
          (join_next r agreed stale
            (reply (join_call r (g.members r)) g.view).0
            (g.members r)).phase
        ≡ true
      → (reply (join_call r (g.members r)) g.view).1 event_key
        ≡ some (
            own_event r
              (join_next r agreed stale (reply (join_call r (g.members r)) g.view).0 (g.members r)))
  reply_own idle e t h = absurd (
      false≢true (
        sym (idle_next r agreed stale (reply (join_call r (g.members r)) g.view).0 (g.members r) e)
        ∙ h))
  reply_own (taking tries) e t h = taken_own r agreed stale (g.members r) tries g.view e t h
  reply_own reading e t h =
      still_own (reply (join_call r (g.members r)) g.view).0
        (reply (join_call r (g.members r)) g.view).1 (rw e refl)
        (own_kept true reading e refl false≢true)
  reply_own resizing e t h =
      still_own (reply (join_call r (g.members r)) g.view).0
        (reply (join_call r (g.members r)) g.view).1 (rw e refl)
        (own_kept true resizing e refl false≢true)
  reply_own clearing e t h = absurd (
      false≢true (
        sym
          (cleared_next r agreed stale (reply (join_call r (g.members r)) g.view).0 (g.members r) e)
        ∙ h))

  pub failed_Locked :
      (reached : Bool) (a : Answer)
      → HasTries (g.members r).phase
      → is_ok a.code ≡ false
      → Locked n (failed_step r agreed stale reached a g)
  unfolding failed_step
  failed_Locked reached a t bad =
      others_Locked n r agreed stale a (left_by reached (join_call r (g.members r)) g.view) g b
        small locked
        (call_others n r agreed stale a (left_by reached (join_call r (g.members r)) g.view) g b
          small locked reached)
        (failed_own reached a (g.members r).phase refl t bad)

  reply-Locked :
      HasTries (g.members r).phase
      → Locked n (
          answered r agreed stale
            (reply (join_call r (g.members r)) g.view).0
            (reply (join_call r (g.members r)) g.view).1
            g)
  reply-Locked t =
      let (a, f) = reply (join_call r (g.members r)) g.view in
      others_Locked n r agreed stale a f g b small locked
        (call_others n r agreed stale a f g b small locked true)
        (reply_own (g.members r).phase refl t)

  pub step_Locked : HasTries (g.members r).phase → Locked n (join_step r agreed stale g)
  unfolding join_step
  step_Locked t = elim (Option-cases (join_call r (g.members r))) [
    | inl q ↦ rw q locked
    | inr (c, q) ↦ rw q (rw q at reply-Locked t)
  ]
