-- ===== src/Smem/Group/Taking.antt =====
-- What the calls of GroupJoin and GroupLeave leave under the key of the event, and when a rank takes it.
use memfabric_hybrid.Base.{
  ℕ, ◌+◌, ◌<◌, ◌^◌, ◌≡◌, refl, sym, ap, ◌∙◌, inl, inr, Bool, true, false, List, [], ◌∷◌, Option,
  none, some, ltb, arith, Bool-cases,
}
use mathlib.Core.Bool.{false≢true}
use mathlib.Core.Option.{some-injective}
use memfabric_hybrid.Base.Assoc.{same_bytes, same_bytes_eq}
use memfabric_hybrid.Smem.Server.State.{Value, to_string}
use memfabric_hybrid.Smem.Server.Adding.{read_digits}
use memfabric_hybrid.Smem.Server.AddingLaws.{number_at}
use memfabric_hybrid.Smem.Client.Numbers.{read_digits-digits}
use memfabric_hybrid.Smem.Client.Calls.{View, Answer, meaning, added, cas_call}
use memfabric_hybrid.Smem.Group.Joining.{
  event_key, size_key, max_retry, Change, join, leave, event_value, size_change, Phase, idle,
  taking, reading, resizing, clearing, Joiner, join_call, join_next, has_taken, behind_taking,
  next_try, behind_clearing, reply, left_by,
}

-- Behind the loop over the event's key, and before the key is removed.
abbrev pub is_inside : Phase → Bool
is_inside idle = false
is_inside (taking tries) = false
is_inside reading = true
is_inside resizing = true
is_inside clearing = true

abbrev pub own_event : ℕ → Joiner → Value
own_event r m = event_value m.change r

-- The rank is not at its last try of the event's key, behind which it goes on without it.
abbrev pub HasTries : Phase → Type 0
HasTries idle = Unit {0}
HasTries (taking tries) = tries + 1 < max_retry
HasTries reading = Unit {0}
HasTries resizing = Unit {0}
HasTries clearing = Unit {0}

to_string_injective : (a b : ℕ) → a < 10 ^ 20 → b < 10 ^ 20 → to_string a ≡ to_string b → a ≡ b
unfolding to_string read_digits
to_string_injective a b small_a small_b e =
    let same : some (a, []) ≡ some (b, []) =
      sym (read_digits-digits 20 a false [] small_a (omega arith))
      ∙ ap (read_digits false 0) e
      ∙ read_digits-digits 20 b false [] small_b (omega arith) in
    ap (λ x. x.0) (some-injective _ _ same)

abbrev tail : List ℕ → List ℕ
tail [] = []
tail (x ∷ l) = l

pub event_value_injective :
    (c d : Change) (a b : ℕ) → a < 10 ^ 20 → b < 10 ^ 20 → event_value c a ≡ event_value d b → a ≡ b
unfolding event_value
event_value_injective join join a b small_a small_b e =
    to_string_injective a b small_a small_b (ap tail e)
event_value_injective join leave a b small_a small_b e =
    to_string_injective a b small_a small_b (ap tail e)
event_value_injective leave join a b small_a small_b e =
    to_string_injective a b small_a small_b (ap tail e)
event_value_injective leave leave a b small_a small_b e =
    to_string_injective a b small_a small_b (ap tail e)

pub event_not_empty : (c : Change) (r : ℕ) → same_bytes [] (event_value c r) ≡ false
unfolding event_value same_bytes
event_not_empty join r = refl
event_not_empty leave r = refl

-- Counting the ranks leaves the event's key alone.
added_elsewhere :
    (x : ℕ) (f : View) (o : Option ℕ) → (added size_key x f o).1 event_key ≡ f event_key
unfolding same_bytes
added_elsewhere x f none = refl
added_elsewhere x f (some n) = refl

abbrev pub is_clearing : Phase → Bool
is_clearing clearing = true
is_clearing idle = false
is_clearing reading = false
is_clearing resizing = false
is_clearing (taking tries) = false

pub clearing_inside : (z : Phase) → is_clearing z ≡ true → is_inside z ≡ true
clearing_inside z h = ground (arith, h)

-- What a call leaves under the event's key, which has a value.
pub kept_elsewhere :
    (r : ℕ) (m : Joiner) (f : View) (v : Value) (reached : Bool) (z : Phase)
    → f event_key ≡ some v
    → same_bytes [] v ≡ false
    → m.phase ≡ z
    → (is_clearing z ≡ true → ⊥)
    → left_by reached (join_call r m) f event_key ≡ f event_key
unfolding join_call
kept_elsewhere r m f v false z h full e other = refl
kept_elsewhere r m f v true idle h full e other = rw e refl
kept_elsewhere r m f v true (taking tries) h full e other = rw e (rw (h, full) h)
kept_elsewhere r m f v true reading h full e other =
    rw e (added_elsewhere 0 f (number_at (f size_key)))
kept_elsewhere r m f v true resizing h full e other =
    rw e (added_elsewhere (size_change m.change) f (number_at (f size_key)))
kept_elsewhere r m f v true clearing h full e other = absurd (other refl)

pub same_change :
    (r : ℕ) (agreed : Bool) (stale : ℕ) (a : Answer) (m : Joiner) (z : Phase)
    → m.phase ≡ z
    → is_inside z ≡ true
    → (join_next r agreed stale a m).change ≡ m.change
unfolding join_next
same_change r agreed stale a m idle e h = absurd (false≢true h)
same_change r agreed stale a m (taking tries) e h = absurd (false≢true h)
same_change r agreed stale a m reading e h = rw e (ground arith)
same_change r agreed stale a m resizing e h = rw e (ground arith)
same_change r agreed stale a m clearing e h = rw e (ground arith)

tries_left :
    (tries : ℕ) (agreed : Bool) (m : Joiner)
    → tries + 1 < max_retry
    → is_inside (next_try tries agreed m).phase ≡ false
tries_left tries agreed m h =
    let more : ltb (tries + 1) max_retry ≡ true = ground arith in rw more refl

cleared_outside :
    (c : Change) (ok : Bool) (m : Joiner) → is_inside (behind_clearing c ok m).phase ≡ false
cleared_outside join ok m = refl
cleared_outside leave ok m = refl

pub cleared_next :
    (r : ℕ) (agreed : Bool) (stale : ℕ) (a : Answer) (m : Joiner)
    → m.phase ≡ clearing
    → is_inside (join_next r agreed stale a m).phase ≡ false
unfolding join_next
cleared_next r agreed stale a m e = rw e (cleared_outside _ _ _)

pub idle_next :
    (r : ℕ) (agreed : Bool) (stale : ℕ) (a : Answer) (m : Joiner)
    → m.phase ≡ idle
    → is_inside (join_next r agreed stale a m).phase ≡ false
unfolding join_next
idle_next r agreed stale a m e = rw e refl

cas_next :
    (r : ℕ) (m : Joiner) (tries : ℕ)
    → m.phase ≡ taking tries
    → join_call r m ≡ some (cas_call event_key [] (own_event r m))
unfolding join_call
cas_next r m tries e = rw e refl

taken_change :
    (c : Change) (agreed : Bool) (m : Joiner) → (behind_taking c agreed m).change ≡ m.change
taken_change join agreed m = refl
taken_change leave true m = refl
taken_change leave false m = refl

-- A try of the event's key that takes it has the rank's event there.
cas_holds :
    (f : View) (v : Value) (o : Option Value)
    → f event_key ≡ o
    → has_taken v (meaning (cas_call event_key [] v) f).0 ≡ true
    → (meaning (cas_call event_key [] v) f).1 event_key ≡ some v
unfolding same_bytes
cas_holds f v none e h = rw e refl
cas_holds f v (some []) e h = rw e refl
cas_holds f v (some (x ∷ l)) e h =
    let same : same_bytes (x ∷ l) v ≡ true = rw e at h in
    rw e (e ∙ ap some ((same_bytes_eq (x ∷ l) v).0 same))

module _ (r : ℕ) (agreed : Bool) (stale : ℕ) (a : Answer) (m : Joiner) (tries : ℕ)
    (e : m.phase ≡ taking tries) (t : tries + 1 < max_retry) where
  pub missed_next :
      has_taken (own_event r m) a ≡ false → is_inside (join_next r agreed stale a m).phase ≡ false
  unfolding join_next
  missed_next h = rw e (rw h (tries_left tries agreed _ t))

  taking_change : (join_next r agreed stale a m).change ≡ m.change
  unfolding join_next
  taking_change = elim (Bool-cases (has_taken (own_event r m) a)) [
    | inl h ↦ rw e (rw h (taken_change m.change agreed _))
    | inr h ↦
        let more : ltb (tries + 1) max_retry ≡ true = ground arith in rw e (rw h (rw more refl))
  ]

  -- What a rank that gets inside finds.
  inside_taken :
      is_inside (join_next r agreed stale a m).phase ≡ true → has_taken (own_event r m) a ≡ true
  inside_taken h = elim (Bool-cases (has_taken (own_event r m) a)) [
    | inl q ↦ q
    | inr q ↦ absurd (false≢true (sym (missed_next q) ∙ h))
  ]

-- The answer to a try of the event's key.
pub taken_own :
    (r : ℕ) (agreed : Bool) (stale : ℕ) (m : Joiner) (tries : ℕ) (f : View)
    → m.phase ≡ taking tries
    → tries + 1 < max_retry
    → is_inside (join_next r agreed stale (reply (join_call r m) f).0 m).phase ≡ true
    → (reply (join_call r m) f).1 event_key
      ≡ some (own_event r (join_next r agreed stale (reply (join_call r m) f).0 m))
taken_own r agreed stale m tries f e t h =
    let call : join_call r m ≡ some (cas_call event_key [] (own_event r m)) =
      cas_next r m tries e in
    let held : has_taken (own_event r m) (reply (join_call r m) f).0 ≡ true =
      inside_taken r agreed stale (reply (join_call r m) f).0 m tries e t h in
    ap (λ q. (reply q f).1 event_key) call
    ∙ cas_holds f (own_event r m) (f event_key) refl (rw call at held)
    ∙ ap (λ c. some (event_value c r))
        (sym (taking_change r agreed stale (reply (join_call r m) f).0 m tries e t))
