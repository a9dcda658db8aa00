-- ===== src/Smem/Group/Rounds.antt =====
-- Runs of GroupBarrier, in which the ranks' calls of the store come in any order and some are lost.
use memfabric_hybrid.Base.{
  ℕ, ◌+◌, ◌≤◌, ◌<◌, ◌≡◌, refl, sym, ap, subst, inl, inr, ==_iff, ◌==◌, if◌then◌else◌, Bool-cases,
  Option-cases, ◌∙◌, true, false, none, arith, u32_mod,
}
use mathlib.Core.Bool.{false≢true}
use mathlib.Core.Option.{some-injective}
use memfabric_hybrid.Smem.Server.State.{Key}
use memfabric_hybrid.Smem.Server.AddingLaws.{number_at}
use memfabric_hybrid.Smem.Client.Calls.{View, Answer}
use memfabric_hybrid.Smem.Group.{
  outside, failed, Member, Group, add_key, wait_key, is_set, is_ok, call_step, lost_step,
  enter_step, barrier_call,
}
use memfabric_hybrid.Smem.Group.Members.{performed, StageFits, done_by, IsSound}
use memfabric_hybrid.Smem.Group.Barrier.{is_set-none}
use memfabric_hybrid.Smem.Group.Steps.{call_at, lost_at, enter-IsSound}

-- The runs of the ranks of a group of `n`, from a store without the keys of its barriers: a rank enters a
-- barrier, or enters the next one after an error, makes its next call, or has its next call fail
-- before it reaches the store.
pub data Run (base : Key) (n : ℕ) (f : View) : Group → Type 0 where
  start : Run base n f (record { members = λ i. record { sn = 0; stage = outside }; view = f })
  entered :
      (r : ℕ) (g : Group)
      → Run base n f g
      → r < n
      → (g.members r).stage ≡ outside
      → (g.members r).sn + 1 < u32_mod
      → Run base n f (enter_step r g)
  retried :
      (r : ℕ) (g : Group)
      → Run base n f g
      → r < n
      → (g.members r).stage ≡ failed
      → (g.members r).sn + 1 < u32_mod
      → Run base n f (enter_step r g)
  called_next : (r : ℕ) (g : Group) → Run base n f g → r < n → Run base n f (call_step base n r g)
  lost :
      (r : ℕ) (a : Answer) (g : Group)
      → Run base n f g
      → r < n
      → is_ok a.code ≡ false
      → Run base n f (lost_step n a r g)

-- How often the rank i has entered a barrier after an error.
unfoldable pub retries : (base : Key) (n : ℕ) (f : View) (g : Group) → Run base n f g → ℕ → ℕ
retries base n f _ start i = 0
retries base n f _ (entered r g run b e h) i = retries base n f g run i
retries base n f _ (retried r g run b e h) i = (if i == r then 1 else 0) + retries base n f g run i
retries base n f _ (called_next r g run b) i = retries base n f g run i
retries base n f _ (lost r a g run b bad) i = retries base n f g run i

abbrev pub NoBarrierKeys : Key → View → Type 0
NoBarrierKeys base f = (sn : ℕ) → (f (add_key base sn) ≡ none) × (f (wait_key base sn) ≡ none)

Run-IsSound :
    (base : Key) (n : ℕ) (f : View) (g : Group)
    → n < u32_mod
    → NoBarrierKeys base f
    → Run base n f g
    → IsSound base n g
unfolding performed
Run-IsSound base n f _ small empty start = record {
  counts = λ sn h x q.
      let zero_count : 0 ≡ x = some-injective 0 x (ap number_at (sym (empty sn).0) ∙ q) in
      omega (arith, zero_count);
  flags = λ sn h q. absurd (false≢true (sym is_set-none ∙ ap is_set (sym (empty sn).1) ∙ q));
  fits = λ r b i c. refl;
  bounded = λ r b. omega arith;
}
Run-IsSound base n f _ small empty (entered r g run b e h) =
    enter-IsSound base n r g (Run-IsSound base n f g small empty run) b small h
Run-IsSound base n f _ small empty (retried r g run b e h) =
    enter-IsSound base n r g (Run-IsSound base n f g small empty run) b small h
Run-IsSound base n f _ small empty (called_next r g run b) =
    call_at base n r g (Run-IsSound base n f g small empty run) b small (g.members r).stage refl
Run-IsSound base n f _ small empty (lost r a g run b bad) =
    lost_at base n r g (Run-IsSound base n f g small empty run) b small a (g.members r).stage bad
      refl

performed_le : (m : Member) (k : ℕ) → performed m k ≡ true → k ≤ m.sn
unfolding performed
performed_le m k h = ground (arith, h)

-- A rank that is behind its barrier has a number that every rank has entered.
passed-le :
    (base : Key) (n : ℕ) (g : Group) (r i : ℕ)
    → IsSound base n g
    → r < n
    → i < n
    → (g.members r).stage ≡ outside
    → (g.members r).sn ≤ (g.members i).sn
passed-le base n g r i s b c e =
    performed_le (g.members i) (g.members r).sn
      (subst (λ z. StageFits n (done_by g) (g.members r).sn z) e (s.fits r b) i c)

called_sn :
    (base : Key) (n r i : ℕ) (g : Group) → ((call_step base n r g).members i).sn ≡ (g.members i).sn
unfolding call_step
called_sn base n r i g = elim (Option-cases (barrier_call base (g.members r))) [
  | inl q ↦ rw q refl
  | inr (c, q) ↦ rw q (elim (Bool-cases (i == r)) [
    | inl h ↦ let at : i ≡ r = (==_iff i r).0 h in rw h (ap (λ j. (g.members j).sn) (sym at))
    | inr h ↦ rw h refl
  ])
]

-- No rank is further ahead than by one and its retries.
Run-lead :
    (base : Key) (n : ℕ) (f : View) (g : Group) (r i : ℕ)
    → n < u32_mod
    → NoBarrierKeys base f
    → (run : Run base n f g) → r < n
    → i < n
    → (g.members r).sn ≤ (g.members i).sn + 1 + retries base n f g run r
unfolding retries enter_step lost_step
Run-lead base n f _ r i small empty start b c = omega arith
Run-lead base n f _ r i small empty (entered j g run d e h) b c =
    let sound : IsSound base n g = Run-IsSound base n f g small empty run in
    ground (arith, Run-lead base n f g r i small empty run b c, passed-le base n g j i sound d c e)
Run-lead base n f _ r i small empty (retried j g run d e h) b c =
    ground (arith, Run-lead base n f g r i small empty run b c)
Run-lead base n f _ r i small empty (called_next j g run d) b c = omega (
  arith,
  Run-lead base n f g r i small empty run b c,
  called_sn base n j r g,
  called_sn base n j i g,
)
Run-lead base n f _ r i small empty (lost j a g run d bad) b c =
    ground (arith, Run-lead base n f g r i small empty run b c)

-- Whatever the order of the ranks' calls, whichever calls fail before they reach the store, and
-- however often ranks enter again after an error, in a group of fewer than 2 ^ 32 ranks that starts on
-- a store without keys of its barriers and enters fewer than 2 ^ 32 of them: a rank that is in no
-- barrier, whose last one returned SM_OK, has a number that every rank has entered; and a rank's
-- number is ahead of another's at most by one and the number of times that this rank entered after an
-- error.
pub Run-barrier :
    (base : Key) (n : ℕ) (f : View) (g : Group) (r i : ℕ)
    → n < u32_mod
    → NoBarrierKeys base f
    → (run : Run base n f g) → r < n
    → i < n
    → ((g.members r).stage ≡ outside → (g.members r).sn ≤ (g.members i).sn)
      × ((g.members r).sn ≤ (g.members i).sn + 1 + retries base n f g run r)
Run-barrier base n f g r i small empty run b c = (
  passed-le base n g r i (Run-IsSound base n f g small empty run) b c,
  Run-lead base n f g r i small empty run b c,
)
