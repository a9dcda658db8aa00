-- ===== src/Smem/Group/Exclusion.antt =====
-- GroupJoin and GroupLeave use the key of the event as a lock.
use memfabric_hybrid.Base.{
  ℕ, ◌≤◌, ◌<◌, ◌≡◌, sym, ap, ◌∙◌, inl, inr, Bool, true, false, some, ◌==◌, arith, Bool-cases,
  u32_mod,
}
use mathlib.Core.Bool.{false≢true}
use mathlib.Core.Option.{some-injective}
use memfabric_hybrid.Smem.Client.Calls.{View, Answer}
use memfabric_hybrid.Smem.Group.{is_ok}
use memfabric_hybrid.Smem.Group.Joining.{
  event_key, Change, idle, Joiner, Joiners, begin_change, may_begin, join_step, failed_step,
}
use memfabric_hybrid.Smem.Group.Taking.{is_inside, own_event, HasTries, event_value_injective}
use memfabric_hybrid.Smem.Group.Locking.{Locked, failed_Locked, step_Locked}

-- The runs of the ranks of a dynamic group of `n`: a rank enters GroupJoin or GroupLeave, makes its next
-- call, or has it fail, before or behind its reaching the store. Call backs agree or not.
pub data JoinRun (n : ℕ) (f : View) : Joiners → Type 0 where
  at_rest :
      (members : ℕ → Joiner)
      → ((r : ℕ) → (members r).phase ≡ idle)
      → JoinRun n f (record { members = members; view = f })
  began :
      (c : Change) (r : ℕ) (g : Joiners)
      → JoinRun n f g
      → r < n
      → (g.members r).phase ≡ idle
      → JoinRun n f (begin_change c r g)
  stepped :
      (r : ℕ) (agreed : Bool) (stale : ℕ) (g : Joiners)
      → JoinRun n f g
      → r < n
      → HasTries (g.members r).phase
      → JoinRun n f (join_step r agreed stale g)
  failed :
      (r : ℕ) (agreed : Bool) (stale : ℕ) (reached : Bool) (a : Answer) (g : Joiners)
      → JoinRun n f g
      → r < n
      → HasTries (g.members r).phase
      → is_ok a.code ≡ false
      → JoinRun n f (failed_step r agreed stale reached a g)

JoinRun-Locked : (n : ℕ) (f : View) (g : Joiners) → n ≤ u32_mod → JoinRun n f g → Locked n g
unfolding begin_change
JoinRun-Locked n f _ small (at_rest members outside) =
    λ i c h. absurd (false≢true (sym (ap is_inside (outside i)) ∙ h))
JoinRun-Locked n f _ small (began c r g run b e) =
    let old : Locked n g = JoinRun-Locked n f g small run in
    elim (Bool-cases (may_begin c (g.members r).joined)) [
      | inr k ↦ rw k old
      | inl k ↦ rw k (λ i d h. elim (Bool-cases (i == r)) [
        | inl q ↦ absurd (false≢true (rw q at h))
        | inr q ↦ rw q (old i d (rw q at h))
      ])
    ]
JoinRun-Locked n f _ small (stepped r agreed stale g run b t) =
    step_Locked n r agreed stale g b small (JoinRun-Locked n f g small run) t
JoinRun-Locked n f _ small (failed r agreed stale reached a g run b t bad) =
    failed_Locked n r agreed stale g b small (JoinRun-Locked n f g small run) reached a t bad

-- In a group of at most 2 ^ 32 ranks, whatever the order of the calls of the ranks that join and leave,
-- whichever calls fail before or behind their reaching the store, and where no rank makes its last try
-- of the event's key: a rank that is behind its loop over that key, and does not have the answer to its
-- removal yet, has its own event there, and is the only such rank.
pub JoinRun-exclusive :
    (n : ℕ) (f : View) (g : Joiners) (r : ℕ)
    → n ≤ u32_mod
    → JoinRun n f g
    → r < n
    → is_inside (g.members r).phase ≡ true
    → (g.view event_key ≡ some (own_event r (g.members r)))
      × ((i : ℕ) → i < n → is_inside (g.members i).phase ≡ true → i ≡ r)
JoinRun-exclusive n f g r small run b h =
    let locked : Locked n g = JoinRun-Locked n f g small run in
    (
      locked r b h,
      λ i c k.
          event_value_injective (g.members i).change (g.members r).change i r (omega arith)
            (omega arith) (some-injective _ _ (sym (locked i c k) ∙ locked r b h)),
    )
