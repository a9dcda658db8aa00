-- ===== src/Smem/Group/Steps.antt =====
-- Each step of a rank in GroupBarrier keeps the invariant of the ranks.
use memfabric_hybrid.Base.{
  ℕ, ◌+◌, ◌-◌, ◌≤◌, ◌%◌, ◌<◌, ◌≡◌, ◌⊎◌, refl, ap, subst, ◌∙◌, inl, inr, true, false, none, some,
  ◌==◌, arith, Bool-cases, Option-cases, u32_mod,
}
use memfabric_hybrid.Base.Assoc.{same_bytes}
use memfabric_hybrid.Smem.Server.State.{Key}
use memfabric_hybrid.Smem.Server.AddingLaws.{number_at}
use memfabric_hybrid.Smem.Client.Calls.{View, Answer, update, forget}
use memfabric_hybrid.Smem.Group.{
  Stage, outside, adding, setting, awaiting, failed, removing_add, removing_wait, Member, Group,
  add_key, wait_key, is_set, is_ok, enter, barrier_call, barrier_next, to_wait, call_step,
  lost_step, enter_step, group_set_str, remove_interval,
}
use memfabric_hybrid.Smem.Group.Card.{card, card_mono}
use memfabric_hybrid.Smem.Group.Keys.{same_wait_key, wait_key-add_key}
use memfabric_hybrid.Smem.Group.Members.{
  is_adding, performed, StageFits, done_by, IsSound, moved, done_by-moved, moved-IsSound,
}
use memfabric_hybrid.Smem.Group.Barrier.{
  shrunk, to_wait-fits, to_wait-is_adding, added-IsSound, performed-stage,
}

entered_performed :
    (m : Member) (k : ℕ) → m.sn + 1 < u32_mod → performed m k ≡ true → performed (enter m) k ≡ true
unfolding performed
entered_performed m k h q =
    let next : (m.sn + 1) % u32_mod ≡ m.sn + 1 = omega arith in rw next (ground (arith, q))

module _ (base : Key) (n r : ℕ) (g : Group) (s : IsSound base n g) (b : r < n)
    (small : n < u32_mod) where
  old_fits : (z : Stage) → (g.members r).stage ≡ z → StageFits n (done_by g) (g.members r).sn z
  old_fits z e = subst (λ y. StageFits n (done_by g) (g.members r).sn y) e (s.fits r b)

  -- A stage that the same store fits.
  restaged :
      (st : Stage)
      → is_adding st ≡ false
      → StageFits n (done_by g) (g.members r).sn st
      → IsSound base n (moved r (record (g.members r) { stage = st }) g.view g)
  restaged st e fit = shrunk base n r st g.view g s b e (λ k. inl refl) fit

  forgotten : (k j : Key) → (forget k g.view j ≡ g.view j) ⊎ (forget k g.view j ≡ none)
  forgotten k j = elim (Bool-cases (same_bytes k j)) [
    | inl e ↦ inr (rw e refl)
    | inr e ↦ inl (rw e refl)
  ]

  -- The status of a barrier that everyone has entered.
  set-IsSound :
      StageFits n (done_by g) (g.members r).sn setting
      → IsSound base n (
          moved r
            (record (g.members r) { stage = awaiting })
            (update (wait_key base (g.members r).sn) group_set_str g.view)
            g)
  set-IsSound all =
      let sn : ℕ = (g.members r).sn in
      let f : View = update (wait_key base sn) group_set_str g.view in
      let m : Member = record (g.members r) { stage = awaiting } in
      let more : (i k : ℕ) → done_by g i k ≡ true → done_by (moved r m f g) i k ≡ true =
        done_by-moved r m f g (λ k. performed-stage (g.members r) awaiting k refl) in
      moved-IsSound base n r m f g s (λ k. performed-stage (g.members r) awaiting k refl)
        (λ k h x q.
          let key : same_bytes (wait_key base sn) (add_key base k) ≡ false =
            wait_key-add_key base sn k (omega (arith, s.bounded r b)) (omega arith) in
          omega (
            arith,
            s.counts k h x (rw key at q),
            card_mono n (λ i. done_by g i k) (λ i. done_by (moved r m f g) i k) (λ i. more i k),
          ))
        (λ k h q i c. elim (Bool-cases (sn == k)) [
          | inl e ↦
              let same : sn ≡ k = ground (arith, e) in
              more i k (subst (λ j. done_by g i j ≡ true) same (all i c))
          | inr e ↦
              let key : same_bytes (wait_key base sn) (wait_key base k) ≡ false =
                same_wait_key base sn k (omega (arith, s.bounded r b)) (omega arith) ∙ e in
              more i k (s.flags k h (rw key at q) i c)
        ])
        tt (s.bounded r b)

  pub call_at : (z : Stage) → (g.members r).stage ≡ z → IsSound base n (call_step base n r g)
  unfolding call_step barrier_call barrier_next
  call_at outside e = rw e s
  call_at adding e = elim (Option-cases (number_at (g.view (add_key base (g.members r).sn)))) [
    | inl q ↦ rw e (rw q (rw (e, barrier_next) (restaged failed refl tt)))
    | inr (x, q) ↦ rw e (rw q (rw (e, barrier_next) (added-IsSound base n r x g s b small e q)))
  ]
  call_at (removing_add val) e = rw e (
      rw (e, barrier_next)
        (shrunk base n r (removing_wait val) _ g s b refl
          (forgotten (add_key base ((g.members r).sn - remove_interval)))
          (old_fits (removing_add val) e)))
  call_at (removing_wait val) e =
      let c : val ≤ card n (λ i. done_by g i (g.members r).sn) = old_fits (removing_wait val) e in
      rw e (
        rw (e, barrier_next)
          (shrunk base n r (to_wait n val) _ g s b (to_wait-is_adding n val)
            (forgotten (wait_key base ((g.members r).sn - remove_interval)))
            (to_wait-fits n val (g.members r).sn (done_by g) c)))
  call_at setting e = rw e (rw (e, barrier_next) (set-IsSound (old_fits setting e)))
  call_at awaiting e = elim (Option-cases (g.view (wait_key base (g.members r).sn))) [
    | inl q ↦ rw e (rw q (rw (e, barrier_next) (restaged failed refl tt)))
    | inr (v, q) ↦ elim (Bool-cases (is_set (some v))) [
      | inr d ↦ rw e (rw q (rw (e, barrier_next) (rw d (restaged failed refl tt))))
      | inl d ↦ rw e (
          rw q (
            rw (e, barrier_next)
              (rw d (
                restaged outside refl
                  (s.flags (g.members r).sn (s.bounded r b) (ap is_set q ∙ d))))))
    ]
  ]
  call_at failed e = rw e s

  pub lost_at :
      (a : Answer) (z : Stage)
      → is_ok a.code ≡ false
      → (g.members r).stage ≡ z
      → IsSound base n (lost_step n a r g)
  unfolding lost_step barrier_next
  lost_at a outside bad e = rw e (restaged outside refl (old_fits outside e))
  lost_at a adding bad e = rw e (rw bad (restaged failed refl tt))
  lost_at a (removing_add val) bad e =
      rw e (restaged (removing_wait val) refl (old_fits (removing_add val) e))
  lost_at a (removing_wait val) bad e =
      let c : val ≤ card n (λ i. done_by g i (g.members r).sn) = old_fits (removing_wait val) e in
      rw e (
        restaged (to_wait n val) (to_wait-is_adding n val)
          (to_wait-fits n val (g.members r).sn (done_by g) c))
  lost_at a setting bad e = rw e (rw bad (restaged failed refl tt))
  lost_at a awaiting bad e = rw e (rw bad (restaged failed refl tt))
  lost_at a failed bad e = rw e (restaged failed refl tt)

  pub enter-IsSound : (g.members r).sn + 1 < u32_mod → IsSound base n (enter_step r g)
  unfolding enter_step
  enter-IsSound h =
      let sn : ℕ = (g.members r).sn in
      let m : Member = enter (g.members r) in
      let keeps : (k : ℕ) → performed (g.members r) k ≡ true → performed m k ≡ true =
        λ k q. entered_performed (g.members r) k h q in
      let more : (i k : ℕ) → done_by g i k ≡ true → done_by (moved r m g.view g) i k ≡ true =
        done_by-moved r m g.view g keeps in
      let next : (sn + 1) % u32_mod ≡ sn + 1 = omega arith in
      moved-IsSound base n r m g.view g s keeps
        (λ k c x q. omega (
          arith,
          s.counts k c x q,
          card_mono n (λ i. done_by g i k) (λ i. done_by (moved r m g.view g) i k) (λ i. more i k),
        ))
        (λ k c q i d. more i k (s.flags k c q i d)) tt (omega (arith, next))
