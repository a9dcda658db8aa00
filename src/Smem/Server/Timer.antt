-- ===== src/Smem/Server/Timer.antt =====
-- One round of the timer thread, TimerThreadTask of smem_tcp_config_store_server.cpp.
use memfabric_hybrid.Base.{
  ℕ, ◌≤◌, ◌<◌, ◌≡◌, refl, sym, ap, ◌∙◌, inl, inr, true, false, List, [], ◌∷◌, ◌++◌, none, some, In,
  ltb, leb, arith, Bool-cases, if◌then◌else◌,
}
use memfabric_hybrid.Smem.Server.State.{Server, Waiter, Request, Hooks, reply_note, timeout}
use memfabric_hybrid.Smem.Server.Ranks.{member}
use memfabric_hybrid.Smem.Server.Waiters.{get_out_waiters}
use memfabric_hybrid.Smem.Server.Links.{take_expired, timeouts, timer_round}
use memfabric_hybrid.Smem.Server.WaiterLaws.{context, context-get_out_waiters, In-get_out_waiters}

-- The ids whose deadline has passed, wherever in the map it stands.
unfoldable pub due : ℕ → List (ℕ × List ℕ) → List ℕ
due now [] = []
due now ((deadline, ids) ∷ m) =
    let rest = due now m in if leb deadline now then ids ++ rest else rest

-- No deadline that has passed comes behind one that is still to come.
abbrev pub IsPrompt : ℕ → List (ℕ × List ℕ) → Type 0
IsPrompt now [] = Unit {0}
IsPrompt now ((first, ids) ∷ m) =
    ((later : ℕ) (jds : List ℕ) → In (later, jds) m → later ≤ now → first ≤ now) × IsPrompt now m

due-none :
    (now first : ℕ) (m : List (ℕ × List ℕ))
    → now < first
    → ((later : ℕ) (jds : List ℕ) → In (later, jds) m → later ≤ now → first ≤ now)
    → due now m ≡ []
unfolding due
due-none now first [] h k = refl
due-none now first ((d, ids) ∷ m) h k = elim (Bool-cases (leb d now)) [
  | inr q ↦ rw q (due-none now first m h (λ later jds i. k later jds (inr i)))
  | inl q ↦
      let bad : first ≤ now = k d ids (inl refl) (ground (arith, q)) in absurd (omega (arith, bad))
]

take_expired-due :
    (now : ℕ) (m : List (ℕ × List ℕ)) → IsPrompt now m → (take_expired now m).0 ≡ due now m
unfolding take_expired due
take_expired-due now [] p = refl
take_expired-due now ((d, ids) ∷ m) (first, p) = elim (Bool-cases (ltb now d)) [
  | inl q ↦
      let late : leb d now ≡ false = ground (arith, q) in
      rw q (rw late (sym (due-none now d m (ground (arith, q)) first)))
  | inr q ↦
      let passed : leb d now ≡ true = ground (arith, q) in
      rw q (rw passed (ap (λ l. ids ++ l) (take_expired-due now m p)))
]

In-timeouts :
    (h : Hooks) (r : Request) (rs : List Request)
    → In r rs
    → h.established r.link ≡ true
    → In (reply_note r timeout) (timeouts h rs)
unfolding timeouts
In-timeouts h r [] i e = absurd i
In-timeouts h r (q ∷ rs) (inl same) e = rw (← same) (rw e (inl refl))
In-timeouts h r (q ∷ rs) (inr i) e = elim (Bool-cases (h.established q.link)) [
  | inl d ↦ rw d (inr (In-timeouts h r rs i e))
  | inr d ↦ rw d (In-timeouts h r rs i e)
]

-- What a round does: the requests that wait afterwards, and the replies.
pub record TimesOut (h : Hooks) (now : ℕ) (s : Server) : Type 0 where
  pub waiting :
      (id : ℕ)
      → context id (timer_round h now s).0
        ≡ (if member id (due now s.timed_waiters) then none else context id s)
  pub told :
      (id : ℕ) (w : Waiter)
      → context id s ≡ some w
      → member id (due now s.timed_waiters) ≡ true
      → h.established w.request.link ≡ true
      → In (reply_note w.request timeout) (timer_round h now s).1

-- A round of the timer over a map of deadlines in which no deadline that has passed comes behind one that
-- is still to come takes out exactly the waiting requests that are filed under a deadline that has
-- passed, and leaves all others as they were; each request that it takes out, and whose link stands, is
-- sent the answer TIMEOUT.
pub timer_round-TimesOut :
    (h : Hooks) (now : ℕ) (s : Server) → IsPrompt now s.timed_waiters → TimesOut h now s
unfolding timer_round
timer_round-TimesOut h now s p =
    let ids : List ℕ = (take_expired now s.timed_waiters).0 in
    let left : Server = record s { timed_waiters = (take_expired now s.timed_waiters).1 } in
    let all : ids ≡ due now s.timed_waiters = take_expired-due now s.timed_waiters p in
    record {
      waiting = λ id.
          context-get_out_waiters id ids left
          ∙ ap (λ l. if member id l then none else context id s) all;
      told = λ id w e k up.
          In-timeouts h w.request (get_out_waiters ids left).0
            (In-get_out_waiters id w ids left e (ap (member id) all ∙ k)) up;
    }
