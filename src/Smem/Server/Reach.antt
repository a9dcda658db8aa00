-- ===== src/Smem/Server/Reach.antt =====
-- What the server reaches by requests on plain keys, heartbeats, watches and rounds of its threads.
use memfabric_hybrid.Base.{
  ℕ, ◌≡◌, sym, ◌∙◌, inl, inr, List, [], ◌∷◌, some, ◌==◌, Bool-cases, Option-cases,
}
use mathlib.Core.Option.{some-ne-none}
use memfabric_hybrid.Base.Assoc.{lookup, same_bytes}
use memfabric_hybrid.Smem.Packer.{SmemMessage}
use memfabric_hybrid.Smem.Server.State.{Key, Value, Request, Waiter, Server, Hooks, sole}
use memfabric_hybrid.Smem.Server.Waiters.{get_out_waiters}
use memfabric_hybrid.Smem.Server.Handlers.{
  set_handler, get_plain, remove_handler, cas_handler, heartbeat_handler, watch_handler, watch_link,
  heartbeat_body, watch_rank_down_key,
}
use memfabric_hybrid.Smem.Server.Updates.{append_handler}
use memfabric_hybrid.Smem.Server.Adding.{add_handler}
use memfabric_hybrid.Smem.Server.AddingLaws.{add_handler-IsWatched}
use memfabric_hybrid.Smem.Server.Ranks.{member}
use memfabric_hybrid.Smem.Server.Links.{timer_round, take_expired, notify_first, rank_state_round}
use memfabric_hybrid.Smem.Server.WaiterLaws.{
  context, IsWatched, context-get_out_waiters, get_out_waiters-frame,
}
use memfabric_hybrid.Smem.Server.Steps.{
  Quiet, set_handler-IsWatched, get_plain-IsWatched, remove_handler-IsWatched,
  cas_handler-IsWatched, append_handler-IsWatched,
}

timer_round-IsWatched :
    (h : Hooks) (now : ℕ) (s : Server) → IsWatched s → IsWatched (timer_round h now s).0
unfolding timer_round
timer_round-IsWatched h now s w =
    let ids : List ℕ = (take_expired now s.timed_waiters).0 in
    let s1 : Server = record s { timed_waiters = (take_expired now s.timed_waiters).1 } in
    let (stored, filed, next) = get_out_waiters-frame ids s1 in
    let old : (id : ℕ) (x : Waiter)
        → context id (get_out_waiters ids s1).1 ≡ some x
        → context id s ≡ some x =
      λ id x e. elim (Bool-cases (member id ids)) [
        | inl q ↦ absurd (some-ne-none x (sym e ∙ context-get_out_waiters id ids s1 ∙ (rw q)))
        | inr q ↦ sym (context-get_out_waiters id ids s1 ∙ (rw q)) ∙ e
      ] in
    record {
      listed = λ id x e. rw filed (w.listed id x (old id x e));
      missing = λ id x e. rw stored (w.missing id x (old id x e));
      given = λ id x e. rw next (w.given id x (old id x e));
    }

heartbeat_body-IsWatched :
    (now : ℕ) (req : Request) (ks : List Key) (vs : List Value) (s : Server)
    → IsWatched s
    → IsWatched (heartbeat_body now req ks vs s).state
heartbeat_body-IsWatched now req [] [] s w = record {
  listed = w.listed;
  missing = w.missing;
  given = w.given;
}
heartbeat_body-IsWatched now req [] (v ∷ vs) s w = w
heartbeat_body-IsWatched now req (k ∷ ks) vs s w = w

watch_link-IsWatched :
    (req : Request) (s : Server) → IsWatched s → IsWatched (watch_link req s).state
watch_link-IsWatched req s w = elim (Option-cases (lookup ◌==◌ req.link s.rank_waiters)) [
  | inl e ↦ rw (e, watch_link) (record { listed = w.listed; missing = w.missing; given = w.given })
  | inr (r, e) ↦ rw (e, watch_link) w
]

notify_first-IsWatched :
    (h : Hooks) (queue : List ℕ) (s : Server) → IsWatched s → IsWatched (notify_first h queue s).0
notify_first-IsWatched h [] s w = w
notify_first-IsWatched h (rank ∷ more) s w = record {
  listed = w.listed;
  missing = w.missing;
  given = w.given;
}

heartbeat_handler-IsWatched :
    (now : ℕ) (req : Request) (m : SmemMessage) (s : Server)
    → IsWatched s
    → IsWatched (heartbeat_handler now req m s).state
unfolding heartbeat_handler
heartbeat_handler-IsWatched now req m s w = heartbeat_body-IsWatched now req m.keys m.values s w

watch_handler-IsWatched :
    (req : Request) (m : SmemMessage) (s : Server)
    → IsWatched s
    → IsWatched (watch_handler req m s).state
unfolding watch_handler
watch_handler-IsWatched req m s w = elim (Option-cases (sole m.keys)) [
  | inl e ↦ rw (e, watch_handler) w
  | inr (k, e) ↦
      rw (e, watch_handler)
        (elim (Bool-cases (same_bytes k watch_rank_down_key)) [
          | inl q ↦ rw q (watch_link-IsWatched req s w)
          | inr q ↦ rw q w
        ])
]

rank_state_round-IsWatched :
    (h : Hooks) (s : Server) → IsWatched s → IsWatched (rank_state_round h s).0
unfolding rank_state_round
rank_state_round-IsWatched h s w = notify_first-IsWatched h s.rank_queue s w

-- A step of the server: a request, or a round of the timer or of the rank-state thread. Requests for
-- ranks, WRITE, and links that come or go are not among them.
pub data Step (h : Hooks) : Server → Server → Type 0 where
  step_set : (s : Server) (req : Request) (m : SmemMessage) → Step h s (set_handler h req m s).state
  step_get :
      (s : Server) (now : ℕ) (req : Request) (m : SmemMessage) (k : Key)
      → Step h s (get_plain h now req m k s).state
  step_remove :
      (s : Server) (req : Request) (m : SmemMessage) → Step h s (remove_handler req m s).state
  step_append :
      (s : Server) (req : Request) (m : SmemMessage) → Step h s (append_handler h req m s).state
  step_add : (s : Server) (req : Request) (m : SmemMessage) → Step h s (add_handler h req m s).state
  step_cas : (s : Server) (req : Request) (m : SmemMessage) → Step h s (cas_handler h req m s).state
  step_watch :
      (s : Server) (req : Request) (m : SmemMessage) → Step h s (watch_handler req m s).state
  step_heartbeat :
      (s : Server) (now : ℕ) (req : Request) (m : SmemMessage)
      → Step h s (heartbeat_handler now req m s).state
  step_timer : (s : Server) (now : ℕ) → Step h s (timer_round h now s).0
  step_rank_state : (s : Server) → Step h s (rank_state_round h s).0

pub data Reach (h : Hooks) (s : Server) : Server → Type 0 where
  here : Reach h s s
  next : {t u : Server} → Reach h s t → Step h t u → Reach h s u

Step-IsWatched : {h : Hooks} {s t : Server} → Quiet h → Step h s t → IsWatched s → IsWatched t
Step-IsWatched quiet (step_set s req m) w = set_handler-IsWatched _ req m s quiet w
Step-IsWatched quiet (step_get s now req m k) w = get_plain-IsWatched _ now req m k s quiet w
Step-IsWatched quiet (step_remove s req m) w = remove_handler-IsWatched req m s w
Step-IsWatched quiet (step_append s req m) w = append_handler-IsWatched _ req m s quiet w
Step-IsWatched quiet (step_add s req m) w = add_handler-IsWatched _ req m s quiet w
Step-IsWatched quiet (step_cas s req m) w = cas_handler-IsWatched _ req m s w
Step-IsWatched quiet (step_watch s req m) w = watch_handler-IsWatched req m s w
Step-IsWatched quiet (step_heartbeat s now req m) w = heartbeat_handler-IsWatched now req m s w
Step-IsWatched quiet (step_timer s now) w = timer_round-IsWatched _ now s w
Step-IsWatched quiet (step_rank_state s) w = rank_state_round-IsWatched _ s w

-- From a server where it is so, with no operation handler registered, SET, GET of a plain key, REMOVE,
-- APPEND, ADD, CAS, WATCH and HEARTBEAT requests and rounds of the timer and of the rank-state thread reach
-- only servers where every waiting request is filed under its key and waits for a key that is not
-- stored.
pub Reach-IsWatched : (h : Hooks) (s t : Server) → Quiet h → IsWatched s → Reach h s t → IsWatched t
Reach-IsWatched h s t quiet w here = w
Reach-IsWatched h s t quiet w (next r q) = Step-IsWatched quiet q (Reach-IsWatched h s _ quiet w r)
