-- ===== src/Smem/Server/Links.antt =====
-- The links that come and go, and one round of each of the server's threads.
use memfabric_hybrid.Base.{
  ℕ, ◌-◌, ◌/◌, Bool, List, [], ◌∷◌, ◌++◌, Option, none, some, length, ltb, leb, ◌==◌, if◌then◌else◌,
  u32_mod,
}
use memfabric_hybrid.Base.Assoc.{Assoc, remove}
use memfabric_hybrid.Base.Bytes.{le_bytes, from_le}
use memfabric_hybrid.Smem.Packer.{pack}
use memfabric_hybrid.Smem.Server.State.{
  success, timeout, SmResult, sm_ok, backend_get, backend_put, backend_delete, backend_clear,
  Request, Server, Reply, Hooks, response, reply_note, reply_bytes,
}
use memfabric_hybrid.Smem.Server.Waiters.{without, get_out_waiters}
use memfabric_hybrid.Smem.Server.Ranks.{member, auto_ranking, rank_key}

-- std::numeric_limits<uint32_t>::max()
abbrev pub no_rank : ℕ
no_rank = u32_mod - 1

-- aliveRankSet_.insert
unfoldable pub insert_alive : ℕ → List ℕ → List ℕ
unfolding member
insert_alive r l = if member r l then l else r ∷ l

abbrev pub fix_world : ℕ → Server → Server
fix_world world s = if s.world_size == no_rank then record s { world_size = world } else s

abbrev pub register_rank : ℕ → ℕ → Server → Server
register_rank rank link s = record s {
  store = (backend_put (rank_key auto_ranking link) (le_bytes 4 rank) s.store).1;
  alive = insert_alive rank s.alive;
}

-- LinkConnectedHandler, with the two halves of the request's rank id.
unfoldable pub link_connected : ℕ → ℕ → ℕ → Server → SmResult × Server
unfolding insert_alive
link_connected world rank link s =
    if leb no_rank rank
    then (sm_ok, fix_world world s)
    else (sm_ok, register_rank rank link (fix_world world s))

-- The rank that a broken link had goes with its key.
abbrev pub forget_rank : ℕ → ℕ → Server → Server
forget_rank rank link s = record s {
  alive = without rank s.alive;
  store = (backend_delete (rank_key auto_ranking link) s.store).1;
}

-- The last client is gone.
abbrev pub clear_data : Server → Server
clear_data s = record s {
  rank_index = 0;
  store = backend_clear s.store;
  contexts = [];
  key_waiters = [];
  timed_waiters = [];
  rank_waiters = [];
  rank_queue = [];
}

abbrev pub clear_if_last : List ℕ → Server → Server
clear_if_last [] s = clear_data s
clear_if_last (r ∷ l) s = s

abbrev pub broken_effect : Hooks → ℕ → Server → Server
broken_effect h link s = elim h.broken_handler [
  | some f ↦ record s { store = f link s.store }
  | none ↦ clear_if_last s.alive s
]

-- LinkBrokenHandler from the erasure of the heartbeat on, for the link's rank or `no_rank`.
unfoldable pub leave : Hooks → ℕ → ℕ → Server → Server
leave h rank link s =
    let s1 = broken_effect h link (record s { heartbeats = remove ◌==◌ link s.heartbeats }) in
    let s2 = record s1 { rank_waiters = remove ◌==◌ link s1.rank_waiters } in
    if rank == no_rank then s2 else record s2 { rank_queue = s2.rank_queue ++ rank ∷ [] }

-- LinkBrokenHandler(link): `none` is the copy of a value of more than four bytes into a uint32_t.
unfoldable pub link_broken : Hooks → ℕ → Server → Option Server
unfolding leave
link_broken h link s = elim (backend_get (rank_key auto_ranking link) s.store) [
  | none ↦ some (leave h no_rank link s)
  | some v ↦
      if ltb 4 (length v)
      then none
      else some (leave h (from_le v) link (forget_rank (from_le v) link s))
]

-- LinkBrokenHandler(linkId), which the checker calls.
abbrev pub inner_broken : Hooks → ℕ → Server → Server
inner_broken h link s = elim h.broken_handler [
  | some f ↦ record s { store = f link s.store; heartbeats = remove ◌==◌ link s.heartbeats }
  | none ↦ record s { heartbeats = remove ◌==◌ link s.heartbeats }
]

-- The inner loop of TimerThreadTask: the list is in the order in which the map is iterated.
unfoldable pub take_expired : ℕ → Assoc ℕ (List ℕ) → List ℕ × Assoc ℕ (List ℕ)
take_expired now [] = ([], [])
take_expired now ((deadline, ids) ∷ m) =
    let (more, left) = take_expired now m in
    if ltb now deadline then ([], (deadline, ids) ∷ m) else (ids ++ more, left)

unfoldable pub timeouts : Hooks → List Request → List Reply
timeouts h [] = []
timeouts h (r ∷ rs) =
    let rest = timeouts h rs in if h.established r.link then reply_note r timeout ∷ rest else rest

-- One round of TimerThreadTask, at `now` milliseconds.
unfoldable pub timer_round : Hooks → ℕ → Server → Server × List Reply
unfolding take_expired timeouts
timer_round h now s =
    let (ids, left) = take_expired now s.timed_waiters in
    let (requests, s1) = get_out_waiters ids (record s { timed_waiters = left }) in
    (s1, timeouts h requests)

unfoldable pub notify : Hooks → ℕ → Assoc ℕ Request → List Reply
notify h rank [] = []
notify h rank ((link, r) ∷ m) =
    let rest = notify h rank m in
    if h.established r.link
    then reply_bytes r success (pack (response 7 (le_bytes 4 rank))) ∷ rest
    else rest

abbrev pub notify_first : Hooks → List ℕ → Server → Server × List Reply
notify_first h [] s = (s, [])
notify_first h (rank ∷ more) s = (record s { rank_queue = more }, notify h rank s.rank_waiters)

-- One round of RankStateTask, which waits while the queue is empty.
unfoldable pub rank_state_round : Hooks → Server → Server × List Reply
unfolding notify
rank_state_round h s = notify_first h s.rank_queue s

-- HEARTBEAT_INTERVAL and HEARTBEAT_TIMEOUT.
abbrev pub heartbeat_interval : ℕ
heartbeat_interval = 2000

abbrev pub heartbeat_timeout : ℕ
heartbeat_timeout = 3

unfoldable pub is_late : ℕ → ℕ → Bool
is_late now beat = ltb heartbeat_timeout ((now - beat) / heartbeat_interval)

unfoldable pub late_links : ℕ → Assoc ℕ ℕ → List ℕ
unfolding is_late
late_links now [] = []
late_links now ((link, beat) ∷ m) =
    let rest = late_links now m in if is_late now beat then link ∷ rest else rest

unfoldable pub break_all : Hooks → List ℕ → Server → Server
break_all h [] s = s
break_all h (link ∷ links) s = break_all h links (inner_broken h link s)

-- One round of CheckerThreadTask, at `now` milliseconds.
unfoldable pub checker_round : Hooks → ℕ → Server → Server
unfolding late_links break_all
checker_round h now s = break_all h (late_links now s.heartbeats) s
