-- ===== src/Smem/Server/Waiters.antt =====
-- The waiting GET requests: GetOutWaitersInLock, WakeupWaiters and how a handler takes a key's waiters.
use memfabric_hybrid.Base.{ℕ, List, [], ◌∷◌, ◌++◌, Option, none, some, ◌==◌, if◌then◌else◌}
use memfabric_hybrid.Base.Assoc.{Assoc, lookup, put, remove, same_bytes}
use memfabric_hybrid.Smem.Packer.{pack}
use memfabric_hybrid.Smem.Server.State.{
  Key, Value, Request, Waiter, Server, Reply, Hooks, success, response, reply_bytes,
}

-- std::unordered_set<uint64_t>::erase
unfoldable pub without : ℕ → List ℕ → List ℕ
without id [] = []
without id (i ∷ l) = let rest = without id l in if i == id then rest else i ∷ rest

-- A deadline whose set became empty goes.
abbrev pub reset_timed : ℕ → List ℕ → Assoc ℕ (List ℕ) → Assoc ℕ (List ℕ)
reset_timed d [] m = remove ◌==◌ d m
reset_timed d (i ∷ l) m = put ◌==◌ d (i ∷ l) m

unfoldable pub drop_timed : ℕ → ℕ → Assoc ℕ (List ℕ) → Assoc ℕ (List ℕ)
unfolding without
drop_timed d id m = elim (lookup ◌==◌ d m) [
  | none ↦ m
  | some ids ↦ reset_timed d (without id ids) m
]

abbrev pub get_out : ℕ → Option Waiter → Server → List Request × Server
get_out id none s = ([], s)
get_out id (some w) s = (
  w.request ∷ [],
  record s {
    timed_waiters = drop_timed w.deadline id s.timed_waiters;
    contexts = remove ◌==◌ id s.contexts;
  },
)

-- GetOutWaitersInLock: the requests of the ids that still wait.
unfoldable pub get_out_waiters : List ℕ → Server → List Request × Server
get_out_waiters [] s = ([], s)
get_out_waiters (id ∷ ids) s =
    let (here, s1) = get_out id (lookup ◌==◌ id s.contexts) s in
    let (more, s2) = get_out_waiters ids s1 in (here ++ more, s2)

abbrev pub release_ids : Key → Option (List ℕ) → Server → List Request × Server
release_ids k none s = ([], s)
release_ids k (some ids) s =
    let (requests, s1) = get_out_waiters ids s in
    (requests, record s1 { key_waiters = remove same_bytes k s1.key_waiters })

-- The lines of SET, ADD, APPEND and CAS that take the waiters of a key out of the maps.
unfoldable pub release : Key → Server → List Request × Server
unfolding get_out_waiters
release k s = release_ids k (lookup same_bytes k s.key_waiters) s

-- WakeupWaiters: a reply to each request whose link still stands.
unfoldable pub wakeup : Hooks → List Request → Value → List Reply
wakeup h [] v = []
wakeup h (r ∷ rs) v =
    let rest = wakeup h rs v in
    if h.established r.link then reply_bytes r success (pack (response 1 v)) ∷ rest else rest
