-- ===== src/Smem/Group.antt =====
-- GroupBarrier and GroupAllGather of SmemNetGroupEngine, src/smem/csrc/net/smem_net_group_engine.cpp, as
-- the calls that they make of the store, one after the other, and what they do with each answer. A
-- call means what it means on the map of keys to values; logging is left out.
pub mod Keys
pub mod Card
pub mod Members
pub mod Barrier
pub mod Steps
pub mod Rounds
pub mod Gather
pub mod Sorting
pub mod GatherLaws
pub mod Joining
pub mod Taking
pub mod Locking
pub mod Exclusion
mod Examples
use memfabric_hybrid.Base.{
  ℕ, zero, suc, ◌+◌, ◌-◌, ◌*◌, ◌%◌, Bool, true, false, not, ◌&&◌, ◌||◌, List, [], ◌∷◌, ◌++◌, Option,
  none, some, ltb, leb, ◌==◌, length, if◌then◌else◌, u32_mod,
}
use memfabric_hybrid.Base.Assoc.{same_bytes}
use memfabric_hybrid.Smem.Server.State.{Key, Value, StoreCode, success, to_string}
use memfabric_hybrid.Smem.Client.{Code, store_code, malloc_failed, succeeded}
use memfabric_hybrid.Smem.Client.Calls.{
  Call, set_call, get_call, remove_call, add_call, append_call, Answer, View, meaning,
}

-- REMOVE_INTERVAL
abbrev pub remove_interval : ℕ
remove_interval = 2

-- SMEM_GROUP_SET_STR, "ok"
abbrev pub group_set_str : Value
group_set_str = 0x6F ∷ 0x6B ∷ []

-- "_BA" and "_BW"
abbrev pub add_suffix : Key
add_suffix = 0x5F ∷ 0x42 ∷ 0x41 ∷ []

abbrev pub wait_suffix : Key
wait_suffix = 0x5F ∷ 0x42 ∷ 0x57 ∷ []

-- What stands before the number of a barrier: the version of the group, or the user's key.
unfoldable pub group_base : ℕ → Key
group_base version = to_string version ++ (0x5F ∷ [])

unfoldable pub user_base : Key → Key
user_base k = k ++ (0x5F ∷ [])

unfoldable pub add_key : Key → ℕ → Key
add_key base sn = base ++ (to_string sn ++ add_suffix)

unfoldable pub wait_key : Key → ℕ → Key
wait_key base sn = base ++ (to_string sn ++ wait_suffix)

-- Where a rank is in GroupBarrier: before or behind it, or at one of its calls of the store, where `val` is
-- what Add gave; `failed` is a return of SM_ERROR.
pub data Stage : Type 0 where
  outside adding setting awaiting failed : Stage
  removing_add removing_wait : ℕ → Stage

-- A rank, with barrierGroupSn_ or its entry of userGroupBarrierSn_.
pub record Member : Type 0 where
  pub sn : ℕ
  pub stage : Stage

-- ++barrierGroupSn_
abbrev pub enter : Member → Member
enter m = record { sn = (m.sn + 1) % u32_mod; stage = adding }

unfoldable pub barrier_call : Key → Member → Option Call
unfolding add_key wait_key
barrier_call base m = elim m.stage [
  | outside ↦ none
  | adding ↦ some (add_call (add_key base m.sn) 1)
  | removing_add val ↦ some (remove_call (add_key base (m.sn - remove_interval)))
  | removing_wait val ↦ some (remove_call (wait_key base (m.sn - remove_interval)))
  | setting ↦ some (set_call (wait_key base m.sn) group_set_str)
  | awaiting ↦ some (get_call (wait_key base m.sn))
  | failed ↦ none
]

abbrev pub is_ok : Code → Bool
is_ok (store_code c) = succeeded c
is_ok malloc_failed = false

-- The last rank sets the status, the others wait.
abbrev pub to_wait : ℕ → ℕ → Stage
to_wait size val = if val == size then setting else awaiting

-- Only the first rank clears the keys of an older barrier.
abbrev pub behind_add : ℕ → ℕ → ℕ → Stage
behind_add size sn val =
    if val == 1 && ltb remove_interval sn then removing_add val else to_wait size val

abbrev pub number_or_zero : Option ℕ → ℕ
number_or_zero none = 0
number_or_zero (some n) = n

abbrev pub is_set : Option Value → Bool
is_set none = same_bytes [] group_set_str
is_set (some v) = same_bytes v group_set_str

unfoldable pub barrier_next : ℕ → Answer → Member → Stage
barrier_next size a m = elim m.stage [
  | outside ↦ outside
  | adding ↦ if is_ok a.code then behind_add size m.sn (number_or_zero a.number) else failed
  | removing_add val ↦ removing_wait val
  | removing_wait val ↦ to_wait size val
  | setting ↦ if is_ok a.code then awaiting else failed
  | awaiting ↦ if is_ok a.code && is_set a.value then outside else failed
  | failed ↦ failed
]

-- The ranks of a group, by their place in it, and the store.
pub record Group : Type 0 where
  pub members : ℕ → Member
  pub view : View

abbrev pub set_member : ℕ → Member → (ℕ → Member) → ℕ → Member
set_member r m f i = if i == r then m else f i

-- One call of the rank r, which returns its answer; a GET that times out has the answer of a missing key.
abbrev pub called : ℕ → ℕ → Option Call → Group → Group
called size r none g = g
called size r (some q) g =
    let (a, f) = meaning q g.view in
    record {
      members =
          set_member r (record (g.members r) { stage = barrier_next size a (g.members r) })
            g.members;
      view = f;
    }

unfoldable pub call_step : Key → ℕ → ℕ → Group → Group
unfolding barrier_call barrier_next
call_step base size r g = called size r (barrier_call base (g.members r)) g

-- A call of the rank r that is lost: it changes nothing, and returns an error.
unfoldable pub lost_step : ℕ → Answer → ℕ → Group → Group
unfolding barrier_next
lost_step size a r g = record g {
  members =
      set_member r (record (g.members r) { stage = barrier_next size a (g.members r) }) g.members;
}

unfoldable pub enter_step : ℕ → Group → Group
enter_step r g = record g { members = set_member r (enter (g.members r)) g.members }
