-- ===== src/Smem/Group/Joining.antt =====
-- GroupJoin and GroupLeave of src/smem/csrc/net/smem_net_group_engine.cpp, as the calls that they make of
-- the store, and what they do with each answer. Starting and stopping the watch of the events, the
-- sleeps between the tries of the event's key, the numbers of barriers that a new version resets, and
-- the handling of broken links are left out.
use memfabric_hybrid.Base.{
  ℕ, ◌+◌, ◌-◌, ◌/◌, ◌%◌, ◌^◌, Bool, true, false, not, ◌&&◌, ◌||◌, [], ◌∷◌, Option, none, some, ltb,
  ◌==◌, if◌then◌else◌, u32_mod,
}
use memfabric_hybrid.Base.Assoc.{same_bytes}
use memfabric_hybrid.Smem.Server.State.{Key, Value, success, to_string}
use memfabric_hybrid.Smem.Server.Outcomes.{value_or_empty}
use memfabric_hybrid.Smem.Client.{store_code}
use memfabric_hybrid.Smem.Client.Calls.{
  Call, cas_call, remove_call, add_call, Answer, plain, View, meaning,
}
use memfabric_hybrid.Smem.Group.{is_ok}

-- SMEM_GROUP_LISTEN_EVENT_KEY, "EVENT"
abbrev pub event_key : Key
event_key = 0x45 ∷ 0x56 ∷ 0x45 ∷ 0x4E ∷ 0x54 ∷ []

-- SMEM_GROUP_DYNAMIC_SIZE_KEY, "DSIZE"
abbrev pub size_key : Key
size_key = 0x44 ∷ 0x53 ∷ 0x49 ∷ 0x5A ∷ 0x45 ∷ []

-- MAX_RETRY
abbrev pub max_retry : ℕ
max_retry = 100000

-- 1 << GROUP_DYNAMIC_SIZE_BIT_LEN
abbrev pub size_limit : ℕ
size_limit = 2 ^ 30

-- The version, as the bit pattern of an int32_t, and the size.
abbrev pub split_size_and_version : ℕ → ℕ × ℕ
split_size_and_version val = (val / size_limit % u32_mod, val % size_limit)

pub data Change : Type 0 where
  join leave : Change

-- "J" or "L", and the rank
unfoldable pub event_value : Change → ℕ → Value
event_value join rank = 0x4A ∷ to_string rank
event_value leave rank = 0x4C ∷ to_string rank

-- What is added to the size and the version.
abbrev pub size_change : Change → ℕ
size_change join = size_limit + 1
size_change leave = size_limit - 1

-- Where a rank is: outside of the functions, or at one of their calls of the store. `taking` has the
-- number of the tries made before.
pub data Phase : Type 0 where
  idle reading resizing clearing : Phase
  taking : ℕ → Phase

-- `failed` is whether ret is an error, and behind the functions whether they return SM_ERROR.
pub record Joiner : Type 0 where
  pub change : Change
  pub phase : Phase
  pub failed : Bool
  pub joined : Bool
  pub version : ℕ
  pub rank_size : ℕ

unfoldable pub join_call : ℕ → Joiner → Option Call
unfolding event_value
join_call rank m = elim m.phase [
  | idle ↦ none
  | taking tries ↦ some (cas_call event_key [] (event_value m.change rank))
  | reading ↦ some (add_call size_key 0)
  | resizing ↦ some (add_call size_key (size_change m.change))
  | clearing ↦ some (remove_call event_key)
]

-- The key of the event was free, or has the rank's own event.
abbrev pub has_taken : Value → Answer → Bool
has_taken val a =
    is_ok a.code
    && (same_bytes (value_or_empty a.value) [] || same_bytes (value_or_empty a.value) val)

-- Behind the call back, which `agreed` or returned an error.
abbrev pub behind_callback : Bool → Joiner → Joiner
behind_callback agreed m =
    if agreed
    then record m { phase = resizing; failed = false }
    else record m { phase = clearing; failed = true }

-- Behind the loop over the event's key.
abbrev pub behind_taking : Change → Bool → Joiner → Joiner
behind_taking join agreed m = record m { phase = reading }
behind_taking leave agreed m = behind_callback agreed m

abbrev pub next_try : ℕ → Bool → Joiner → Joiner
next_try tries agreed m =
    let on = behind_taking m.change agreed m in
    if ltb (tries + 1) max_retry then record m { phase = taking (tries + 1) } else on

-- joinCb comes behind the new version and size.
abbrev pub behind_reading : ℕ → Bool → Joiner → Joiner
behind_reading val agreed m = behind_callback agreed (record m {
  version = ((split_size_and_version val).0 + 1) % u32_mod;
  rank_size = ((split_size_and_version val).1 + 1) % u32_mod;
})

abbrev pub behind_resizing : Change → ℕ → Bool → Joiner → Joiner
behind_resizing join val ok m = record m { phase = clearing; failed = not ok }
behind_resizing leave val ok m = record m {
  phase = clearing;
  failed = not ok;
  version = ((split_size_and_version val).0 + 1) % u32_mod;
}

abbrev pub behind_clearing : Change → Bool → Joiner → Joiner
behind_clearing join ok m = record m {
  phase = idle;
  failed = m.failed || not ok;
  joined = ok && not m.failed;
}
behind_clearing leave ok m = record m { phase = idle; failed = m.failed || not ok; joined = false }

-- What a call of Add leaves in its number: where it fails, what was there, `stale`.
abbrev pub number_or : ℕ → Option ℕ → ℕ
number_or stale none = stale
number_or stale (some n) = n

unfoldable pub join_next : ℕ → Bool → ℕ → Answer → Joiner → Joiner
unfolding event_value
join_next rank agreed stale a m = elim m.phase [
  | idle ↦ m
  | taking tries ↦
      let more = next_try tries agreed m in
      if has_taken (event_value m.change rank) a then behind_taking m.change agreed m else more
  | reading ↦
      let read = behind_reading (number_or stale a.number) agreed m in
      if is_ok a.code then read else record m { phase = clearing; failed = true }
  | resizing ↦ behind_resizing m.change (number_or stale a.number) (is_ok a.code) m
  | clearing ↦ behind_clearing m.change (is_ok a.code) m
]

-- The ranks of a dynamic group, and the store.
pub record Joiners : Type 0 where
  pub members : ℕ → Joiner
  pub view : View

abbrev pub set_joiner : ℕ → Joiner → (ℕ → Joiner) → ℕ → Joiner
set_joiner r m f i = if i == r then m else f i

-- GroupJoin returns at once in a rank that has joined, and GroupLeave in one that has not.
abbrev pub may_begin : Change → Bool → Bool
may_begin join joined = not joined
may_begin leave joined = joined

-- The entry of GroupJoin and of GroupLeave.
unfoldable pub begin_change : Change → ℕ → Joiners → Joiners
begin_change c r g =
    let members = set_joiner r (record (g.members r) { change = c; phase = taking 0 }) g.members in
    if may_begin c (g.members r).joined then record g { members = members } else g

abbrev pub answered : ℕ → Bool → ℕ → Answer → View → Joiners → Joiners
answered r agreed stale a f g = record {
  members = set_joiner r (join_next r agreed stale a (g.members r)) g.members;
  view = f;
}

abbrev pub asked : ℕ → Bool → ℕ → Option Call → Joiners → Joiners
asked r agreed stale none g = g
asked r agreed stale (some q) g =
    answered r agreed stale (meaning q g.view).0 (meaning q g.view).1 g

-- One call of the rank r, which returns its answer.
unfoldable pub join_step : ℕ → Bool → ℕ → Joiners → Joiners
unfolding join_call join_next
join_step r agreed stale g = asked r agreed stale (join_call r (g.members r)) g

-- What a call answers and leaves; without a call, nothing changes.
abbrev pub reply : Option Call → View → Answer × View
reply none f = (plain (store_code success), f)
reply (some q) f = meaning q f

abbrev pub left_by : Bool → Option Call → View → View
left_by reached o f = if reached then (reply o f).1 else f

-- A call of the rank r that fails, with the error `a`, before it has `reached` the store or behind that.
unfoldable pub failed_step : ℕ → Bool → ℕ → Bool → Answer → Joiners → Joiners
unfolding join_call join_next
failed_step r agreed stale reached a g =
    answered r agreed stale a (left_by reached (join_call r (g.members r)) g.view) g
