-- ===== src/Smem/Group/Examples.antt =====
-- Runs of a group of two ranks, and the theorems at them.
use memfabric_hybrid.Base.{
  ℕ, ◌+◌, ◌≤◌, ◌≡◌, refl, [], ◌∷◌, none, ◌==◌, if◌then◌else◌, arith, true, false, some, ◌<◌,
}
use memfabric_hybrid.Smem.Server.State.{Key, Value}
use memfabric_hybrid.Base.{length}
use memfabric_hybrid.Base.Assoc.{same_bytes}
use memfabric_hybrid.Base.Bytes.{le_bytes, from_le}
use memfabric_hybrid.Base.Pairs.{sort_pairs, insert_pair}
use memfabric_hybrid.Smem.Server.Ranks.{member}
use memfabric_hybrid.Smem.Server.State.{to_string, digits}
use memfabric_hybrid.Smem.Server.Outcomes.{value_or_empty}
use memfabric_hybrid.Smem.Server.Adding.{string_to_long, long_to_string, read_digits}
use memfabric_hybrid.Smem.Client.Calls.{View}
use memfabric_hybrid.Smem.Group.{
  outside, Group, group_base, user_base, add_key, wait_key, barrier_call, barrier_next, call_step,
  enter_step,
}
use memfabric_hybrid.Smem.Group.Rounds.{Run, start, entered, called_next, retries, Run-barrier}
use memfabric_hybrid.Smem.Group.Gather.{
  append_all, sort_gather_recv, gather_input, gather_offsets, copy_blocks,
}
use memfabric_hybrid.Smem.Group.Sorting.{blocks}
use memfabric_hybrid.Smem.Group.GatherLaws.{sort_gather_recv-append_all}
use memfabric_hybrid.Smem.Group.Joining.{
  event_key, join, leave, event_value, idle, taking, reading, Joiner, Joiners, join_call, join_next,
  begin_change, join_step,
}
use memfabric_hybrid.Smem.Group.Taking.{is_inside, own_event}
use memfabric_hybrid.Smem.Group.Exclusion.{JoinRun, at_rest, began, stepped, JoinRun-exclusive}

-- A user's barrier with the key "0" has the keys of the group's own barriers of version 0.
user_key_test : user_base (0x30 ∷ []) ≡ group_base 0
unfolding user_base group_base to_string digits
user_key_test = refl

abbrev no_keys : View
no_keys k = none

abbrev base : Key
base = 0x30 ∷ 0x5F ∷ []

abbrev idle_group : Group
idle_group = record { members = λ i. record { sn = 0; stage = outside }; view = no_keys }

-- Both ranks enter, both add, the last one sets the status, and both read it.
abbrev passed_group : Group
passed_group = call_step base 2 0 (
    call_step base 2 1 (
      call_step base 2 1
        (call_step base 2 1 (call_step base 2 0 (enter_step 1 (enter_step 0 idle_group))))))

passed_test :
    ((passed_group.members 0).stage ≡ outside) × ((passed_group.members 1).stage ≡ outside)
unfolding call_step enter_step barrier_call barrier_next add_key wait_key to_string digits
    same_bytes string_to_long long_to_string read_digits
passed_test = (refl, refl)

passed_group-Run : Run base 2 no_keys passed_group
unfolding enter_step
passed_group-Run =
    called_next 0 _
      (called_next 1 _
        (called_next 1 _
          (called_next 1 _
            (called_next 0 _
              (entered 1 _ (entered 0 _ start (omega arith) refl (omega arith)) (omega arith) refl
                (omega arith))
              (omega arith))
            (omega arith))
          (omega arith))
        (omega arith))
      (omega arith)

Run-barrier_example :
    ((passed_group.members 0).stage ≡ outside
      → (passed_group.members 0).sn ≤ (passed_group.members 1).sn)
    × ((passed_group.members 0).sn
        ≤ (passed_group.members 1).sn + 1 + retries base 2 no_keys passed_group passed_group-Run 0)
Run-barrier_example =
    Run-barrier base 2 no_keys passed_group 0 1 (omega arith) (λ sn. (refl, refl)) passed_group-Run
      (omega arith) (omega arith)

-- Rank 1 appends before rank 0.
abbrev sent : ℕ → Value
sent r = if r == 0 then 10 ∷ 11 ∷ [] else 20 ∷ 21 ∷ []

sent_sizes : (r : ℕ) → length (sent r) ≡ 2
sent_sizes r = ground arith

sort_gather_recv-append_all_example :
    sort_gather_recv 2 2 (value_or_empty (append_all base sent (1 ∷ 0 ∷ []) no_keys base))
    ≡ blocks sent 0 2
unfolding member
sort_gather_recv-append_all_example =
    sort_gather_recv-append_all 2 sent base (1 ∷ 0 ∷ []) no_keys sent_sizes refl (refl, (refl, tt))
      (omega arith, (omega arith, tt)) (omega arith)

gather_test :
    sort_gather_recv 2 2 (value_or_empty (append_all base sent (1 ∷ 0 ∷ []) no_keys base))
    ≡ 10 ∷ 11 ∷ 20 ∷ 21 ∷ []
unfolding sort_gather_recv append_all gather_input same_bytes le_bytes from_le gather_offsets
    copy_blocks sort_pairs insert_pair
gather_test = refl

abbrev joiner : ℕ → Joiner
joiner r = record {
  change = join;
  phase = idle;
  failed = false;
  joined = r == 1;
  version = 0;
  rank_size = 1;
}

-- Rank 0 joins while rank 1 leaves, and rank 1 tries in vain.
abbrev joining_group : Joiners
joining_group = join_step 1 true 0 (
    join_step 0 true 0
      (begin_change leave 1 (begin_change join 0 (record { members = joiner; view = no_keys }))))

joining_test :
    ((joining_group.members 0).phase ≡ reading) × ((joining_group.members 1).phase ≡ taking 1)
unfolding begin_change join_step join_call join_next event_value same_bytes
joining_test = (refl, refl)

joining_group-JoinRun : JoinRun 2 no_keys joining_group
unfolding begin_change join_step join_call join_next
joining_group-JoinRun =
    stepped 1 true 0 _
      (stepped 0 true 0 _
        (began leave 1 _ (began join 0 _ (at_rest joiner (λ r. refl)) (omega arith) refl)
          (omega arith) refl)
        (omega arith) (omega arith))
      (omega arith) (omega arith)

JoinRun-exclusive_example :
    (joining_group.view event_key ≡ some (own_event 0 (joining_group.members 0)))
    × ((i : ℕ) → i < 2 → is_inside (joining_group.members i).phase ≡ true → i ≡ 0)
unfolding begin_change join_step join_call join_next event_value same_bytes
JoinRun-exclusive_example =
    JoinRun-exclusive 2 no_keys joining_group 0 (omega arith) joining_group-JoinRun (omega arith)
      refl
