-- ===== src/Smem/Server/Examples.antt =====
-- Tests of the store server, and its theorems at concrete servers.
use memfabric_hybrid.Base.{
  ℕ, ◌≡◌, refl, true, [], ◌∷◌, ◌++◌, none, some, length, arith, In, add64, take, drop, ap, sym, ◌∙◌,
}
use mathlib.Core.Option.{some-ne-none}
use memfabric_hybrid.Base.Assoc.{lookup, put, same_bytes}
use memfabric_hybrid.Base.Bytes.{from_le}
use memfabric_hybrid.Smem.Packer.{SmemMessage}
use memfabric_hybrid.Smem.Server.State.{
  Key, Value, Request, Waiter, Server, Outcome, Hooks, success, backend_get, reply_note,
  reply_bytes, execute_handle, to_string,
}
use memfabric_hybrid.Smem.Server.Handlers.{
  set_handler, get_plain, get_missing, wait_for, cas_handler,
}
use memfabric_hybrid.Smem.Server.Updates.{append_handler, write_handler}
use memfabric_hybrid.Smem.Server.Ranks.{member, rank_key, auto_ranking}
use memfabric_hybrid.Smem.Server.RankLaws.{Ranked, find_or_insert_rank-Ranked}
use memfabric_hybrid.Smem.Server.WaiterLaws.{context, IsWatched}
use memfabric_hybrid.Smem.Server.Steps.{Quiet, get_plain-IsWatched}
use memfabric_hybrid.Smem.Server.Reach.{step_set, step_get, here, next, Reach-IsWatched}
use memfabric_hybrid.Smem.Server.Outcomes.{
  Fills, set_handler-Fills, append_handler-Fills, value_or_empty,
}
use memfabric_hybrid.Smem.Server.Exchanging.{Exchanges, cas_handler-Exchanges}
use memfabric_hybrid.Smem.Server.Writing.{Writes, write_handler-Writes, write_handler-strands}
use memfabric_hybrid.Smem.Server.Adding.{string_to_long, long_to_string, add_handler}
use memfabric_hybrid.Smem.Server.AddingLaws.{number_at, Adds, add_handler-Adds}
use memfabric_hybrid.Smem.Server.Timer.{IsPrompt, TimesOut, timer_round-TimesOut}
use memfabric_hybrid.Smem.Server.Overdue.{IsFiled, timer_round-IsPrompt}

abbrev plain_hooks : Hooks
plain_hooks = record { op_handlers = λ op. none; broken_handler = none; established = λ link. true }

plain_hooks-Quiet : Quiet plain_hooks
plain_hooks-Quiet op = refl

abbrev empty_server : Server
empty_server = record {
  store = [];
  contexts = [];
  key_waiters = [];
  timed_waiters = [];
  rank_waiters = [];
  rank_queue = [];
  world_size = 2;
  rank_index = 0;
  alive = 0 ∷ [];
  heartbeats = [];
  next_id = 0;
}

empty_server-IsWatched : IsWatched empty_server
unfolding lookup
empty_server-IsWatched = record {
  listed = λ id w e. absurd (some-ne-none w (ground arith));
  missing = λ id w e. absurd (some-ne-none w (ground arith));
  given = λ id w e. absurd (some-ne-none w (ground arith));
}

abbrev key_a : Key
key_a = 0x61 ∷ []

abbrev caller : Request
caller = record { link = 7; seq = 1 }

abbrev writer : Request
writer = record { link = 8; seq = 2 }

abbrev get_message : SmemMessage
get_message = record { mt = 1; user_def = 5000; keys = key_a ∷ []; values = [] }

abbrev set_message : SmemMessage
set_message = record { mt = 0; user_def = 0; keys = key_a ∷ []; values = (5 ∷ 6 ∷ []) ∷ [] }

-- One request waits for the key "a".
abbrev waiting : Server
waiting = (get_plain plain_hooks 100 caller get_message key_a empty_server).state

waiting-IsWatched : IsWatched waiting
waiting-IsWatched =
    get_plain-IsWatched plain_hooks 100 caller get_message key_a empty_server plain_hooks-Quiet
      empty_server-IsWatched

abbrev waiter : Waiter
waiter = record { deadline = 5100; key = key_a; request = caller }

waiting_test : context 0 waiting ≡ some waiter
unfolding get_plain get_missing wait_for lookup put execute_handle same_bytes
waiting_test = refl

Reach-IsWatched_example : IsWatched (set_handler plain_hooks writer set_message waiting).state
Reach-IsWatched_example =
    Reach-IsWatched plain_hooks empty_server
      (set_handler plain_hooks writer set_message waiting).state plain_hooks-Quiet
      empty_server-IsWatched
      (next (next here (step_get empty_server 100 caller get_message key_a))
        (step_set waiting writer set_message))

set_handler-Fills_example :
    Fills plain_hooks key_a
      (5 ∷ 6 ∷ [])
      (5 ∷ 6 ∷ [])
      waiting
      (set_handler plain_hooks writer set_message waiting)
    × In (reply_note writer success) (set_handler plain_hooks writer set_message waiting).replies
set_handler-Fills_example =
    set_handler-Fills plain_hooks writer set_message key_a (5 ∷ 6 ∷ []) waiting plain_hooks-Quiet
      waiting-IsWatched refl refl (omega arith)

append_handler-Fills_example :
    Fills plain_hooks key_a
      (value_or_empty (backend_get key_a waiting.store) ++ 5 ∷ 6 ∷ [])
      (5 ∷ 6 ∷ [])
      waiting
      (append_handler plain_hooks writer set_message waiting)
    × In
        (reply_bytes writer success
          (to_string (length (value_or_empty (backend_get key_a waiting.store) ++ 5 ∷ 6 ∷ []))))
        (append_handler plain_hooks writer set_message waiting).replies
append_handler-Fills_example =
    append_handler-Fills plain_hooks writer set_message key_a (5 ∷ 6 ∷ []) waiting plain_hooks-Quiet
      waiting-IsWatched refl refl (omega arith)

-- "12" is added to the key, which is missing.
abbrev add_message : SmemMessage
add_message = record { mt = 2; user_def = 0; keys = key_a ∷ []; values = (49 ∷ 50 ∷ []) ∷ [] }

twelve : string_to_long (49 ∷ 50 ∷ []) ≡ some 12
unfolding string_to_long
twelve = refl

twelve_back : 49 ∷ 50 ∷ [] ≡ long_to_string 12
unfolding long_to_string to_string
twelve_back = refl

minus_five : string_to_long (32 ∷ 45 ∷ 53 ∷ []) ≡ some 18446744073709551611
unfolding string_to_long
minus_five = refl

missing_number : number_at (backend_get key_a waiting.store) ≡ some 0
unfolding get_plain get_missing wait_for lookup put execute_handle same_bytes
missing_number = refl

add_handler-Adds_example :
    Adds plain_hooks writer key_a
      (49 ∷ 50 ∷ [])
      (add64 0 12)
      waiting
      (add_handler plain_hooks writer add_message waiting)
add_handler-Adds_example =
    add_handler-Adds plain_hooks writer add_message key_a (49 ∷ 50 ∷ []) 12 0 waiting
      plain_hooks-Quiet waiting-IsWatched refl refl (omega arith) twelve (omega arith) twelve_back
      missing_number

abbrev cas_message : SmemMessage
cas_message = record { mt = 5; user_def = 0; keys = key_a ∷ []; values = [] ∷ (9 ∷ []) ∷ [] }

cas_handler-Exchanges_example :
    Exchanges writer cas_message key_a []
      (9 ∷ [])
      waiting
      (cas_handler plain_hooks writer cas_message waiting)
cas_handler-Exchanges_example =
    cas_handler-Exchanges plain_hooks writer cas_message key_a [] (9 ∷ []) waiting refl refl
      (omega arith)

-- The bytes 7 and 8 at the offset 3.
abbrev written_value : Value
written_value = 3 ∷ 0 ∷ 0 ∷ 0 ∷ 7 ∷ 8 ∷ []

abbrev write_message : SmemMessage
write_message = record { mt = 6; user_def = 0; keys = key_a ∷ []; values = written_value ∷ [] }

near_test : from_le (take 4 written_value) ≡ 3
unfolding from_le
near_test = refl

write_handler-Writes_example :
    (o : Outcome) × Writes plain_hooks writer write_message key_a
      (from_le (take 4 written_value))
      (drop 4 written_value)
      waiting
      o
write_handler-Writes_example =
    write_handler-Writes plain_hooks writer write_message key_a written_value waiting
      plain_hooks-Quiet refl refl (omega arith) (omega arith) (omega (arith, near_test))

write_handler-strands_example :
    (o : Outcome) × (write_handler plain_hooks writer write_message waiting ≡ some o)
    × (context 0 o.state ≡ some waiter)
    × (o.replies ≡ reply_note writer success ∷ [])
    × (¬ IsWatched o.state)
write_handler-strands_example =
    write_handler-strands plain_hooks writer write_message key_a written_value waiting
      plain_hooks-Quiet refl refl (omega arith) (omega arith) (omega (arith, near_test)) 0 waiter
      waiting_test refl

-- The rank 0 is alive in a world of two, so that the link 7 gets the rank 1.
abbrev rank_message : SmemMessage
rank_message = record { mt = 1; user_def = 0; keys = auto_ranking ∷ []; values = [] }

no_rank_yet : backend_get (rank_key auto_ranking 7) empty_server.store ≡ none
unfolding lookup
no_rank_yet = refl

find_or_insert_rank-Ranked_example :
    (r : ℕ) × ((o : Outcome) × Ranked caller rank_message auto_ranking empty_server r o)
find_or_insert_rank-Ranked_example =
    find_or_insert_rank-Ranked caller rank_message auto_ranking empty_server no_rank_yet
      (omega arith)

-- Two requests wait, until 5100 and until 9000 milliseconds.
abbrev two_waiting : Server
two_waiting = record empty_server {
  contexts = (1, record waiter { deadline = 9000 }) ∷ (0, waiter) ∷ [];
  key_waiters = (key_a, 1 ∷ 0 ∷ []) ∷ [];
  timed_waiters = (5100, 0 ∷ []) ∷ (9000, 1 ∷ []) ∷ [];
  next_id = 2;
}

two_waiting-IsPrompt : IsPrompt 6000 two_waiting.timed_waiters
two_waiting-IsPrompt = (λ later jds i p. omega arith, (λ later jds i p. absurd i, tt))

timer_round-TimesOut_example : TimesOut plain_hooks 6000 two_waiting
timer_round-TimesOut_example =
    timer_round-TimesOut plain_hooks 6000 two_waiting two_waiting-IsPrompt

the_only : (x id : ℕ) → member id (x ∷ []) ≡ true → x ≡ id
unfolding member
the_only x id e = ground (arith, e)

two_waiting-contexts :
    (context 0 two_waiting ≡ some waiter)
    × (context 1 two_waiting ≡ some (record waiter { deadline = 9000 }))
unfolding lookup
two_waiting-contexts = (refl, refl)

two_waiting-IsFiled : IsFiled two_waiting two_waiting.timed_waiters
unfolding member
two_waiting-IsFiled = (
  (0, refl),
  (
    λ id e.
        (waiter, ap (λ i. context i two_waiting) (sym (the_only 0 id e)) ∙ two_waiting-contexts.0),
    (
      λ id e. ap (λ i. member i (1 ∷ [])) (sym (the_only 0 id e)),
      (
        (1, refl),
        (
          λ id e. (
            record waiter { deadline = 9000 },
            ap (λ i. context i two_waiting) (sym (the_only 1 id e)) ∙ two_waiting-contexts.1,
          ),
          (λ id e. refl, tt),
        ),
      ),
    ),
  ),
)

timer_round-IsPrompt_example : IsPrompt 6000 two_waiting.timed_waiters
timer_round-IsPrompt_example =
    timer_round-IsPrompt plain_hooks 6000 two_waiting two_waiting-IsFiled
      (timer_round-TimesOut plain_hooks 6000 two_waiting two_waiting-IsPrompt)
