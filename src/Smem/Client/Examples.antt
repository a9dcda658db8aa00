-- ===== src/Smem/Client/Examples.antt =====
-- Calls of a client on a server, and the theorems at concrete states.
use memfabric_hybrid.Base.{
  ℕ, ◌-◌, ◌≡◌, refl, true, false, List, [], ◌∷◌, none, some, ◌==◌, arith, In, u64_mod,
}
use mathlib.Core.Option.{some-ne-none}
use memfabric_hybrid.Base.Assoc.{lookup, put, same_bytes}
use memfabric_hybrid.Smem.Server.State.{Key}
use memfabric_hybrid.Smem.Packer.{pack}
use memfabric_hybrid.Smem.Server.State.{Outcome, success, response, reply_bytes}
use memfabric_hybrid.Smem.Server.Handlers.{set_handler}
use memfabric_hybrid.Smem.Server.Receive.{receive_message}
use memfabric_hybrid.Smem.Client.{request_of}
use memfabric_hybrid.Smem.Client.Contexts.{watch_request, watch_notice, tell}
use memfabric_hybrid.Smem.Client.Watching.{watch-told}
use memfabric_hybrid.Smem.Server.Adding.{string_to_long, long_to_string}
use memfabric_hybrid.Smem.Server.Ranks.{member}
use memfabric_hybrid.Smem.Server.WaiterLaws.{IsWatched}
use memfabric_hybrid.Smem.Client.Numbers.{string_to_long-long_to_string}
use memfabric_hybrid.Smem.Client.Serving.{Site, Session}
use memfabric_hybrid.Smem.Client.Calls.{
  Call, set_call, get_call, remove_call, append_call, cas_call, add_call, write_call,
}
use memfabric_hybrid.Smem.Client.Contexts.{
  file_context, waiting, Client, null_response, begin_blocked, receive_response,
  link_broken_handler,
}
use memfabric_hybrid.Smem.Client.ContextLaws.{Run, start, called, wake_all, idle_client}
use memfabric_hybrid.Smem.Client.Wakeups.{Run-wakes, Run-dangles}

string_to_long-long_to_string_example :
    string_to_long (long_to_string (u64_mod - 5)) ≡ some (u64_mod - 5)
string_to_long-long_to_string_example = string_to_long-long_to_string (u64_mod - 5) (omega arith)

abbrev site : Site
site = record {
  hooks = record { op_handlers = λ op. none; broken_handler = none; established = λ link. true };
  now = 100;
  link = 7;
  note_text = [];
  stale_errno = false;
}

abbrev opened : Session
opened = record {
  server = record {
    store = [];
    contexts = [];
    key_waiters = [];
    timed_waiters = [];
    rank_waiters = [];
    rank_queue = [];
    world_size = 2;
    rank_index = 0;
    alive = 0 ∷ [];
    heartbeats = [];
    next_id = 0;
  };
  next_seq = 5;
}

opened-IsWatched : IsWatched opened.server
unfolding lookup
opened-IsWatched = record {
  listed = λ id w e. absurd (some-ne-none w (ground arith));
  missing = λ id w e. absurd (some-ne-none w (ground arith));
  given = λ id w e. absurd (some-ne-none w (ground arith));
}

abbrev key_a : Key
key_a = 0x61 ∷ []

abbrev calls : List Call
calls =
    set_call key_a (1 ∷ [])
    ∷ append_call key_a (2 ∷ [])
    ∷ write_call key_a (9 ∷ []) 3
    ∷ cas_call key_a (1 ∷ []) []
    ∷ get_call key_a
    ∷ remove_call key_a
    ∷ add_call key_a 7
    ∷ []

-- Two calls are blocked.
abbrev one_blocked : Client
one_blocked = (begin_blocked true (idle_client true)).1

one_blocked-Run : Run one_blocked (0 ∷ [])
unfolding begin_blocked lookup file_context put
one_blocked-Run = called true 0 (idle_client true) [] (start true) refl refl

Run-wakes_example :
    ((n : ℕ) → member n (0 ∷ []) ≡ true → (receive_response n one_blocked).0 ≡ some waiting)
    × (wake_all (link_broken_handler one_blocked).0 (0 ∷ []) ≡ [])
Run-wakes_example = Run-wakes one_blocked (0 ∷ []) one_blocked-Run

one_blocked-next :
    (one_blocked.linked ≡ true) × (lookup ◌==◌ one_blocked.next_seq one_blocked.contexts ≡ none)
unfolding begin_blocked lookup file_context put
one_blocked-next = (refl, refl)

Run-dangles_example :
    ((begin_blocked false one_blocked).0 ≡ null_response)
    × (member one_blocked.next_seq (0 ∷ []) ≡ false)
    × In (one_blocked.next_seq, waiting) (link_broken_handler (begin_blocked false one_blocked).1).0
Run-dangles_example =
    Run-dangles one_blocked (0 ∷ []) one_blocked-Run one_blocked-next.0 one_blocked-next.1

watch-told_example :
    (o : Outcome) × (receive_message site.hooks 100
        (record { link = 3; seq = 9 })
        (pack (watch_request key_a))
        opened.server
      ≡ some o)
    × (o.replies ≡ [])
    × In
        (reply_bytes (record { link = 3; seq = 9 }) success (pack (response 1 (4 ∷ []))))
        (set_handler site.hooks
          (record { link = 7; seq = 5 })
          (request_of 0 key_a ((4 ∷ []) ∷ []))
          o.state).replies
    × (watch_notice (some (pack (response 1 (4 ∷ [])))) ≡ tell success (4 ∷ []))
unfolding lookup same_bytes
watch-told_example =
    watch-told site.hooks 100 (record { link = 3; seq = 9 }) (record { link = 7; seq = 5 }) key_a
      (4 ∷ []) opened.server (λ op. refl) opened-IsWatched (omega arith, omega arith) refl refl refl
      (omega arith)
