-- ===== src/Smem/Prefix/Examples.antt =====
-- Calls through a prefix store.
use memfabric_hybrid.Base.{◌≡◌, refl, true, false, List, [], ◌∷◌, none, some}
use memfabric_hybrid.Base.Assoc.{lookup, same_bytes}
use memfabric_hybrid.Smem.Server.State.{Key}
use memfabric_hybrid.Smem.Client.Serving.{Site, Session}
use memfabric_hybrid.Smem.Client.Calls.{Call, set_call, get_call, cas_call, view_of, meaning_all}
use memfabric_hybrid.Smem.Prefix.{under}

abbrev site : Site
site = record {
  hooks = record { op_handlers = λ op. none; broken_handler = none; established = λ link. true };
  now = 100;
  link = 7;
  note_text = [];
  stale_errno = false;
}

-- The server has the key "a", which the prefix store does not see.
abbrev opened : Session
opened = record {
  server = record {
    store = (0x61 ∷ [], 1 ∷ []) ∷ [];
    contexts = [];
    key_waiters = [];
    timed_waiters = [];
    rank_waiters = [];
    rank_queue = [];
    world_size = 2;
    rank_index = 0;
    alive = 0 ∷ [];
    heartbeats = [];
    next_id = 0;
  };
  next_seq = 5;
}

-- "S_"
abbrev prefix : Key
prefix = 0x53 ∷ 0x5F ∷ []

-- The empty key is one here: with the prefix, it has two bytes.
abbrev calls : List Call
calls =
    get_call (0x61 ∷ [])
    ∷ cas_call (0x61 ∷ []) [] (7 ∷ [])
    ∷ set_call [] (8 ∷ [])
    ∷ get_call (0x61 ∷ [])
    ∷ []

meaning_test :
    (meaning_all calls (under prefix (view_of opened.server))).1 (0x61 ∷ []) ≡ some (7 ∷ [])
unfolding lookup same_bytes
meaning_test = refl
