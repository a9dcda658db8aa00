-- ===== src/Smem/Server/Ranks.antt =====
-- FindOrInsertRank, which gives a link its rank, and GetHandler, which calls it for the keys of ranks.
use memfabric_hybrid.Base.{
  ℕ, zero, suc, ◌+◌, ◌%◌, Bool, true, false, List, [], ◌∷◌, ◌++◌, Option, none, some, length, take,
  ltb, leb, ◌==◌, if◌then◌else◌,
}
use memfabric_hybrid.Base.Assoc.{same_bytes}
use memfabric_hybrid.Base.Bytes.{le_bytes}
use memfabric_hybrid.Smem.Packer.{SmemMessage, pack}
use memfabric_hybrid.Smem.Server.State.{
  Key, success, error, sm_ok, sm_error, sm_invalid_key, backend_get, backend_put, Request, Server,
  Outcome, Hooks, response, reply_note, reply_bytes, silent, answer, sole, to_string,
}
use memfabric_hybrid.Smem.Server.Handlers.{max_key_len, refuse, get_plain}

-- aliveRankSet_.find
unfoldable pub member : ℕ → List ℕ → Bool
member r [] = false
member r (x ∷ l) = if x == r then true else member r l

-- The loop `while (true)`, for at most `fuel` rounds: the first rank from the index on that is free.
unfoldable pub scan : ℕ → ℕ → ℕ → List ℕ → Option ℕ
unfolding member
scan zero world i alive = none
scan (suc fuel) world i alive =
    let rest = scan fuel world (i % world + 1) alive in
    if member (i % world) alive then rest else some (i % world)

abbrev pub rank_key : Key → ℕ → Key
rank_key k link = k ++ to_string link

-- The rank's four bytes under its link's key, and the reply with them.
abbrev pub ranked : Request → SmemMessage → Key → ℕ → Server → Outcome
ranked req m k r s =
    let (ret, st) = backend_put (rank_key k req.link) (le_bytes 4 r) s.store in
    answer (reply_bytes req ret (pack (response m.mt (le_bytes 4 r)))) sm_ok
      (record s { store = st; alive = r ∷ s.alive; rank_index = r })

abbrev pub insert_rank : Request → SmemMessage → Key → Option ℕ → Server → Option Outcome
insert_rank req m k none s = none
insert_rank req m k (some r) s = some (ranked req m k r s)

-- FindOrInsertRank: `none` is a loop that has not ended after worldSize_ rounds.
unfoldable pub find_or_insert_rank : Request → SmemMessage → Key → Server → Option Outcome
find_or_insert_rank req m k s = elim (backend_get (rank_key k req.link) s.store) [
  | some v ↦ some (answer (reply_bytes req success (pack (response m.mt v))) sm_ok s)
  | none ↦
      if leb s.world_size (length s.alive)
      then some (answer (reply_note req error) sm_error s)
      else insert_rank req m k (scan s.world_size s.world_size s.rank_index s.alive) s
]

-- AutoRankingStr, "AutoRanking#"
abbrev pub auto_ranking : Key
auto_ranking =
    0x41 ∷ 0x75 ∷ 0x74 ∷ 0x6F ∷ 0x52 ∷ 0x61 ∷ 0x6E ∷ 0x6B ∷ 0x69 ∷ 0x6E ∷ 0x67 ∷ 0x23 ∷ []

unfoldable pub get_handler : Hooks → ℕ → Request → SmemMessage → Server → Option Outcome
get_handler h now req m s = elim (sole m.keys) [
  | none ↦ some (refuse req s)
  | some k ↦ elim m.values [
    | v ∷ vs ↦ some (refuse req s)
    | [] ↦
        if ltb max_key_len (length k)
        then some (silent sm_invalid_key s)
        else if same_bytes (take 12 k) auto_ranking
        then find_or_insert_rank req m k s
        else some (get_plain h now req m k s)
  ]
]
