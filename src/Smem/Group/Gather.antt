-- ===== src/Smem/Group/Gather.antt =====
-- GroupAllGather of src/smem/csrc/net/smem_net_group_engine.cpp: the bytes that a rank appends, and
-- SortGatherRecv, which puts what all ranks appended into the order of the ranks.
use memfabric_hybrid.Base.{ℕ, zero, suc, ◌+◌, ◌*◌, ◌%◌, List, [], ◌∷◌, ◌++◌, take, drop, u32_mod}
use memfabric_hybrid.Base.Bytes.{le_bytes, from_le}
use memfabric_hybrid.Base.Pairs.{sort_pairs}
use memfabric_hybrid.Smem.Server.State.{Key, Value}
use memfabric_hybrid.Smem.Client.Calls.{View, append_call, meaning}

-- SMEM_GATHER_PREFIX_SIZE
abbrev pub gather_prefix_size : ℕ
gather_prefix_size = 4

-- GatherFillRank, and the copy of the send buffer behind the rank.
unfoldable pub gather_input : ℕ → Value → Value
gather_input rank sent = le_bytes 4 rank ++ sent

-- The first loop of SortGatherRecv, with its 32-bit index.
unfoldable pub gather_offsets : ℕ → ℕ → ℕ → List ℕ → List (ℕ × ℕ)
gather_offsets pre i zero bytes = []
gather_offsets pre i (suc n) bytes =
    let idx = i * (pre + gather_prefix_size) % u32_mod in
    (from_le (take 4 (drop idx bytes)), (idx + gather_prefix_size) % u32_mod)
    ∷ gather_offsets pre (i + 1) n bytes

-- The second loop: the blocks one behind the other in recvBuf.
unfoldable pub copy_blocks : ℕ → List ℕ → List (ℕ × ℕ) → Value
copy_blocks pre bytes [] = []
copy_blocks pre bytes ((rank, offset) ∷ l) = take pre (drop offset bytes) ++ copy_blocks pre bytes l

unfoldable pub sort_gather_recv : ℕ → ℕ → List ℕ → Value
unfolding gather_offsets copy_blocks
sort_gather_recv pre n bytes = copy_blocks pre bytes (sort_pairs (gather_offsets pre 0 n bytes))

-- The Append of each rank to the key of an all-gather, in the order `ranks`, on the map.
unfoldable pub append_all : Key → (ℕ → Value) → List ℕ → View → View
unfolding gather_input
append_all k sent [] f = f
append_all k sent (r ∷ ranks) f =
    append_all k sent ranks (meaning (append_call k (gather_input r (sent r))) f).1
