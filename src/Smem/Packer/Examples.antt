-- ===== src/Smem/Packer/Examples.antt =====
-- Tests of the message packer, and its theorems at a concrete message.
use memfabric_hybrid.Base.{ℕ, ◌≡◌, refl, List, [], ◌∷◌, ◌++◌, arith}
use memfabric_hybrid.Base.Bytes.{le_bytes, from_le}
use memfabric_hybrid.Smem.Packer.{
  SmemMessage, done, overread, unpack, pack, total_size, full, unpack_body, unpack_keys,
  unpack_values, unpack_items, read_word,
}
use memfabric_hybrid.Smem.Packer.RoundTrip.{IsPackable, unpack-pack}
use memfabric_hybrid.Smem.Packer.Canonical.{unpack-canonical, unpack_overread}

-- SET of the key "ab" to the bytes 7, 8, 9.
abbrev set_message : SmemMessage
set_message = record {
  mt = 0;
  user_def = 5;
  keys = (0x61 ∷ 0x62 ∷ []) ∷ [];
  values = (7 ∷ 8 ∷ 9 ∷ []) ∷ [];
}

set_message-IsPackable : IsPackable set_message
set_message-IsPackable = omega arith

size_test : total_size set_message ≡ 55
unfolding total_size
size_test = refl

head_test :
    pack (record set_message { keys = []; values = [] })
    ≡ 34 ∷ 0 ∷ 0 ∷ 0 ∷ 0 ∷ 0 ∷ 0 ∷ 0 ∷ 5 ∷ 0 ∷ 0 ∷ 0 ∷ 0 ∷ 0 ∷ 0 ∷ 0 ∷ 0 ∷ 0 ∷ 0 ∷ 0 ∷ 0 ∷ 0 ∷ 0 ∷ 0
      ∷ 0 ∷ 0 ∷ 0 ∷ 0 ∷ 0 ∷ 0 ∷ 0 ∷ 0 ∷ 0 ∷ 0 ∷ []
unfolding pack le_bytes
head_test = refl

unpack-pack_example :
    unpack (pack set_message ++ (1 ∷ [])) ≡ done (set_message, total_size set_message)
unpack-pack_example = unpack-pack set_message set_message-IsPackable (1 ∷ [])

abbrev wire : List ℕ
wire =
    34 ∷ 0 ∷ 0 ∷ 0 ∷ 0 ∷ 0 ∷ 0 ∷ 0 ∷ 5 ∷ 0 ∷ 0 ∷ 0 ∷ 0 ∷ 0 ∷ 0 ∷ 0 ∷ 3 ∷ 0 ∷ 0 ∷ 0 ∷ 0 ∷ 0 ∷ 0 ∷ 0
    ∷ 0 ∷ 0 ∷ 0 ∷ 0 ∷ 0 ∷ 0 ∷ 0 ∷ 0 ∷ 0 ∷ 0 ∷ 9 ∷ []

abbrev wire_message : SmemMessage
wire_message = record { mt = 3; user_def = 5; keys = []; values = [] }

unpack-wire : unpack wire ≡ done (wire_message, 34)
unfolding unpack full unpack_body unpack_keys unpack_values unpack_items read_word from_le
unpack-wire = refl

unpack-canonical_example :
    IsPackable wire_message
    × (34 ≡ total_size wire_message)
    × ((rest : List ℕ) × (wire ≡ pack wire_message ++ rest))
unpack-canonical_example = unpack-canonical wire wire_message 34 (omega arith) unpack-wire

unpack_overread_example :
    unpack
      (le_bytes 8 34 ++ (le_bytes 8 0 ++ (le_bytes 2 1 ++ (le_bytes 8 1 ++ (le_bytes 8 0 ++ [])))))
    ≡ overread
unpack_overread_example = unpack_overread 0 1 (omega arith) (omega arith)
