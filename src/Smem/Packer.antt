-- ===== src/Smem/Packer.antt =====
-- SmemMessagePacker, src/smem/csrc/config_store/tcp_store/smem_message_packer.{h,cpp}.
-- A signed field is held as its bit pattern: `user_def` of 64 bits, `mt` of 16.
pub mod RoundTrip
pub mod Reads
pub mod Canonical
mod Examples
use memfabric_hybrid.Base.{
  ℕ, zero, suc, ◌+◌, ◌-◌, ◌*◌, ◌%◌, Bool, true, false, ◌||◌, List, [], ◌∷◌, ◌++◌, length, take,
  drop, ltb, leb, ◌==◌, if◌then◌else◌, u64_mod,
}
use memfabric_hybrid.Base.Bytes.{le_bytes, from_le}

abbrev pub max_key_count : ℕ
max_key_count = 10

abbrev pub max_key_size : ℕ
max_key_size = 2048

abbrev pub max_value_count : ℕ
max_value_count = 10

abbrev pub max_value_size : ℕ
max_value_size = 64 * 1024 * 1024

-- enum MessageType, from SET = 0 to its end mark.
abbrev pub invalid_msg : ℕ
invalid_msg = 9

pub record SmemMessage : Type 0 where
  pub mt : ℕ
  pub user_def : ℕ
  pub keys : List (List ℕ)
  pub values : List (List ℕ)

-- 4U * sizeof(uint64_t) + sizeof(MessageType)
abbrev pub base_size : ℕ
base_size = 34

unfoldable pub items_size : List (List ℕ) → ℕ
items_size [] = 0
items_size (x ∷ xs) = 8 + length x + items_size xs

unfoldable pub total_size : SmemMessage → ℕ
unfolding items_size
total_size m = base_size + items_size m.keys + items_size m.values

-- PackString and PackBytes, one after the other.
unfoldable pub pack_items : List (List ℕ) → List ℕ
pack_items [] = []
pack_items (x ∷ xs) = le_bytes 8 (length x) ++ (x ++ pack_items xs)

unfoldable pub pack : SmemMessage → List ℕ
unfolding total_size pack_items
pack m =
    le_bytes 8 (total_size m % u64_mod)
    ++ (le_bytes 8 m.user_def
        ++ (le_bytes 2 m.mt
            ++ (le_bytes 8 (length m.keys)
                ++ (pack_items m.keys ++ (le_bytes 8 (length m.values) ++ pack_items m.values)))))

-- What Unpack does: it returns, rejects with -1, or reads past the end of its buffer, which has no
-- defined result.
pub data Parse (A : Type 0) : Type 0 where
  done : A → Parse A
  reject : Parse A
  overread : Parse A

infixl 5 ◌>>=◌
abbrev pub ◌>>=◌ : {A B : Type 0} → Parse A → (A → Parse B) → Parse B
done a >>= f = f a
reject >>= f = reject
overread >>= f = overread

-- *reinterpret_cast<const T *>(buffer + length) for a T of n bytes, and what follows it.
unfoldable pub read_word : ℕ → List ℕ → Parse (ℕ × List ℕ)
read_word n bytes =
    if leb n (length bytes) then done (from_le (take n bytes), drop n bytes) else overread

abbrev pub check : Bool → Parse (Unit {0})
check true = done tt
check false = reject

infixl 5 ◌>>◌
abbrev pub ◌>>◌ : {B : Type 0} → Parse (Unit {0}) → Parse B → Parse B
m >> k = m >>= λ _. k

-- SmemMessagePacker::Full
unfoldable pub full : List ℕ → Bool
full buffer =
    if ltb (length buffer) base_size then false else leb (from_le (take 8 buffer)) (length buffer)

-- MessageSize, as the bit pattern of its int64_t: -1 for a buffer that is too short.
unfoldable pub message_size : List ℕ → ℕ
message_size buffer = if ltb (length buffer) base_size then u64_mod - 1 else from_le (take 8 buffer)

-- The loop over `count` keys or values: `pos` is `length`, and `bytes` starts at `buffer + pos`.
unfoldable pub unpack_items : ℕ → ℕ → ℕ → ℕ → List ℕ → Parse (List (List ℕ) × ℕ × List ℕ)
unpack_items zero limit len pos bytes = done ([], pos, bytes)
unpack_items (suc n) limit len pos bytes = do
  (size, rest) ← read_word 8 bytes
  check (leb size limit)
  check (leb (pos + 8 + size) len)
  (more, end, left) ← unpack_items n limit len (pos + 8 + size) (drop size rest)
  done (take size rest ∷ more, end, left)

-- Unpack behind its test of Full, over the bytes of a buffer of `len` bytes, in three parts: from the
-- count of the values, from the count of the keys, and from the start. It returns the message and
-- the number of bytes that it took.
unfoldable pub unpack_values : ℕ → ℕ → ℕ → ℕ → List (List ℕ) × ℕ × List ℕ → Parse (SmemMessage × ℕ)
unpack_values len total user kind (ks, p, b5) = do
  (value_count, b6) ← read_word 8 b5
  check (leb value_count max_value_count)
  (vs, q, b7) ← unpack_items value_count max_value_size len (p + 8) b6
  check (total == q)
  done (record { mt = kind; user_def = user; keys = ks; values = vs }, total)

unfoldable pub unpack_keys : ℕ → ℕ → ℕ → ℕ → List ℕ → Parse (SmemMessage × ℕ)
unpack_keys len total user kind b3 = do
  check (leb kind invalid_msg)
  (key_count, b4) ← read_word 8 b3
  check (leb key_count max_key_count)
  found ← unpack_items key_count max_key_size len 26 b4
  unpack_values len total user kind found

unfoldable pub unpack_body : ℕ → List ℕ → Parse (SmemMessage × ℕ)
unpack_body len buffer = do
  (total, b1) ← read_word 8 buffer
  (user, b2) ← read_word 8 b1
  (kind, b3) ← read_word 2 b2
  unpack_keys len total user kind b3

unfoldable pub unpack : List ℕ → Parse (SmemMessage × ℕ)
unpack buffer = do check (full buffer); unpack_body (length buffer) buffer
