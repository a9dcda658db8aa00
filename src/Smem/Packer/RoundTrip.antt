-- ===== src/Smem/Packer/RoundTrip.antt =====
-- Unpack returns every message that Pack wrote.
use memfabric_hybrid.Base.{
  ℕ, zero, suc, ◌+◌, ◌*◌, ◌%◌, ◌^◌, ◌≤◌, ◌<◌, ◌≡◌, refl, ap, true, List, [], ◌∷◌, ◌++◌, length, leb,
  u64_mod, arith, length-append, take-append, drop-append, le→leb, ==_iff,
}
use mathlib.Core.List.{append_assoc}
use native.Mathlib.Nat.{mod-eq_of_lt}
use memfabric_hybrid.Base.Bytes.{
  le_bytes, length-le_bytes, from_le-le_bytes, take-le_bytes, drop-le_bytes,
}
use memfabric_hybrid.Smem.Packer.{
  SmemMessage, done, read_word, full, unpack_items, unpack_keys, unpack_values, unpack_body, unpack,
  pack_items, pack, items_size, total_size, max_key_count, max_key_size, max_value_count,
  max_value_size, invalid_msg, base_size,
}

-- Each of at most `count` items has at most `limit` bytes.
abbrev pub Within : ℕ → List (List ℕ) → Type 0
Within limit [] = Unit {0}
Within limit (x ∷ xs) = (length x ≤ limit) × Within limit xs

pub record IsPackable (m : SmemMessage) : Type 0 where
  pub kind : m.mt ≤ invalid_msg
  pub user : m.user_def < u64_mod
  pub key_count : length m.keys ≤ max_key_count
  pub key_sizes : Within max_key_size m.keys
  pub value_count : length m.values ≤ max_value_count
  pub value_sizes : Within max_value_size m.values

pub read_word-le_bytes :
    (n v : ℕ) (r : List ℕ) → v < 256 ^ n → read_word n (le_bytes n v ++ r) ≡ done (v, r)
unfolding read_word
read_word-le_bytes n v r h =
    let room : leb n (length (le_bytes n v ++ r)) ≡ true =
      le→leb n _ (omega (arith, length-append (le_bytes n v) r, length-le_bytes n v)) in
    rw (room, take-le_bytes n v r, drop-le_bytes n v r, from_le-le_bytes n v h)

length-pack_items : (xs : List (List ℕ)) → length (pack_items xs) ≡ items_size xs
unfolding pack_items items_size
length-pack_items [] = refl
length-pack_items (x ∷ xs) = omega (
  arith,
  length-append (le_bytes 8 (length x)) (x ++ pack_items xs),
  length-append x (pack_items xs),
  length-le_bytes 8 (length x),
  length-pack_items xs,
)

items_size-le :
    (limit n : ℕ) (xs : List (List ℕ))
    → Within limit xs
    → length xs ≤ n
    → items_size xs ≤ n * (8 + limit)
unfolding items_size
items_size-le limit n [] w h = omega arith
items_size-le limit zero (x ∷ xs) w h = absurd (omega arith)
items_size-le limit (suc n) (x ∷ xs) w h = grind (arith, items_size-le limit n xs w.1)

unpack_items-pack_items :
    (limit len pos : ℕ) (xs : List (List ℕ)) (rest : List ℕ)
    → Within limit xs
    → limit < u64_mod
    → pos + items_size xs ≤ len
    → unpack_items (length xs) limit len pos (pack_items xs ++ rest)
      ≡ done (xs, pos + items_size xs, rest)
unfolding unpack_items pack_items items_size
unpack_items-pack_items limit len pos [] rest w u h =
    ap (λ (p : ℕ). done ([], p, rest)) (omega arith)
unpack_items-pack_items limit len pos (x ∷ xs) rest w u h =
    let shape : (le_bytes 8 (length x) ++ (x ++ pack_items xs)) ++ rest
        ≡ le_bytes 8 (length x) ++ (x ++ (pack_items xs ++ rest)) =
      simp append_assoc in
    let first : leb (length x) limit ≡ true = le→leb _ _ w.0 in
    let second : leb (pos + 8 + length x) len ≡ true = le→leb _ _ (omega arith) in
    let tail : List ℕ = pack_items xs ++ rest in
    rw (shape, read_word-le_bytes 8 (length x) (x ++ tail) (omega arith))
      (rw (first, second, drop-append x tail)
        (rw (unpack_items-pack_items limit len (pos + 8 + length x) xs rest w.1 u (omega arith))
          (rw (take-append x tail) (ap (λ (p : ℕ). done (x ∷ xs, p, rest)) (omega arith)))))

pub full-le_bytes :
    (t : ℕ) (r : List ℕ)
    → t < u64_mod
    → base_size ≤ t
    → t ≤ length (le_bytes 8 t ++ r)
    → full (le_bytes 8 t ++ r) ≡ true
unfolding full
full-le_bytes t r u b h = rw (take-le_bytes 8 t r, from_le-le_bytes 8 t u) (ground arith)

module _ (m : SmemMessage) (ok : IsPackable m) where
  sizes : total_size m < u64_mod
  unfolding total_size
  sizes = omega (
    arith,
    items_size-le max_key_size 10 m.keys ok.key_sizes ok.key_count,
    items_size-le max_value_size 10 m.values ok.value_sizes ok.value_count,
  )

  pub length-pack : length (pack m) ≡ total_size m
  unfolding pack total_size
  length-pack = omega (
    arith,
    length-append (le_bytes 8 (total_size m % u64_mod)) (after_size),
    length-append (le_bytes 8 m.user_def) after_user,
    length-append (le_bytes 2 m.mt) after_kind,
    length-append (le_bytes 8 (length m.keys)) after_count,
    length-append (pack_items m.keys) after_keys,
    length-append (le_bytes 8 (length m.values)) (pack_items m.values),
    length-le_bytes 8 (total_size m % u64_mod),
    length-le_bytes 8 m.user_def,
    length-le_bytes 2 m.mt,
    length-le_bytes 8 (length m.keys),
    length-le_bytes 8 (length m.values),
    length-pack_items m.keys,
    length-pack_items m.values,
  )
    where
      after_keys : List ℕ
      after_keys = le_bytes 8 (length m.values) ++ pack_items m.values

      after_count : List ℕ
      after_count = pack_items m.keys ++ after_keys

      after_kind : List ℕ
      after_kind = le_bytes 8 (length m.keys) ++ after_count

      after_user : List ℕ
      after_user = le_bytes 2 m.mt ++ after_kind

      after_size : List ℕ
      after_size = le_bytes 8 m.user_def ++ after_user

  unfoldable pub packed : List ℕ → List ℕ
  packed rest =
      le_bytes 8 (total_size m)
      ++ (le_bytes 8 m.user_def
          ++ (le_bytes 2 m.mt
              ++ (le_bytes 8 (length m.keys)
                  ++ (pack_items m.keys
                      ++ (le_bytes 8 (length m.values) ++ (pack_items m.values ++ rest))))))

  pub pack-packed : (rest : List ℕ) → pack m ++ rest ≡ packed rest
  unfolding pack packed
  pack-packed rest = rw (mod-eq_of_lt sizes) (simp append_assoc)

  full-packed : (rest : List ℕ) → total_size m ≤ length (packed rest) → full (packed rest) ≡ true
  unfolding packed
  full-packed rest h = full-le_bytes (total_size m) _ sizes (unfold total_size in omega arith) h

  rooms :
      (len : ℕ)
      → total_size m ≤ len
      → (26 + items_size m.keys + 8 + items_size m.values ≤ len)
        × (total_size m ≡ 26 + items_size m.keys + 8 + items_size m.values)
  unfolding total_size
  rooms len h = (omega arith, omega arith)

  unpack_body-packed :
      (len : ℕ) (rest : List ℕ)
      → total_size m ≤ len
      → unpack_body len (packed rest) ≡ done (m, total_size m)
  unfolding unpack_body unpack_keys unpack_values packed
  unpack_body-packed len rest h =
      let (room, tail) = rooms len h in
      rw (read_word-le_bytes 8 (total_size m) _ sizes) (
        rw (read_word-le_bytes 8 m.user_def _ ok.user) (
          rw (read_word-le_bytes 2 m.mt _ (omega (arith, ok.kind)), le→leb m.mt invalid_msg ok.kind)
            (rw
              (
                read_word-le_bytes 8 (length m.keys) _ (omega (arith, ok.key_count)),
                le→leb (length m.keys) max_key_count ok.key_count,
              )
              (rw
                (unpack_items-pack_items max_key_size len 26 m.keys _ ok.key_sizes (omega arith)
                  (omega arith))
                (rw
                  (
                    read_word-le_bytes 8 (length m.values) _ (omega (arith, ok.value_count)),
                    le→leb (length m.values) max_value_count ok.value_count,
                  )
                  (rw
                    (unpack_items-pack_items max_value_size len (26 + items_size m.keys + 8)
                      m.values rest ok.value_sizes (omega arith) (omega arith))
                    (rw (
                      (==_iff (total_size m) (26 + items_size m.keys + 8 + items_size m.values)).1
                        tail))))))))

  -- Unpack of a packed message that keeps to the limits of the protocol, with any bytes behind it,
  -- returns the message and its size.
  pub unpack-pack : (rest : List ℕ) → unpack (pack m ++ rest) ≡ done (m, total_size m)
  unfolding unpack
  unpack-pack rest =
      let room : total_size m ≤ length (packed rest) =
        omega (arith, ap length (pack-packed rest), length-append (pack m) rest, length-pack) in
      rw (pack-packed rest, full-packed rest room)
        (unpack_body-packed (length (packed rest)) rest room)
