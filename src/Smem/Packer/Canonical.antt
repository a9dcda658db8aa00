-- ===== src/Smem/Packer/Canonical.antt =====
-- Unpack accepts nothing but what Pack writes, and the malformed messages on which it reads past
-- the end of its buffer.
use memfabric_hybrid.Base.{
  ℕ, ◌+◌, ◌≤◌, ◌<◌, ◌≡◌, refl, sym, ap, subst, ◌∙◌, List, [], ◌++◌, length, leb, ◌==◌, u64_mod,
  arith, le→leb, leb→le, ==_iff,
}
use memfabric_hybrid.Base.Bytes.{le_bytes, IsBytes}
use memfabric_hybrid.Smem.Packer.{
  SmemMessage, done, overread, read_word, full, unpack_items, unpack_keys, unpack_values,
  unpack_body, unpack, pack_items, pack, items_size, total_size, max_key_count, max_key_size,
  max_value_count, max_value_size, invalid_msg,
}
use memfabric_hybrid.Smem.Packer.RoundTrip.{
  Within, IsPackable, read_word-le_bytes, full-le_bytes, pack-packed, packed,
}
use memfabric_hybrid.Smem.Packer.Reads.{
  bind_done, check_done, done-injective, Read, read_word-Read, Items, unpack_items-Items,
}

-- A message and the bytes from `start` on that it was read from, behind the fields of its head.
record FromValues (len total user kind p : ℕ) (ks : List (List ℕ)) (b5 : List ℕ) (m : SmemMessage)
    (t : ℕ) : Type 0 where
  fields : m ≡ record { mt = kind; user_def = user; keys = ks; values = m.values }
  count : length m.values ≤ max_value_count
  within : Within max_value_size m.values
  same_total : t ≡ total
  size : total ≡ p + 8 + items_size m.values
  rest : List ℕ
  split : b5 ≡ le_bytes 8 (length m.values) ++ (pack_items m.values ++ rest)

values_read :
    (len total user kind p : ℕ) (ks : List (List ℕ)) (b5 : List ℕ) (m : SmemMessage) (t : ℕ)
    → IsBytes b5
    → length b5 + p ≡ len
    → unpack_values len total user kind (ks, p, b5) ≡ done (m, t)
    → FromValues len total user kind p ks b5 m t
unfolding unpack_values
values_read len total user kind p ks b5 m t b l e =
    let ((vc, b6), e6, k8) = bind_done (read_word 8 b5) _ (m, t) e in
    let r5 : Read 8 b5 vc b6 = read_word-Read 8 b5 vc b6 b e6 in
    let (c6, k9) = check_done (leb vc max_value_count) _ (m, t) k8 in
    let ((vs, q, b7), e7, k10) =
      bind_done (unpack_items vc max_value_size len (p + 8) b6) _ (m, t) k9 in
    let i2 : Items max_value_size len (p + 8) vc b6 vs q b7 =
      unpack_items-Items max_value_size len (p + 8) vc b6 vs q b7 r5.rest_bytes
        (omega (arith, r5.rest_length)) e7 in
    let (c7, k11) = check_done (total == q) _ (m, t) k10 in
    subst (λ (w : SmemMessage × ℕ). FromValues len total user kind p ks b5 w.0 w.1)
      (done-injective (record { mt = kind; user_def = user; keys = ks; values = vs }, total) (m, t)
        k11)
      (record {
        fields = refl;
        count = omega (arith, i2.count, leb→le _ _ c6);
        within = i2.within;
        same_total = refl;
        size = omega (arith, (==_iff total q).0 c7, i2.stop);
        rest = b7;
        split = r5.split ∙ rw (i2.split, i2.count);
      })

keys_read :
    (len total user kind : ℕ) (b3 : List ℕ) (m : SmemMessage) (t : ℕ)
    → IsBytes b3
    → length b3 + 18 ≡ len
    → unpack_keys len total user kind b3 ≡ done (m, t)
    → (kind ≤ invalid_msg)
      × (length m.keys ≤ max_key_count)
      × Within max_key_size m.keys
      × ((p : ℕ) × (b4 b5 : List ℕ) × (b3 ≡ le_bytes 8 (length m.keys) ++ b4)
          × (b4 ≡ pack_items m.keys ++ b5)
          × (p ≡ 26 + items_size m.keys)
          × FromValues len total user kind p m.keys b5 m t)
unfolding unpack_keys
keys_read len total user kind b3 m t b l e =
    let (c3, k4) = check_done (leb kind invalid_msg) _ (m, t) e in
    let ((kc, b4), e4, k5) = bind_done (read_word 8 b3) _ (m, t) k4 in
    let r4 : Read 8 b3 kc b4 = read_word-Read 8 b3 kc b4 b e4 in
    let (c4, k6) = check_done (leb kc max_key_count) _ (m, t) k5 in
    let ((ks, p, b5), e5, k7) = bind_done (unpack_items kc max_key_size len 26 b4) _ (m, t) k6 in
    let i1 : Items max_key_size len 26 kc b4 ks p b5 =
      unpack_items-Items max_key_size len 26 kc b4 ks p b5 r4.rest_bytes
        (omega (arith, r4.rest_length)) e5 in
    let v : FromValues len total user kind p ks b5 m t =
      values_read len total user kind p ks b5 m t i1.rest_bytes i1.rest_length k7 in
    let same : ks ≡ m.keys = ap (λ (x : SmemMessage). x.keys) (sym v.fields) in
    subst
      (λ xs.
        (kind ≤ invalid_msg)
        × (length xs ≤ max_key_count)
        × Within max_key_size xs
        × ((p : ℕ) × (b4 b5 : List ℕ) × (b3 ≡ le_bytes 8 (length xs) ++ b4)
            × (b4 ≡ pack_items xs ++ b5)
            × (p ≡ 26 + items_size xs)
            × FromValues len total user kind p xs b5 m t))
      same
      (
        leb→le _ _ c3,
        omega (arith, i1.count, leb→le _ _ c4),
        i1.within,
        (p, b4, b5, counted b3 b4 kc ks r4.split i1.count, i1.split, i1.stop, v),
      )
  where
    counted :
        (b3 b4 : List ℕ) (kc : ℕ) (ks : List (List ℕ))
        → b3 ≡ le_bytes 8 kc ++ b4
        → length ks ≡ kc
        → b3 ≡ le_bytes 8 (length ks) ++ b4
    counted b3 b4 kc ks h n = h ∙ ap (λ k. le_bytes 8 k ++ b4) (sym n)

joined :
    (m : SmemMessage) (ok : IsPackable m) (buffer b1 b2 b3 b4 b5 rest : List ℕ)
    (total user kind : ℕ)
    → total ≡ total_size m
    → m.user_def ≡ user
    → m.mt ≡ kind
    → buffer ≡ le_bytes 8 total ++ b1
    → b1 ≡ le_bytes 8 user ++ b2
    → b2 ≡ le_bytes 2 kind ++ b3
    → b3 ≡ le_bytes 8 (length m.keys) ++ b4
    → b4 ≡ pack_items m.keys ++ b5
    → b5 ≡ le_bytes 8 (length m.values) ++ (pack_items m.values ++ rest)
    → buffer ≡ pack m ++ rest
unfolding packed
joined m ok buffer b1 b2 b3 b4 b5 rest total user kind t u k s0 s1 s2 s3 s4 s5 =
    let whole : buffer ≡ packed m ok rest = cc in whole ∙ sym (pack-packed m ok rest)

-- A buffer of bytes that Unpack accepts begins with the bytes that Pack writes for the message it
-- returns, the message keeps to the limits of the protocol, and the size that Unpack returns is
-- the size of the message.
pub unpack-canonical :
    (buffer : List ℕ) (m : SmemMessage) (t : ℕ)
    → IsBytes buffer
    → unpack buffer ≡ done (m, t)
    → IsPackable m × (t ≡ total_size m) × ((rest : List ℕ) × (buffer ≡ pack m ++ rest))
unfolding unpack unpack_body
unpack-canonical buffer m t b e =
    let (full_ok, k0) = check_done (full buffer) _ (m, t) e in
    let ((total, b1), e1, k1) = bind_done (read_word 8 buffer) _ (m, t) k0 in
    let r1 : Read 8 buffer total b1 = read_word-Read 8 buffer total b1 b e1 in
    let ((user, b2), e2, k2) = bind_done (read_word 8 b1) _ (m, t) k1 in
    let r2 : Read 8 b1 user b2 = read_word-Read 8 b1 user b2 r1.rest_bytes e2 in
    let ((kind, b3), e3, k3) = bind_done (read_word 2 b2) _ (m, t) k2 in
    let r3 : Read 2 b2 kind b3 = read_word-Read 2 b2 kind b3 r2.rest_bytes e3 in
    let (hk, hc, hw, (p, b4, b5, s4, s5, stop, v)) =
      keys_read (length buffer) total user kind b3 m t r3.rest_bytes
        (omega (arith, r1.rest_length, r2.rest_length, r3.rest_length)) k3 in
    let mt_eq : m.mt ≡ kind = ap (λ (x : SmemMessage). x.mt) v.fields in
    let user_eq : m.user_def ≡ user = ap (λ (x : SmemMessage). x.user_def) v.fields in
    let packable : IsPackable m = record {
      kind = omega (arith, hk);
      user = omega (arith, r2.bound);
      key_count = hc;
      key_sizes = hw;
      value_count = v.count;
      value_sizes = v.within;
    } in
    let sized : total ≡ total_size m = unfold total_size in omega (arith, v.size, stop) in
    (
      packable,
      v.same_total ∙ sized,
      (
        v.rest,
        joined m packable buffer b1 b2 b3 b4 b5 v.rest total user kind sized user_eq mt_eq r1.split
            r2.split r3.split s4 s5 v.split,
      ),
    )

read_word_empty : read_word 8 [] ≡ overread
unfolding read_word
read_word_empty = refl

abbrev short_message : ℕ → ℕ → List ℕ
short_message user kind =
    le_bytes 8 34
    ++ (le_bytes 8 user ++ (le_bytes 2 kind ++ (le_bytes 8 1 ++ (le_bytes 8 0 ++ []))))

length-short_message : (user kind : ℕ) → length (short_message user kind) ≡ 34
unfolding le_bytes
length-short_message user kind = refl

-- A message of the smallest size that announces one key, which is empty, with any user data and
-- any kind within the limits: the count of its values lies behind the end of the buffer, and
-- Unpack reads it.
pub unpack_overread :
    (user kind : ℕ)
    → user < u64_mod
    → kind ≤ invalid_msg
    → unpack (
        le_bytes 8 34
        ++ (le_bytes 8 user ++ (le_bytes 2 kind ++ (le_bytes 8 1 ++ (le_bytes 8 0 ++ [])))))
      ≡ overread
unfolding unpack unpack_body unpack_keys unpack_values unpack_items
unpack_overread user kind u k =
    rw
      (
        full-le_bytes 34
            (le_bytes 8 user ++ (le_bytes 2 kind ++ (le_bytes 8 1 ++ (le_bytes 8 0 ++ []))))
            (omega arith) (omega arith) (omega (arith, length-short_message user kind)),
        length-short_message user kind,
      )
      (rw (read_word-le_bytes 8 34 _ (omega arith)) (
        rw (read_word-le_bytes 8 user _ u) (
          rw (read_word-le_bytes 2 kind _ (omega arith), le→leb kind invalid_msg k)
            (rw (read_word-le_bytes 8 1 _ (omega arith))
              (rw (read_word-le_bytes 8 0 [] (omega arith)) (rw read_word_empty))))))
