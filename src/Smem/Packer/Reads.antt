-- ===== src/Smem/Packer/Reads.antt =====
-- What the reads and loops of Unpack tell of the bytes when they succeed.
use memfabric_hybrid.Base.{
  ℕ, zero, suc, ◌+◌, ◌^◌, ◌≤◌, ◌<◌, ◌≡◌, refl, sym, ap, subst, ◌∙◌, Bool, true, false, inl, inr,
  List, [], ◌∷◌, ◌++◌, length, take, drop, leb, arith, leb→le, Bool-cases, take-append-drop,
  length-take, length-drop,
}
use mathlib.Core.List.{append_assoc}
use native.Mathlib.Nat.{pow-suc}
use memfabric_hybrid.Base.Bytes.{
  le_bytes, from_le, le_bytes-from_le, IsBytes, IsBytes-take, IsBytes-drop,
}
use memfabric_hybrid.Smem.Packer.{
  Parse, done, reject, overread, ◌>>=◌, ◌>>◌, check, read_word, unpack_items, pack_items,
  items_size,
}
use memfabric_hybrid.Smem.Packer.RoundTrip.{Within}

pub bind_done :
    {A B : Type 0} (m : Parse A) (f : A → Parse B) (b : B)
    → (m >>= f) ≡ done b
    → (a : A) × (m ≡ done a) × (f a ≡ done b)
bind_done (done a) f b h = (a, refl, h)
bind_done reject f b h = cc
bind_done overread f b h = cc

pub check_done :
    {B : Type 0} (t : Bool) (k : Parse B) (b : B)
    → (check t >> k) ≡ done b
    → (t ≡ true) × (k ≡ done b)
check_done true k b h = (refl, h)
check_done false k b h = cc

pub done_or : {A : Type 0} → A → Parse A → A
done_or d (done a) = a
done_or d reject = d
done_or d overread = d

pub done-injective : {A : Type 0} (a b : A) → done a ≡ done b → a ≡ b
unfolding done_or
done-injective a b e = ap (done_or a) e

pub from_le-lt : (bs : List ℕ) → IsBytes bs → from_le bs < 256 ^ length bs
unfolding from_le
from_le-lt [] h = omega arith
from_le-lt (b ∷ bs) h = omega (arith, from_le-lt bs h.1, pow-suc 256 (length bs))

-- What a read returned, and where it stands in the bytes.
pub record Read (n : ℕ) (bytes : List ℕ) (v : ℕ) (r : List ℕ) : Type 0 where
  pub split : bytes ≡ le_bytes n v ++ r
  pub bound : v < 256 ^ n
  pub rest_bytes : IsBytes r
  pub rest_length : length r + n ≡ length bytes

pub read_word-Read :
    (n : ℕ) (bytes : List ℕ) (v : ℕ) (r : List ℕ)
    → IsBytes bytes
    → read_word n bytes ≡ done (v, r)
    → Read n bytes v r
unfolding read_word
read_word-Read n bytes v r b e = elim (Bool-cases (leb n (length bytes))) [
  | inr q ↦ absurd (cc (rw q at e))
  | inl q ↦
      let size : length (take n bytes) ≡ n = length-take n bytes (leb→le n _ q) in
      subst (λ (w : ℕ × List ℕ). Read n bytes w.0 w.1)
        (done-injective (from_le (take n bytes), drop n bytes) (v, r) (rw q at e))
        (record {
          split = sym (take-append-drop n bytes) ∙ ap (λ l. l ++ drop n bytes) (low size);
          bound =
              subst (λ k. from_le (take n bytes) < 256 ^ k) size
                (from_le-lt (take n bytes) (IsBytes-take n bytes b));
          rest_bytes = IsBytes-drop n bytes b;
          rest_length = omega (arith, length-drop n bytes, leb→le n _ q);
        })
]
  where
    low : length (take n bytes) ≡ n → take n bytes ≡ le_bytes n (from_le (take n bytes))
    low size =
        sym (le_bytes-from_le (take n bytes) (IsBytes-take n bytes b))
        ∙ ap (λ k. le_bytes k (from_le (take n bytes))) size

pub record Items (limit len pos n : ℕ) (bytes : List ℕ) (xs : List (List ℕ)) (end : ℕ)
    (rest : List ℕ) : Type 0 where
  pub count : length xs ≡ n
  pub within : Within limit xs
  pub split : bytes ≡ pack_items xs ++ rest
  pub stop : end ≡ pos + items_size xs
  pub rest_bytes : IsBytes rest
  pub rest_length : length rest + end ≡ len

pub consed :
    (limit len pos n : ℕ) (bytes : List ℕ) (size : ℕ) (r1 : List ℕ) (more : List (List ℕ))
    (stop : ℕ) (left : List ℕ)
    → Read 8 bytes size r1
    → size ≤ limit
    → size ≤ length r1
    → Items limit len (pos + 8 + size) n (drop size r1) more stop left
    → Items limit len pos (suc n) bytes (take size r1 ∷ more) stop left
unfolding pack_items items_size
consed limit len pos n bytes size r1 more stop left w c fits it =
    let sized : length (take size r1) ≡ size = length-take size r1 fits in
    record {
      count = omega (arith, it.count);
      within = (omega arith, it.within);
      split =
          w.split
          ∙ rw (sized) (
              ap (λ l. le_bytes 8 size ++ l)
                (sym (take-append-drop size r1)
                  ∙ ap (λ l. take size r1 ++ l) it.split
                  ∙ sym (append_assoc (take size r1) (pack_items more) left))
              ∙ sym (append_assoc (le_bytes 8 size) (take size r1 ++ pack_items more) left));
      stop = omega (arith, it.stop);
      rest_bytes = it.rest_bytes;
      rest_length = it.rest_length;
    }

pub unpack_items-Items :
    (limit len pos n : ℕ) (bytes : List ℕ) (xs : List (List ℕ)) (end : ℕ) (rest : List ℕ)
    → IsBytes bytes
    → length bytes + pos ≡ len
    → unpack_items n limit len pos bytes ≡ done (xs, end, rest)
    → Items limit len pos n bytes xs end rest
unfolding unpack_items pack_items
unpack_items-Items limit len pos zero bytes xs end rest b l e =
    subst (λ (w : List (List ℕ) × ℕ × List ℕ). Items limit len pos 0 bytes w.0 w.1 w.2)
      (done-injective ([], pos, bytes) (xs, end, rest) e)
      (record {
        count = refl;
        within = tt;
        split = refl;
        stop = unfold items_size in omega arith;
        rest_bytes = b;
        rest_length = l;
      })
unpack_items-Items limit len pos (suc n) bytes xs end rest b l e =
    let ((size, r1), e1, k1) = bind_done (read_word 8 bytes) _ (xs, end, rest) e in
    let w : Read 8 bytes size r1 = read_word-Read 8 bytes size r1 b e1 in
    let (c1, k2) = check_done (leb size limit) _ (xs, end, rest) k1 in
    let (c2, k3) = check_done (leb (pos + 8 + size) len) _ (xs, end, rest) k2 in
    let ((more, stop, left), e2, k4) =
      bind_done (unpack_items n limit len (pos + 8 + size) (drop size r1)) _ (xs, end, rest) k3 in
    let it : Items limit len (pos + 8 + size) n (drop size r1) more stop left =
      unpack_items-Items limit len (pos + 8 + size) n (drop size r1) more stop left
        (IsBytes-drop size r1 w.rest_bytes)
        (omega (arith, length-drop size r1, w.rest_length, leb→le _ _ c2)) e2 in
    subst (λ (t : List (List ℕ) × ℕ × List ℕ). Items limit len pos (suc n) bytes t.0 t.1 t.2)
      (done-injective (take size r1 ∷ more, stop, left) (xs, end, rest) k4)
      (consed limit len pos n bytes size r1 more stop left w (leb→le _ _ c1)
        (omega (arith, leb→le _ _ c2, w.rest_length)) it)
