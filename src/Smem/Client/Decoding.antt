-- ===== src/Smem/Client/Decoding.antt =====
-- What a client sends can be packed, and it reads back what the server replies.
use memfabric_hybrid.Base.{
  ℕ, zero, suc, ◌+◌, ◌-◌, ◌/◌, ◌%◌, ◌≤◌, ◌<◌, ◌≡◌, refl, sym, ap, ◌∙◌, Bool, false, not, ◌&&◌, List,
  [], ◌∷◌, some, length, ◌==◌, u64_mod, arith,
}
use mathlib.Core.List.{append-nil}
use memfabric_hybrid.Base.Assoc.{same_bytes}
use memfabric_hybrid.Smem.Packer.{
  pack, unpack, done, total_size, max_value_size, max_value_count, invalid_msg,
}
use memfabric_hybrid.Smem.Packer.RoundTrip.{IsPackable, Within, unpack-pack}
use memfabric_hybrid.Smem.Server.State.{Key, Value, success, response, to_string, digits}
use memfabric_hybrid.Smem.Server.Adding.{long_to_string, string_to_long, long_limit}
use memfabric_hybrid.Smem.Client.{
  Code, store_code, request_of, get_request, payload_value, add_result, append_result, is_bad_key,
}
use memfabric_hybrid.Smem.Client.Numbers.{string_to_long-long_to_string, sets_erange-some}
use memfabric_hybrid.Smem.Client.Calls.{KeyFits}

pub is_bad_key-KeyFits : (k : Key) → KeyFits k → is_bad_key k ≡ false
unfolding is_bad_key
is_bad_key-KeyFits k (full, short) = ground arith

pub request_of-IsPackable :
    (mt : ℕ) (k : Key) (vs : List Value)
    → mt ≤ invalid_msg
    → KeyFits k
    → length vs ≤ max_value_count
    → Within max_value_size vs
    → IsPackable (request_of mt k vs)
request_of-IsPackable mt k vs b f n l = record {
  kind = b;
  user = omega arith;
  key_count = omega arith;
  key_sizes = (omega (arith, f.1), tt);
  value_count = n;
  value_sizes = l;
}

pub get_request-IsPackable : (k : Key) → KeyFits k → IsPackable (get_request k 0)
get_request-IsPackable k f = record {
  kind = omega arith;
  user = omega arith;
  key_count = omega arith;
  key_sizes = (omega (arith, f.1), tt);
  value_count = omega arith;
  value_sizes = tt;
}

pub response-IsPackable :
    (mt : ℕ) (v : Value) → mt ≤ invalid_msg → length v ≤ max_value_size → IsPackable (response mt v)
response-IsPackable mt v b l = record {
  kind = b;
  user = omega arith;
  key_count = omega arith;
  key_sizes = tt;
  value_count = omega arith;
  value_sizes = (l, tt);
}

-- The value of a reply that the server packed.
pub payload_value-pack :
    (c : Code) (mt : ℕ) (v : Value)
    → mt ≤ invalid_msg
    → length v ≤ max_value_size
    → payload_value c (some (pack (response mt v))) ≡ some (c, some v)
payload_value-pack c mt v b l =
    let got : unpack (pack (response mt v)) ≡ done (response mt v, total_size (response mt v)) =
      ap unpack (sym (append-nil (pack (response mt v))))
      ∙ unpack-pack (response mt v) (response-IsPackable mt v b l) [] in
    rw (got, payload_value)

-- A number of at most twenty digits, and a sign.
length-digits : (fuel n : ℕ) (acc : List ℕ) → length (digits fuel n acc) ≤ fuel + length acc
unfolding digits
length-digits zero n acc = omega arith
length-digits (suc fuel) n acc = ground (arith, length-digits fuel (n / 10) ((48 + n % 10) ∷ acc))

pub length-long_to_string : (n : ℕ) → length (long_to_string n) ≤ 21
unfolding long_to_string to_string
length-long_to_string n = ground (arith, length-digits 20 n [], length-digits 20 (u64_mod - n) [])

pub only_zero : (n : ℕ) → (n == 0 && not (same_bytes (long_to_string n) (48 ∷ []))) ≡ false
unfolding long_to_string to_string digits same_bytes
only_zero zero = refl
only_zero (suc n) = ground arith

to_string-long : (n : ℕ) → n < long_limit → to_string n ≡ long_to_string n
unfolding long_to_string
to_string-long n low = ground arith

module _ (n : ℕ) (small : n < u64_mod) where
  pub add_result-success :
      (stale : Bool)
      → add_result stale (some (record { code = success; payload = some (long_to_string n) }))
        ≡ (store_code success, some n)
  unfolding add_result
  add_result-success stale =
      let back : string_to_long (long_to_string n) ≡ some n =
        string_to_long-long_to_string n small in
      rw (sets_erange-some stale (long_to_string n) n back) (rw back (rw (only_zero n)))

  pub append_result-success :
      n < long_limit
      → append_result (some (record { code = success; payload = some (to_string n) }))
        ≡ (store_code success, some n)
  unfolding append_result
  append_result-success low = rw (to_string-long n low) (rw (string_to_long-long_to_string n small))
