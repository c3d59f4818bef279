-- ===== src/Types/RoundTrip.antt =====
-- Encoding and decoding values and metadata (salt/src/types.rs).
use salt_optimizations.Prelude.{
  ℕ, ◌+◌, ◌-◌, ◌^◌, ◌%◌, ◌≤◌, ◌<◌, ◌≡◌, refl, some, none, [], ◌∷◌, ◌++◌, length, take, drop,
  replicate, length-append, length-replicate, take-append, drop-append, arith, le→leb, Bool-cases,
  inl, inr, ==_iff, ◌==◌, length-take, length-drop, take_all, take-append-drop,
}
use salt_optimizations.Prelude.Bytes.{
  Bytes, AllBytes, slice, to_le_bytes, from_le_bytes, from_le_bytes-to_le_bytes,
  to_le_bytes-from_le_bytes, AllBytes-take, AllBytes-drop,
}
use salt_optimizations.Prelude.Result.{Res, ok}
use salt_optimizations.Types.SaltValue
use salt_optimizations.Types.SaltValue.{SaltValue, max_salt_value_bytes, encode, data_len}
use salt_optimizations.Types.BucketMeta.{BucketMeta, from_bytes, from_value, to_bytes, to_value}
use salt_optimizations.Types.Errors.{SaltError}

-- The middle of a list of three parts.
slice_middle :
    (xs ys zs : Bytes) (lo hi : ℕ)
    → length xs ≡ lo
    → lo + length ys ≡ hi
    → slice (xs ++ (ys ++ zs)) lo hi ≡ some ys
slice_middle xs ys zs lo hi p q =
    let total : hi ≤ length (xs ++ (ys ++ zs)) =
      omega (arith, length-append xs (ys ++ zs), length-append ys zs) in
    rw (drop-append xs (ys ++ zs) lo p, take-append ys zs (hi - lo) (omega arith))
      (rw (le→leb lo hi (omega arith), le→leb hi (length (xs ++ (ys ++ zs))) total) refl)

-- What `SaltValue::new` writes, `key`, `value` and `data_len` read back.
pub encode_round_trip :
    (k v : Bytes)
    → 2 + length k + length v ≤ max_salt_value_bytes
    → (s : SaltValue) × (encode k v ≡ some s)
      × (SaltValue.key s ≡ some k)
      × (SaltValue.value s ≡ some v)
      × (data_len s ≡ some (2 + length k + length v))
      × (length s.bytes ≡ max_salt_value_bytes)
unfolding encode SaltValue.key SaltValue.value data_len
encode_round_trip k v h =
    let pad : Bytes = replicate (92 - length k - length v) 0 in
    let kl : length k % 256 ≡ length k = omega arith in
    let vl : length v % 256 ≡ length v = omega arith in
    let head : Bytes = length k ∷ length v ∷ [] in
    (
      record { bytes = length k ∷ length v ∷ (k ++ (v ++ pad)) },
      rw (le→leb _ _ h, kl, vl) refl,
      slice_middle head k (v ++ pad) 2 (2 + length k) refl refl,
      slice_middle (length k ∷ length v ∷ k) v pad (2 + length k) (2 + length k + length v)
          (omega arith) refl,
      refl,
      omega (
        arith,
        length-append k (v ++ pad),
        length-append v pad,
        length-replicate {A = ℕ} (92 - length k - length v) 0,
      ),
    )

-- Metadata in the range of its words, written as 12 bytes or as a stored value, is read back, less
-- the count of used slots.
pub meta_round_trip :
    (m : BucketMeta)
    → m.nonce < 2 ^ 32
    → m.capacity < 2 ^ 64
    → (s : SaltValue) × (to_value m ≡ some s)
      × (from_value s ≡ ok (record m { used = none }))
      × (from_bytes (to_bytes m) ≡ ok (record m { used = none }))
unfolding to_value from_value from_bytes encode SaltValue.key to_le_bytes
meta_round_trip m hn hc =
    let n : from_le_bytes (to_le_bytes 4 m.nonce) ≡ m.nonce =
      from_le_bytes-to_le_bytes 4 m.nonce hn in
    let c : from_le_bytes (to_le_bytes 8 m.capacity) ≡ m.capacity =
      from_le_bytes-to_le_bytes 8 m.capacity hc in
    let read : ◌≡◌ {A = Res SaltError BucketMeta}
        (ok (record {
          nonce = from_le_bytes (to_le_bytes 4 m.nonce);
          capacity = from_le_bytes (to_le_bytes 8 m.capacity);
          used = none;
        }))
        (ok (record m { used = none })) =
      λ i. ok (record { nonce = n i; capacity = c i; used = none }) in
    (record { bytes = 12 ∷ 0 ∷ (to_bytes m ++ replicate 80 0) }, refl, read, read)

-- Twelve bytes are the only input that decodes, and they are what the decoded metadata encodes to.
pub to_bytes-from_bytes :
    (bs : Bytes) (m : BucketMeta)
    → AllBytes bs
    → from_bytes bs ≡ ok m
    → (length bs ≡ 12) × (to_bytes m ≡ bs)
unfolding to_bytes from_bytes
to_bytes-from_bytes bs m h e = elim (Bool-cases (length bs == 12)) [
  | inr other ↦ absurd (ground arith)
  | inl twelve ↦
      let len : length bs ≡ 12 = (==_iff _ _).0 twelve in
      let fields : (from_le_bytes (take 4 bs) ≡ m.nonce)
          × (from_le_bytes (take 8 (drop 4 bs)) ≡ m.capacity) =
        ground arith in
      let low_len : length (take 4 bs) ≡ 4 = omega (arith, length-take 4 bs) in
      let rest_len : length (drop 4 bs) ≡ 8 = omega (arith, length-drop 4 bs) in
      let all : take 8 (drop 4 bs) ≡ drop 4 bs = take_all 8 (drop 4 bs) rest_len in
      let low : to_le_bytes 4 m.nonce ≡ take 4 bs =
        rw (← fields.0) (to_le_bytes-from_le_bytes 4 (take 4 bs) low_len (AllBytes-take 4 bs h)) in
      let high : to_le_bytes 8 m.capacity ≡ drop 4 bs =
        rw (← fields.1, all)
          (to_le_bytes-from_le_bytes 8 (drop 4 bs) rest_len (AllBytes-drop 4 bs h)) in
      (len, rw (low, high) (take-append-drop 4 bs))
]
