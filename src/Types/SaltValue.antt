-- ===== src/Types/SaltValue.antt =====
-- `SaltValue` of salt/src/types.rs: a key and a value behind two length bytes, in 94 bytes.
use salt_optimizations.Prelude.{
  ℕ, ◌+◌, ◌-◌, ◌%◌, ◌≡◌, ◌↔◌, Bool, true, false, Option, none, some, ◌∷◌, ◌++◌, length, get_elem?,
  replicate, leb, arith, if◌then◌else◌,
}
use salt_optimizations.Prelude.Partial.{◌>>=◌}
use salt_optimizations.Prelude.Bytes.{Bytes, slice, bytes_eq, bytes_eq_iff}

abbrev pub max_salt_value_bytes : ℕ
max_salt_value_bytes = 94

pub record SaltValue : Type 0 where
  pub bytes : Bytes

-- `none` is the panic of `copy_from_slice` past the end of the array.
unfoldable pub encode : Bytes → Bytes → Option SaltValue
encode key value =
    if leb (2 + length key + length value) max_salt_value_bytes
    then some (record {
      bytes =
          (length key % 256)
          ∷ (length value % 256)
          ∷ (key ++ (value ++ replicate (92 - length key - length value) 0));
    })
    else none

-- `none` is the panic on a slice that passes the end of the array.
unfoldable pub key : SaltValue → Option Bytes
key v = do key_len ← get_elem? v.bytes 0; slice v.bytes 2 (2 + key_len)

unfoldable pub value : SaltValue → Option Bytes
value v = do
  key_len ← get_elem? v.bytes 0
  value_len ← get_elem? v.bytes 1
  slice v.bytes (2 + key_len) (2 + key_len + value_len)

unfoldable pub data_len : SaltValue → Option ℕ
data_len v = do
  key_len ← get_elem? v.bytes 0
  value_len ← get_elem? v.bytes 1
  some (2 + key_len + value_len)

-- `==` on the derived `PartialEq`, and on optional values.
unfoldable pub salt_value_eq : SaltValue → SaltValue → Bool
salt_value_eq a b = bytes_eq a.bytes b.bytes

unfoldable pub value_eq : Option SaltValue → Option SaltValue → Bool
unfolding salt_value_eq
value_eq none none = true
value_eq (some a) (some b) = salt_value_eq a b
value_eq _ _ = false

pub value_eq_iff : (a b : Option SaltValue) → (value_eq a b ≡ true) ↔ (a ≡ b)
unfolding value_eq
value_eq_iff none none = ground arith
value_eq_iff none (some b) = ground arith
value_eq_iff (some a) none = ground arith
value_eq_iff (some a) (some b) = ground (arith, bytes_eq_iff a.bytes b.bytes)
