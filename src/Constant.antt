-- ===== src/Constant.antt =====
-- The constants of salt/src/constant.rs.
use salt_optimizations.Prelude.{ℕ, ◌-◌, ◌*◌, ◌/◌, ◌^◌}

abbrev pub u32_mod : ℕ
u32_mod = 2 ^ 32

abbrev pub u64_mod : ℕ
u64_mod = 2 ^ 64

abbrev pub min_bucket_size_bits : ℕ
min_bucket_size_bits = 8

abbrev pub min_bucket_size : ℕ
min_bucket_size = 2 ^ min_bucket_size_bits

abbrev pub main_trie_levels : ℕ
main_trie_levels = 4

abbrev pub max_subtree_levels : ℕ
max_subtree_levels = 5

abbrev pub trie_width_bits : ℕ
trie_width_bits = 8

abbrev pub trie_width : ℕ
trie_width = 2 ^ trie_width_bits

abbrev pub num_buckets : ℕ
num_buckets = 2 ^ ((main_trie_levels - 1) * trie_width_bits)

abbrev pub num_meta_buckets : ℕ
num_meta_buckets = num_buckets / min_bucket_size

abbrev pub num_kv_buckets : ℕ
num_kv_buckets = num_buckets - num_meta_buckets

abbrev pub bucket_slot_bits : ℕ
bucket_slot_bits = 40

abbrev pub bucket_slot_id_mask : ℕ
bucket_slot_id_mask = 2 ^ bucket_slot_bits - 1

abbrev pub bucket_resize_load_factor_pct : ℕ
bucket_resize_load_factor_pct = 80

abbrev pub bucket_resize_multiplier : ℕ
bucket_resize_multiplier = 2

abbrev pub meta_bucket_size : ℕ
meta_bucket_size = min_bucket_size
