-- ===== src/Banderwagon/Committer.antt =====
-- banderwagon/src/salt_committer.rs: the windows of a scalar, the table of each base point, and the
-- two builds of `Committer::mul_index`. Window sizes are those whose products stay below 2 ^ 64.
use Prim.Native.Nat.{bit_or}
use salt_optimizations.Prelude.{
  ℕ, zero, suc, ◌+◌, ◌-◌, ◌*◌, ◌/◌, ◌%◌, ◌^◌, List, [], ◌∷◌, ◌++◌, map, length, get_elem?, ltb, leb,
  ◌==◌, ◌&&◌, if◌then◌else◌, Option, none, some,
}
use salt_optimizations.Prelude.Partial.{◌>>=◌}
use salt_optimizations.Constant.{u64_mod}
use salt_optimizations.Banderwagon.Curve.{Curve, Affine, Extended}

-- The source reads indices up to 253 / 64 = 3 of four limbs.
abbrev pub limb : List ℕ → ℕ → ℕ
limb [] i = 0
limb (x ∷ xs) zero = x
limb (x ∷ xs) (suc i) = limb xs i

-- The `w` bits from `start_bit` on, from one limb or from two.
unfoldable pub window : List ℕ → ℕ → ℕ → ℕ
window source_vec w start_bit =
    let source_i = start_bit / 64 in
    let offset_in_i = start_bit % 64 in
    let d = limb source_vec source_i / 2 ^ offset_in_i % 2 ^ w in
    let left = w - (64 - offset_in_i) in
    if ltb 64 (offset_in_i + w) && ltb source_i (length source_vec - 1)
    then bit_or d (limb source_vec (suc source_i) % 2 ^ left * 2 ^ (64 - offset_in_i) % u64_mod)
    else d

-- `for start_bit in (0..254).step_by(w)`, in at most 254 rounds for `w` above 0.
unfoldable pub index_loop : ℕ → List ℕ → ℕ → ℕ → List ℕ
unfolding window
index_loop zero source_vec w start_bit = []
index_loop (suc fuel) source_vec w start_bit =
    let rest = window source_vec w start_bit ∷ index_loop fuel source_vec w (start_bit + w) in
    if ltb start_bit 254 then rest else []

-- The argument is the limbs of `scalar.into_bigint()`.
unfoldable pub calculate_prefetch_index : List ℕ → ℕ → List ℕ
unfolding index_loop
calculate_prefetch_index source_vec w = index_loop 254 source_vec w 0

pub record Committer (F : Type 0) : Type 0 where
  pub window_size : ℕ
  pub tables : List (List (Affine F))

-- The index to fetch next, and its carry.
unfoldable pub next_index : ℕ → ℕ → ℕ → ℕ × ℕ
next_index window_size i idx_next =
    let half_wnd = 2 ^ (window_size - 1) + 1 in
    if leb half_wnd idx_next
    then (2 ^ window_size - idx_next + i * half_wnd, 1)
    else (idx_next + i * half_wnd, 0)

-- The end of `1..(1 << (window_size - 1))`. Its numbers are `i32`: the shift is taken modulo 32, and a
-- shift by 31 gives a negative end, with which the range is empty like `1..1`.
unfoldable pub range_end : ℕ → ℕ
range_end window_size = let shift = (window_size - 1) % 32 in if shift == 31 then 1 else 2 ^ shift

module _ (c : Curve) where
  -- `for _i in 1..half`: the points pushed, and the last `element`.
  unfoldable pub multiples :
      ℕ → Extended c.Fq → Extended c.Fq → List (Extended c.Fq) × Extended c.Fq
  multiples zero base element = ([], element)
  multiples (suc n) base element =
      let next = c.add_points element base in
      let (rest, last) = multiples n base next in (next ∷ rest, last)

  -- `for _ in 0..win_num`.
  unfoldable pub windows : ℕ → ℕ → Extended c.Fq → List (Extended c.Fq)
  unfolding multiples
  windows zero half element = []
  windows (suc n) half element =
      let (rest, last) = multiples (half - 1) element element in
      c.zero_point ∷ element ∷ (rest ++ windows n half (c.add_points last last))

  unfoldable pub new : List (Extended c.Fq) → ℕ → Committer c.Fq
  unfolding windows range_end
  new bases window_size = record {
    window_size = window_size;
    tables =
        map
          (λ base. c.normalize_batch (windows (253 / window_size + 1) (range_end window_size) base))
          bases;
  }

  abbrev pub sub : c.Fq → c.Fq → c.Fq
  sub a b = c.add a (c.neg b)

  -- In the x86_64 build the products are those of the assembly in scalar_multi_asm.rs, for which `mul`
  -- and `five` stand as in the generic build.
  unfoldable pub add_affine_point : Extended c.Fq → c.Fq → c.Fq → Extended c.Fq
  add_affine_point result p2_x p2_y =
      let a = c.mul result.x p2_x in
      let b = c.mul result.y p2_y in
      let d = c.mul result.t (c.mul p2_x p2_y) in
      let k = c.mul d c.curve_d in
      let s = c.mul (c.add result.x result.y) (c.add p2_x p2_y) in
      let e = sub (sub s a) b in
      let f = sub result.z k in
      let g = c.add result.z k in
      let h = c.add b (c.mul a c.five) in
      record { x = c.mul e f; y = c.mul g h; t = c.mul e h; z = c.mul f g }

  abbrev pub negated : Affine c.Fq → Affine c.Fq
  negated p = record { x = c.neg p.x; y = p.y }

  -- One round of the generic loop: the point pushed, if any, and the carry.
  unfoldable pub pick : ℕ → List (Affine c.Fq) → ℕ → ℕ → ℕ → Option (List (Affine c.Fq) × ℕ)
  pick window_size precom_table i carry chunk =
      let half_win = 2 ^ (window_size - 1) in
      let index = chunk + carry in
      let rest = 2 ^ window_size - index in
      if index == 0
      then some ([], carry)
      else if ltb half_win index
      then (if rest == 0
          then some ([], 1)
          else get_elem? precom_table (rest + i * (half_win + 1)) >>= λ p. some (negated p ∷ [], 1))
      else get_elem? precom_table (index + i * (half_win + 1)) >>= λ p. some (p ∷ [], 0)

  unfoldable pub push_points : ℕ → List (Affine c.Fq) → List ℕ → ℕ → ℕ → Option (List (Affine c.Fq))
  unfolding pick
  push_points window_size precom_table [] i carry = some []
  push_points window_size precom_table (chunk ∷ chunks) i carry = do
    picked ← pick window_size precom_table i carry chunk
    rest ← push_points window_size precom_table chunks (suc i) picked.1
    some (picked.0 ++ rest)

  unfoldable pub add_all : Extended c.Fq → List (Affine c.Fq) → Extended c.Fq
  unfolding add_affine_point
  add_all result [] = result
  add_all result (p ∷ ps) = add_all (add_affine_point result p.x p.y) ps

  -- The generic build; `none` is a panic on an index out of range.
  unfoldable pub mul_index : Committer c.Fq → List ℕ → ℕ → Option (Extended c.Fq)
  mul_index committer scalar g_i = do
    precom_table ← get_elem? committer.tables g_i
    ps ←
        push_points committer.window_size precom_table
          (calculate_prefetch_index scalar committer.window_size) 0 0
    some (add_all c.zero_point ps)

  -- The point at `idx`, negated on a carry; a read out of range is undefined behaviour.
  unfoldable pub add_signed : List (Affine c.Fq) → ℕ → ℕ → Extended c.Fq → Option (Extended c.Fq)
  unfolding add_affine_point
  add_signed precomp_table idx carry result = do
    p ← get_elem? precomp_table idx
    some (
        if ltb 0 carry
        then add_affine_point result (c.neg p.x) p.y
        else add_affine_point result p.x p.y)

  -- `for i in 1..chunks.len()`: the next index is computed before the current point is added.
  unfoldable pub rounds :
      ℕ → List (Affine c.Fq) → List ℕ → ℕ → ℕ → ℕ → Extended c.Fq → Option (Extended c.Fq)
  unfolding add_signed next_index
  rounds window_size precomp_table [] i idx c_next result =
      add_signed precomp_table idx c_next result
  rounds window_size precomp_table (chunk ∷ chunks) i idx c_next result = do
    next ← some (next_index window_size i (chunk + c_next))
    result' ← add_signed precomp_table idx c_next result
    rounds window_size precomp_table chunks (suc i) next.0 next.1 result'

  -- The first point, and the loop; a read of the first window out of range is undefined behaviour.
  unfoldable pub run_chunks : ℕ → List (Affine c.Fq) → List ℕ → Option (Extended c.Fq)
  unfolding rounds
  run_chunks window_size precomp_table [] = none
  run_chunks window_size precomp_table (chunk ∷ chunks) =
      let first = next_index window_size 0 chunk in
      rounds window_size precomp_table chunks 1 first.0 first.1 c.zero_point

  -- The x86_64 build, without the prefetching.
  unfoldable pub mul_index_x86_64 : Committer c.Fq → List ℕ → ℕ → Option (Extended c.Fq)
  mul_index_x86_64 committer scalar g_i = do
    precomp_table ← get_elem? committer.tables g_i
    run_chunks committer.window_size precomp_table
        (calculate_prefetch_index scalar committer.window_size)
