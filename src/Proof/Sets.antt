-- ===== src/Proof/Sets.antt =====
-- `BTreeSet` of numbers, as a list in rising order, and maps whose values are such sets.
use salt_optimizations.Prelude.{ℕ, Option, none, some, List, [], ◌∷◌, ltb, ◌==◌, if◌then◌else◌}
use salt_optimizations.Prelude.Maps
use salt_optimizations.Prelude.Maps.{Map}

abbrev pub Set : Type 0
Set = List ℕ

unfoldable pub insert : ℕ → Set → Set
insert k [] = k ∷ []
insert k (j ∷ s) =
    let later = j ∷ insert k s in if ltb k j then k ∷ j ∷ s else if j == k then j ∷ s else later

-- `extend`, and the collection of an iterator into a set.
unfoldable pub extend : Set → List ℕ → Set
unfolding insert
extend s [] = s
extend s (k ∷ ks) = extend (insert k s) ks

-- The value that `entry(…).or_default()` finds.
unfoldable pub or_default : Option Set → Set
or_default none = []
or_default (some s) = s

-- `map.entry(key).or_default().extend(items)`
unfoldable pub extend_at : ℕ → List ℕ → Map Set → Map Set
unfolding or_default extend
extend_at key items map = Maps.insert key (extend (or_default (Maps.get key map)) items) map

-- The keys of a map.
unfoldable pub keys {ℓ} : {V : Type ℓ} → Map V → List ℕ
keys [] = []
keys ((k, v) ∷ m) = k ∷ keys m
