-- ===== src/Prelude/Maps.antt =====
-- `BTreeMap` with numbers for keys, as an association list in the order of its keys.
use Prim.Native.Nat.{ℕ, ◌≤◌, ◌<◌}
use mathlib.Core.Path.{◌≡◌, refl}
use mathlib.Core.Bool.{false}
use mathlib.Core.List.{List, [], ◌∷◌}
use mathlib.Core.Option.{Option, none, some}
use native.Mathlib.Omega.{arith}
use salt_optimizations.Prelude.Tests.{ltb, ◌==◌, if◌then◌else◌}

abbrev pub Map {ℓ} : Type ℓ → Type ℓ
Map V = List (ℕ × V)

module _ {ℓ} {V : Type ℓ} where
  unfoldable pub get : ℕ → Map V → Option V
  get k [] = none
  get k ((j, v) ∷ m) = if j == k then some v else get k m

  unfoldable pub insert : ℕ → V → Map V → Map V
  insert k v [] = (k, v) ∷ []
  insert k v ((j, w) ∷ m) =
      let later = (j, w) ∷ insert k v m in
      if ltb k j then (k, v) ∷ (j, w) ∷ m else if j == k then (k, v) ∷ m else later

  unfoldable pub remove : ℕ → Map V → Map V
  remove k [] = []
  remove k ((j, w) ∷ m) = let rest = remove k m in if j == k then rest else (j, w) ∷ rest

  pub get-insert :
      (k q : ℕ) (v : V) (m : Map V) → get q (insert k v m) ≡ (if k == q then some v else get q m)
  unfolding get insert
  get-insert k q v [] = ground arith
  get-insert k q v ((j, w) ∷ m) = ground (arith, get-insert k q v m)

  pub get-remove : (k q : ℕ) (m : Map V) → get q (remove k m) ≡ (if k == q then none else get q m)
  unfolding get remove
  get-remove k q [] = ground arith
  get-remove k q ((j, w) ∷ m) = ground (arith, get-remove k q m)

  -- Every key is above `b`, and the keys rise.
  abbrev pub Above : ℕ → Map V → Type 0
  Above b [] = Unit {0}
  Above b ((j, w) ∷ m) = (b < j) × Above j m

  -- The keys rise strictly.
  abbrev pub IsSorted : Map V → Type 0
  IsSorted [] = Unit {0}
  IsSorted ((j, w) ∷ m) = Above j m

  insert-Above : (b k : ℕ) (v : V) (m : Map V) → b < k → Above b m → Above b (insert k v m)
  unfolding insert
  insert-Above b k v [] h s = ground arith
  insert-Above b k v ((j, w) ∷ m) h s = ground (arith, insert-Above j k v m)

  pub insert-IsSorted : (k : ℕ) (v : V) (m : Map V) → IsSorted m → IsSorted (insert k v m)
  unfolding insert
  insert-IsSorted k v [] s = ground arith
  insert-IsSorted k v ((j, w) ∷ m) s = ground (arith, insert-Above j k v m)

  Above-below : (a b : ℕ) (m : Map V) → a < b → Above b m → Above a m
  Above-below a b [] h s = tt
  Above-below a b ((j, w) ∷ m) h s = (omega arith, s.1)

  remove-Above : (b k : ℕ) (m : Map V) → Above b m → Above b (remove k m)
  unfolding remove
  remove-Above b k [] s = tt
  remove-Above b k ((j, w) ∷ m) s = ground (arith, remove-Above j k m, Above-below b j (remove k m))

  pub Above-IsSorted : (b : ℕ) (m : Map V) → Above b m → IsSorted m
  Above-IsSorted b [] s = tt
  Above-IsSorted b ((j, w) ∷ m) s = s.1

  pub remove-IsSorted : (k : ℕ) (m : Map V) → IsSorted m → IsSorted (remove k m)
  unfolding remove
  remove-IsSorted k [] s = tt
  remove-IsSorted k ((j, w) ∷ m) s =
      ground (arith, remove-Above j k m, Above-IsSorted j (remove k m))

  -- No key up to the bound is in the map.
  pub get-Above : (b q : ℕ) (m : Map V) → Above b m → q ≤ b → get q m ≡ none
  unfolding get
  get-Above b q [] s h = refl
  get-Above b q ((j, w) ∷ m) s h = ground (arith, get-Above j q m)

  -- A map with no entry at any key is empty.
  pub empty_of_get : (m : Map V) → ((q : ℕ) → get q m ≡ none) → m ≡ []
  unfolding get
  empty_of_get [] h = refl
  empty_of_get ((j, w) ∷ m) h = absurd (ground (arith, h j))

  pub get-head : (k : ℕ) (v : V) (m : Map V) → get k ((k, v) ∷ m) ≡ some v
  unfolding get
  get-head k v m = ground arith

  pub get-tail : (k q : ℕ) (v : V) (m : Map V) → (k == q) ≡ false → get q ((k, v) ∷ m) ≡ get q m
  unfolding get
  get-tail k q v m h = rw h
