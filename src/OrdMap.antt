-- ===== src/OrdMap.antt =====
-- `BTreeMap<u64, V>` as the list of its entries in the order of their keys. Keys are numbers: slots,
-- or public keys read as big-endian numbers, whose order is that of the bytes.
pub mod Range
use cloudbreak.Prelude.{
  ℕ, ◌≤◌, ◌<◌, ◌≡◌, refl, Bool, Option, none, some, List, [], ◌∷◌, arith, ltb, leb, ◌==◌, keep,
  if◌then◌else◌,
}

abbrev pub OrdMap {ℓ} : Type ℓ → Type ℓ
OrdMap V = List (ℕ × V)

module _ {ℓ} {V : Type ℓ} where
  unfoldable pub get : ℕ → OrdMap V → Option V
  get k [] = none
  get k ((j, v) ∷ m) = if j == k then some v else get k m

  unfoldable pub insert : ℕ → V → OrdMap V → OrdMap V
  insert k v [] = (k, v) ∷ []
  insert k v ((j, w) ∷ m) =
      let rest = insert k v m in
      if k == j then (k, v) ∷ m else if ltb k j then (k, v) ∷ (j, w) ∷ m else (j, w) ∷ rest

  unfoldable pub remove : ℕ → OrdMap V → OrdMap V
  remove k [] = []
  remove k ((j, v) ∷ m) = let rest = remove k m in if j == k then rest else (j, v) ∷ rest

  -- `range(lo..)`
  unfoldable pub range_from : ℕ → OrdMap V → OrdMap V
  range_from lo m = keep (λ e. leb lo e.0) m

  -- The value of the greatest key.
  unfoldable pub last_value : OrdMap V → Option V
  last_value [] = none
  last_value ((k, v) ∷ []) = some v
  last_value ((k, v) ∷ e ∷ m) = last_value (e ∷ m)

  -- `pop_first` while the first key is below `floor`.
  unfoldable pub pop_below : ℕ → OrdMap V → OrdMap V
  pop_below floor [] = []
  pop_below floor ((k, v) ∷ m) =
      let rest = pop_below floor m in if ltb k floor then rest else (k, v) ∷ m

  unfoldable pub remove_all : List ℕ → OrdMap V → OrdMap V
  unfolding remove
  remove_all [] m = m
  remove_all (k ∷ ks) m = remove_all ks (remove k m)

  pub get-insert :
      (k q : ℕ) (v : V) (m : OrdMap V) → get q (insert k v m) ≡ (if k == q then some v else get q m)
  unfolding get insert
  get-insert k q v [] = refl
  get-insert k q v ((j, w) ∷ m) = ground (arith, get-insert k q v m)

  pub get-remove :
      (k q : ℕ) (m : OrdMap V) → get q (remove k m) ≡ (if k == q then none else get q m)
  unfolding get remove
  get-remove k q [] = ground arith
  get-remove k q ((j, w) ∷ m) = ground (arith, get-remove k q m)

  -- Every key is above `k`.
  abbrev pub Above : ℕ → OrdMap V → Type 0
  Above k [] = Unit
  Above k ((j, v) ∷ m) = (k < j) × Above k m

  -- The keys ascend strictly.
  abbrev pub IsSorted : OrdMap V → Type 0
  IsSorted [] = Unit
  IsSorted ((k, v) ∷ m) = Above k m × IsSorted m

  pub Above-trans : (a b : ℕ) (m : OrdMap V) → a ≤ b → Above b m → Above a m
  Above-trans a b [] le h = h
  Above-trans a b ((j, v) ∷ m) le h = (omega arith, Above-trans a b m le h.1)

  pub insert-Above : (a k : ℕ) (v : V) (m : OrdMap V) → a < k → Above a m → Above a (insert k v m)
  unfolding insert
  insert-Above a k v [] lt h = (lt, h)
  insert-Above a k v ((j, w) ∷ m) lt h = ground (arith, insert-Above a k v m lt h.1)

  pub insert-IsSorted : (k : ℕ) (v : V) (m : OrdMap V) → IsSorted m → IsSorted (insert k v m)
  unfolding insert
  insert-IsSorted k v [] h = (tt, tt)
  insert-IsSorted k v ((j, w) ∷ m) h = ground (
    arith,
    insert-IsSorted k v m h.1,
    λ (lt : j < k). insert-Above j k v m lt h.0,
    λ (le : k ≤ j). Above-trans k j m le h.0,
  )

  pub remove-Above : (a k : ℕ) (m : OrdMap V) → Above a m → Above a (remove k m)
  unfolding remove
  remove-Above a k [] h = h
  remove-Above a k ((j, w) ∷ m) h = ground (arith, remove-Above a k m h.1)

  pub remove-IsSorted : (k : ℕ) (m : OrdMap V) → IsSorted m → IsSorted (remove k m)
  unfolding remove
  remove-IsSorted k [] h = h
  remove-IsSorted k ((j, w) ∷ m) h = ground (arith, remove-IsSorted k m h.1, remove-Above j k m h.0)

  -- Nothing is found at or below a bound of the keys.
  pub get-Above : (a q : ℕ) (m : OrdMap V) → Above a m → q ≤ a → get q m ≡ none
  unfolding get
  get-Above a q [] h le = refl
  get-Above a q ((j, v) ∷ m) h le = ground (arith, get-Above a q m h.1 le)
