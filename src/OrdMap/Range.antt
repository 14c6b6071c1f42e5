-- ===== src/OrdMap/Range.antt =====
-- Ranges, bounds and counts of an ordered map.
use cloudbreak.Prelude.{
  ℕ, suc, ◌+◌, ◌-◌, ◌≤◌, ◌<◌, ◌≡◌, refl, none, some, List, [], ◌∷◌, arith, ltb, leb, if◌then◌else◌,
  length, contains, length-keep-le,
}
use cloudbreak.OrdMap.{
  OrdMap, get, remove, range_from, last_value, pop_below, remove_all, Above, IsSorted, get-Above,
  get-remove, remove-IsSorted,
}

module _ {ℓ} {V : Type ℓ} where
  pub get-range_from :
      (lo q : ℕ) (m : OrdMap V) → get q (range_from lo m) ≡ (if leb lo q then get q m else none)
  unfolding get range_from
  get-range_from lo q [] = ground arith
  get-range_from lo q ((k, v) ∷ m) = ground (arith, get-range_from lo q m)

  pub range_from-Above : (lo a : ℕ) (m : OrdMap V) → Above a m → Above a (range_from lo m)
  unfolding range_from
  range_from-Above lo a [] h = h
  range_from-Above lo a ((k, v) ∷ m) h = ground (arith, range_from-Above lo a m h.1)

  pub range_from-IsSorted : (lo : ℕ) (m : OrdMap V) → IsSorted m → IsSorted (range_from lo m)
  unfolding range_from
  range_from-IsSorted lo [] h = h
  range_from-IsSorted lo ((k, v) ∷ m) h =
      ground (arith, range_from-IsSorted lo m h.1, range_from-Above lo k m h.0)

  pub pop_below-IsSorted : (floor : ℕ) (m : OrdMap V) → IsSorted m → IsSorted (pop_below floor m)
  unfolding pop_below
  pop_below-IsSorted floor [] h = h
  pop_below-IsSorted floor ((k, v) ∷ m) h = ground (arith, pop_below-IsSorted floor m h.1)

  -- Exactly the keys below the floor go.
  pub get-pop_below :
      (floor q : ℕ) (m : OrdMap V)
      → IsSorted m
      → get q (pop_below floor m) ≡ (if ltb q floor then none else get q m)
  unfolding get pop_below
  get-pop_below floor q [] h = ground arith
  get-pop_below floor q ((k, v) ∷ m) h =
      ground (arith, get-pop_below floor q m h.1, get-Above k q m h.0)

  pub get-remove_all :
      (ks : List ℕ) (q : ℕ) (m : OrdMap V)
      → get q (remove_all ks m) ≡ (if contains ks q then none else get q m)
  unfolding remove_all
  get-remove_all [] q m = refl
  get-remove_all (k ∷ ks) q m = ground (arith, get-remove_all ks q (remove k m), get-remove k q m)

  pub remove_all-IsSorted : (ks : List ℕ) (m : OrdMap V) → IsSorted m → IsSorted (remove_all ks m)
  unfolding remove_all
  remove_all-IsSorted [] m h = h
  remove_all-IsSorted (k ∷ ks) m h = remove_all-IsSorted ks (remove k m) (remove-IsSorted k m h)

  -- The last value is stored under a key that bounds all others.
  pub last_value-greatest :
      (m : OrdMap V) (v : V)
      → IsSorted m
      → last_value m ≡ some v
      → (k : ℕ) × (get k m ≡ some v) × ((q : ℕ) (w : V) → get q m ≡ some w → q ≤ k)
  unfolding last_value get
  last_value-greatest [] v h e = cc
  last_value-greatest ((k, w) ∷ []) v h e = (k, ground arith, λ q u p. ground arith)
  last_value-greatest ((k, w) ∷ (j, u) ∷ m) v h e =
      let (l, found, top) = last_value-greatest ((j, u) ∷ m) v h.1 e in
      (l, ground (arith, get-Above k l ((j, u) ∷ m) h.0), λ q x p. ground (arith, top q x, top j u))

  pub remove-Above_eq : (k : ℕ) (m : OrdMap V) → Above k m → remove k m ≡ m
  unfolding remove
  remove-Above_eq k [] h = refl
  remove-Above_eq k ((j, w) ∷ m) h = ground (arith, remove-Above_eq k m h.1)

  -- The first entry of a range is the lowest.
  pub range_from-head :
      (lo : ℕ) (m : OrdMap V) (k : ℕ) (v : V) (rest : OrdMap V)
      → range_from lo m ≡ (k, v) ∷ rest
      → (lo ≤ k) × (get k m ≡ some v)
  unfolding range_from get
  range_from-head lo [] k v rest e = cc
  range_from-head lo ((j, w) ∷ m) k v rest e = ground (arith, range_from-head lo m k v rest)

  pub range_from-remove :
      (lo : ℕ) (m : OrdMap V) (k : ℕ) (v : V) (rest : OrdMap V)
      → IsSorted m
      → range_from lo m ≡ (k, v) ∷ rest
      → range_from lo (remove k m) ≡ rest
  unfolding range_from remove
  range_from-remove lo [] k v rest h e = cc
  range_from-remove lo ((j, w) ∷ m) k v rest h e = ground (
    arith,
    range_from-remove lo m k v rest h.1,
    range_from-head lo m k v rest,
    remove-Above_eq j m h.0,
  )

  pub length-range_from-le : (lo : ℕ) (m : OrdMap V) → length (range_from lo m) ≤ length m
  unfolding range_from
  length-range_from-le lo m = length-keep-le (λ e. leb lo e.0) m

  -- What an `Above` map holds lies above.
  pub Above-get : (a q : ℕ) (m : OrdMap V) (v : V) → Above a m → get q m ≡ some v → a < q
  unfolding get
  Above-get a q [] v h e = cc
  Above-get a q ((j, w) ∷ m) v h e = ground (arith, Above-get a q m v h.1)

  -- Of ascending keys from `lo` on, at most `hi - lo` stand below `hi`.
  pub length-le-span :
      (lo hi : ℕ) (m : OrdMap V)
      → IsSorted m
      → ((q : ℕ) (v : V) → get q m ≡ some v → lo ≤ q)
      → length m ≤ (hi - lo) + length (range_from hi m)
  unfolding get range_from
  length-le-span lo hi [] h within = omega arith
  length-le-span lo hi ((k, v) ∷ m) h within =
      let at = within k v (ground arith) in
      let rest = length-le-span (suc k) hi m h.1 (λ q w e. Above-get k q m w h.0 e) in ground arith

  pub range_from-lowest :
      (lo : ℕ) (m : OrdMap V) (k r : ℕ) (v w : V) (rest : OrdMap V)
      → IsSorted m
      → range_from lo m ≡ (k, v) ∷ rest
      → lo ≤ r
      → get r m ≡ some w
      → k ≤ r
  unfolding range_from get
  range_from-lowest lo [] k r v w rest h e le g = cc
  range_from-lowest lo ((j, u) ∷ m) k r v w rest h e le g = ground (
    arith,
    range_from-lowest lo m k r v w rest h.1,
    λ (p : get r m ≡ some w). Above-get j r m w h.0 p,
  )

  pub range_from-Above_of_lt : (a lo : ℕ) (m : OrdMap V) → a < lo → Above a (range_from lo m)
  unfolding range_from
  range_from-Above_of_lt a lo [] lt = tt
  range_from-Above_of_lt a lo ((k, v) ∷ m) lt = ground (arith, range_from-Above_of_lt a lo m lt)

  pub last_value-of_greatest :
      (m : OrdMap V) (k : ℕ) (v : V)
      → IsSorted m
      → get k m ≡ some v
      → ((q : ℕ) (w : V) → get q m ≡ some w → q ≤ k)
      → last_value m ≡ some v
  unfolding last_value get
  last_value-of_greatest [] k v h e top = cc
  last_value-of_greatest ((j, w) ∷ []) k v h e top = ground arith
  last_value-of_greatest ((j, w) ∷ (i, u) ∷ m) k v h e top =
      let le = top i u (ground arith) in
      last_value-of_greatest ((i, u) ∷ m) k v h.1 (ground arith)
        (λ q x g. top q x (ground (arith, Above-get j q ((i, u) ∷ m) x h.0)))
