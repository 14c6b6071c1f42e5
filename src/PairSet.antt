-- ===== src/PairSet.antt =====
-- `BTreeSet` of pairs as the list of its members in the order of the pairs.
use cloudbreak.Prelude.{
  ℕ, ◌≡◌, refl, Bool, true, false, not, ◌&&◌, ◌||◌, List, [], ◌∷◌, arith, ltb, ◌==◌, if◌then◌else◌,
}

abbrev pub PairSet : Type 0
PairSet = List (ℕ × ℕ)

abbrev pub pair_eq : ℕ × ℕ → ℕ × ℕ → Bool
pair_eq (a, k) (b, j) = a == b && k == j

abbrev pub pair_lt : ℕ × ℕ → ℕ × ℕ → Bool
pair_lt (a, k) (b, j) = ltb a b || a == b && ltb k j

unfoldable pub has : ℕ × ℕ → PairSet → Bool
has p [] = false
has p (q ∷ s) = pair_eq q p || has p s

unfoldable pub insert : ℕ × ℕ → PairSet → PairSet
insert p [] = p ∷ []
insert p (q ∷ s) =
    let rest = insert p s in
    if pair_eq p q then q ∷ s else if pair_lt p q then p ∷ q ∷ s else q ∷ rest

unfoldable pub remove : ℕ × ℕ → PairSet → PairSet
remove p [] = []
remove p (q ∷ s) = let rest = remove p s in if pair_eq q p then rest else q ∷ rest

pub has-insert :
    (a k b j : ℕ) (s : PairSet) → has (b, j) (insert (a, k) s) ≡ (a == b && k == j || has (b, j) s)
unfolding has insert
has-insert a k b j [] = refl
has-insert a k b j ((c, i) ∷ s) = ground (arith, has-insert a k b j s)

pub has-remove :
    (a k b j : ℕ) (s : PairSet)
    → has (b, j) (remove (a, k) s) ≡ (has (b, j) s && not (a == b && k == j))
unfolding has remove
has-remove a k b j [] = refl
has-remove a k b j ((c, i) ∷ s) = ground (arith, has-remove a k b j s)

-- Every member is after the pair.
abbrev pub After : ℕ × ℕ → PairSet → Type 0
After p [] = Unit
After p (q ∷ s) = (pair_lt p q ≡ true) × After p s

-- The members ascend strictly.
abbrev pub IsAscending : PairSet → Type 0
IsAscending [] = Unit
IsAscending (p ∷ s) = After p s × IsAscending s

After-trans :
    (a k b j : ℕ) (s : PairSet) → pair_lt (a, k) (b, j) ≡ true → After (b, j) s → After (a, k) s
After-trans a k b j [] lt h = h
After-trans a k b j ((c, i) ∷ s) lt h = (ground (arith, h.0), After-trans a k b j s lt h.1)

insert-After :
    (a k b j : ℕ) (s : PairSet)
    → pair_lt (a, k) (b, j) ≡ true
    → After (a, k) s
    → After (a, k) (insert (b, j) s)
unfolding insert
insert-After a k b j [] lt h = (lt, h)
insert-After a k b j ((c, i) ∷ s) lt h = ground (arith, insert-After a k b j s lt h.1)

pub insert-IsAscending : (a k : ℕ) (s : PairSet) → IsAscending s → IsAscending (insert (a, k) s)
unfolding insert
insert-IsAscending a k [] h = (tt, tt)
insert-IsAscending a k ((b, j) ∷ s) h = ground (
  arith,
  insert-IsAscending a k s h.1,
  λ (lt : pair_lt (b, j) (a, k) ≡ true). insert-After b j a k s lt h.0,
  λ (lt : pair_lt (a, k) (b, j) ≡ true). After-trans a k b j s lt h.0,
)

remove-After : (a k b j : ℕ) (s : PairSet) → After (a, k) s → After (a, k) (remove (b, j) s)
unfolding remove
remove-After a k b j [] h = h
remove-After a k b j ((c, i) ∷ s) h = ground (arith, remove-After a k b j s h.1)

pub remove-IsAscending : (a k : ℕ) (s : PairSet) → IsAscending s → IsAscending (remove (a, k) s)
unfolding remove
remove-IsAscending a k [] h = h
remove-IsAscending a k ((b, j) ∷ s) h =
    ground (arith, remove-IsAscending a k s h.1, remove-After b j a k s h.0)

-- The first component of a member is not below that of a pair that all are after.
pub has-After :
    (a k b j : ℕ) (s : PairSet)
    → After (a, k) s
    → has (b, j) s ≡ true
    → pair_lt (a, k) (b, j) ≡ true
unfolding has
has-After a k b j [] h e = absurd (ground (arith, e))
has-After a k b j ((c, i) ∷ s) h e = ground (arith, has-After a k b j s h.1)
