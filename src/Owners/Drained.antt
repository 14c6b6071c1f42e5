-- ===== src/Owners/Drained.antt =====
-- The pairs that route the cleanup of closed accounts, against the pairs that are saved.
use cloudbreak.Prelude.{
  ℕ, ◌≡◌, refl, ap, ◌∙◌, inl, inr, false, none, List, [], ◌∷◌, ◌==◌, ==_refl, All, Bool-cases,
}
use cloudbreak.OrdMap.{OrdMap, get, remove, get-remove}
use cloudbreak.Owners.{
  AccountOwnerItem, AccountOwnerMap, with_owner, known_pairs, closed_cleanup_pairs, drain,
  save_closed_accounts, get_owner,
}

-- No key is twice in the list.
abbrev pub IsDistinct : List ℕ → Type 0
IsDistinct [] = Unit
IsDistinct (k ∷ ks) = All (λ j. (k == j) ≡ false) ks × IsDistinct ks

known_pairs-remove :
    (accounts : OrdMap AccountOwnerItem) (k : ℕ) (closed : List ℕ)
    → All (λ j. (k == j) ≡ false) closed
    → known_pairs (remove k accounts) closed ≡ known_pairs accounts closed
unfolding known_pairs
known_pairs-remove accounts k [] h = refl
known_pairs-remove accounts k (j ∷ closed) h =
    let same : get j (remove k accounts) ≡ get j accounts =
      get-remove k j accounts ∙ rw (h.0) refl in
    rw (same, known_pairs-remove accounts k closed h.1) refl

drain-known_pairs :
    (accounts : OrdMap AccountOwnerItem) (closed : List ℕ)
    → IsDistinct closed
    → (drain accounts closed).1 ≡ known_pairs accounts closed
unfolding drain known_pairs
drain-known_pairs accounts [] h = refl
drain-known_pairs accounts (k ∷ closed) h =
    ap (with_owner k (get k accounts))
      (drain-known_pairs (remove k accounts) closed h.1 ∙ known_pairs-remove accounts k closed h.0)

get-drain-none :
    (accounts : OrdMap AccountOwnerItem) (closed : List ℕ) (q : ℕ)
    → get q accounts ≡ none
    → get q (drain accounts closed).0 ≡ none
unfolding drain
get-drain-none accounts [] q e = e
get-drain-none accounts (k ∷ closed) q e = get-drain-none (remove k accounts) closed q (
    get-remove k q accounts
    ∙ (elim (Bool-cases (k == q)) [ inl same ↦ rw (same) refl | inr other ↦ rw (other) e ]))

get-drain :
    (accounts : OrdMap AccountOwnerItem) (closed : List ℕ)
    → All (λ k. get k (drain accounts closed).0 ≡ none) closed
unfolding drain
get-drain accounts [] = tt
get-drain accounts (k ∷ closed) = (
  get-drain-none (remove k accounts) closed k (get-remove k k accounts ∙ rw (==_refl k) refl),
  get-drain (remove k accounts) closed,
)

get_owner-none :
    (m : AccountOwnerMap) (keys : List ℕ)
    → All (λ k. get k m.accounts ≡ none) keys
    → All (λ k. get_owner m k ≡ none) keys
unfolding get_owner
get_owner-none m [] h = tt
get_owner-none m (k ∷ keys) h = (rw (h.0) refl, get_owner-none m keys h.1)

-- For distinct closed accounts, the pairs that route the cleanup are those that saving the closed accounts
-- inserts afterwards, and after it no closed account has an owner.
pub save_closed_accounts-closed_cleanup_pairs :
    (m : AccountOwnerMap) (closed : List ℕ) (slot : ℕ)
    → IsDistinct closed
    → ((save_closed_accounts m closed slot).1 ≡ closed_cleanup_pairs m closed slot)
      × All (λ k. get_owner (save_closed_accounts m closed slot).0 k ≡ none) closed
unfolding save_closed_accounts closed_cleanup_pairs
save_closed_accounts-closed_cleanup_pairs m closed slot h = (
  rw (drain-known_pairs m.accounts closed h) refl,
  get_owner-none (save_closed_accounts m closed slot).0 closed (get-drain m.accounts closed),
)
