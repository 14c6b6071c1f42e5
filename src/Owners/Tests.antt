-- ===== src/Owners/Tests.antt =====
-- Owners of three accounts.
use cloudbreak.Prelude.{◌≡◌, refl, none, [], ◌∷◌, All}
use cloudbreak.Owners.{
  AccountOwnerMap, new, upsert_account, closed_cleanup_pairs, save_closed_accounts, get_owner,
}
use cloudbreak.Owners.Drained.{save_closed_accounts-closed_cleanup_pairs}

-- Account 1 goes from owner 8 to 9 at slot 5.
abbrev three : AccountOwnerMap
three =
    upsert_account (upsert_account (upsert_account (upsert_account new 1 8 3) 2 8 4) 3 7 4) 1 9 5

save_closed_accounts-closed_cleanup_pairs_example :
    ((save_closed_accounts three (2 ∷ 4 ∷ []) 5).1 ≡ closed_cleanup_pairs three (2 ∷ 4 ∷ []) 5)
    × All (λ k. get_owner (save_closed_accounts three (2 ∷ 4 ∷ []) 5).0 k ≡ none) (2 ∷ 4 ∷ [])
save_closed_accounts-closed_cleanup_pairs_example =
    save_closed_accounts-closed_cleanup_pairs three (2 ∷ 4 ∷ []) 5 ((refl, tt), (tt, tt))

pairs : closed_cleanup_pairs three (2 ∷ 4 ∷ []) 5 ≡ (2, 8) ∷ (1, 8) ∷ []
unfolding closed_cleanup_pairs upsert_account new
pairs = refl
