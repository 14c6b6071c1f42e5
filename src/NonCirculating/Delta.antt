-- ===== src/NonCirculating/Delta.antt =====
-- What a block on a live tracker adds to its delta, against the ledger of all balances.
use cloudbreak.Prelude.{
  ℕ, ◌≡◌, refl, sym, ◌∙◌, ap, Bool, true, false, not, ◌&&◌, ◌||◌, some, List, [], ◌∷◌, arith, leb,
  ◌==◌, if◌then◌else◌, contains, map_or, inl, inr, Bool-cases, Option-cases, ◌>>=◌, All,
}
use cloudbreak.Prelude.Int.{ℤ, pos, sub_ℕ, ◌+ℤ◌, int_laws, +ℤ_assoc}
use mathlib.Core.Path.{subst}
use mathlib.Core.Option.{some-injective}
use cloudbreak.OrdMap.{OrdMap, get}
use cloudbreak.Supply.Tracker.Delta.{ledger_delta, Once}
use cloudbreak.NonCirculating.{StakeEntry, StakeBlock, no_change, Expiring}
use cloudbreak.NonCirculating.Tracker.{
  Shared, Account, State, Folding, fold_account, fold_accounts, advance_clock,
}
use cloudbreak.NonCirculating.Tracker.{apply_block, find_clock, is_live}
use cloudbreak.NonCirculating.Folds.{started, stepped}
use cloudbreak.NonCirculating.Owned.{bind-some, branch, owns, stamp, Keeps, advance_clock-Keeps}
use cloudbreak.NonCirculating.Effects.{
  Agrees, build_block_pending, change_of, Effect, +ℤ_zero, fold_account-Effect,
}

module _ {Data : Type 0} (shared : Shared Data) (ledger : ℕ → ℕ) (slot : ℕ) where
  abbrev names : List (Account Data) → ℕ → Bool
  names [] k = false
  names (a ∷ accounts) k = a.pubkey == k || names accounts k

  unfoldable owned_sum : OrdMap StakeEntry → List (Account Data) → ℤ
  owned_sum m [] = pos 0
  owned_sum m (a ∷ accounts) = change_of shared ledger slot m a +ℤ owned_sum m accounts

  abbrev IsOther : ℕ → List (Account Data) → Type 0
  IsOther j accounts = All (λ q. (j == q.pubkey) ≡ false) (build_block_pending accounts)

  names-IsOther :
      (j : ℕ) (accounts : List (Account Data)) → IsOther j accounts → names accounts j ≡ false
  names-IsOther j [] h = refl
  names-IsOther j (a ∷ accounts) h = ground (arith, h.0, names-IsOther j accounts h.1)

  -- Two maps that differ at another account only.
  module _ (j : ℕ) (m m' : OrdMap StakeEntry)
      (apart : (k : ℕ) → (j == k) ≡ false → get k m' ≡ get k m) where
    owned_sum-IsOther :
        (accounts : List (Account Data))
        → IsOther j accounts
        → owned_sum m' accounts ≡ owned_sum m accounts
    unfolding owned_sum
    owned_sum-IsOther [] h = refl
    owned_sum-IsOther (a ∷ accounts) h =
        ap
          (λ o.
            (if map_or o false (λ e. e.stake_owned)
              then sub_ℕ a.lamports (ledger a.pubkey)
              else pos 0)
            +ℤ owned_sum m' accounts)
          (apart a.pubkey h.0)
        ∙ ap (λ z. change_of shared ledger slot m a +ℤ z) (owned_sum-IsOther accounts h.1)

    Agrees-IsOther :
        (accounts : List (Account Data))
        → IsOther j accounts
        → All (λ a. Agrees ledger slot m a.pubkey) accounts
        → All (λ a. Agrees ledger slot m' a.pubkey) accounts
    Agrees-IsOther [] h all = tt
    Agrees-IsOther (a ∷ accounts) h all =
        (λ e eq. all.0 e (sym (apart a.pubkey h.0) ∙ eq), Agrees-IsOther accounts h.1 all.1)

  fold_accounts-delta :
      (accounts : List (Account Data)) (x y : Folding shared)
      → Once (build_block_pending accounts)
      → All (λ a. Agrees ledger slot x.accounts a.pubkey) accounts
      → fold_accounts shared slot true x accounts ≡ some y
      → (y.block.delta ≡ x.block.delta +ℤ owned_sum x.accounts accounts)
        × ((k : ℕ)
            → contains y.block.handled k
              ≡ (names accounts k && owns x.accounts k || contains x.block.handled k))
  unfolding fold_accounts owned_sum
  fold_accounts-delta [] x y once agrees h =
      let same : x ≡ y = some-injective x y h in
      (
        ap (λ y. y.block.delta) (sym same) ∙ sym (+ℤ_zero shared ledger slot x.block.delta),
        λ k. ap (λ y. contains y.block.handled k) (sym same),
      )
  fold_accounts-delta (a ∷ accounts) x y once agrees h =
      let first : (z : Folding shared) × (fold_account shared slot true x a ≡ some z)
          × (fold_accounts shared slot true z accounts ≡ some y) =
        bind-some (fold_account shared slot true x a)
          (λ z. fold_accounts shared slot true z accounts) y h in
      let z : Folding shared = first.0 in
      let effect : Effect shared ledger slot x z a =
        fold_account-Effect shared ledger slot x z a agrees.0 first.1 in
      let rest : (y.block.delta ≡ z.block.delta +ℤ owned_sum z.accounts accounts)
          × ((k : ℕ)
              → contains y.block.handled k
                ≡ (names accounts k && owns z.accounts k || contains z.block.handled k)) =
        fold_accounts-delta accounts first.0 y once.1
          (Agrees-IsOther a.pubkey x.accounts z.accounts effect.apart accounts once.0 agrees.1)
          first.2 in
      (
        rest.0
            ∙ ap (λ s. z.block.delta +ℤ s)
                (owned_sum-IsOther a.pubkey x.accounts z.accounts effect.apart accounts once.0)
            ∙ ap (λ d. d +ℤ owned_sum x.accounts accounts) effect.delta
            ∙ +ℤ_assoc x.block.delta (change_of shared ledger slot x.accounts a)
                (owned_sum x.accounts accounts),
        λ k. rest.1 k ∙ elim (Bool-cases (a.pubkey == k)) [
          | inl same ↦
              ground (arith, effect.handled k, names-IsOther a.pubkey accounts once.0, same)
          | inr ne ↦ ground (
            arith,
            effect.handled k,
            ap (λ o. map_or o false (λ e. e.stake_owned)) (effect.apart k ne),
            ne,
          )
        ],
      )

  split_sum :
      (o c : Bool) (d s l all : ℤ)
      → c ≡ o
      → s +ℤ l ≡ all
      → (if o then d else pos 0) +ℤ s +ℤ ((if c then pos 0 else d) +ℤ l) ≡ d +ℤ all
  split_sum true true d s l all same h = rw (sym h) (omega int_laws)
  split_sum true false d s l all same h = absurd (ground (arith, same))
  split_sum false true d s l all same h = absurd (ground (arith, same))
  split_sum false false d s l all same h = rw (sym h) (omega int_laws)

  counted_all :
      (m : OrdMap StakeEntry) (handled : List ℕ) (accounts : List (Account Data))
      → All (λ a. contains handled a.pubkey ≡ owns m a.pubkey) accounts
      → owned_sum m accounts +ℤ ledger_delta ledger handled (build_block_pending accounts)
        ≡ ledger_delta ledger [] (build_block_pending accounts)
  unfolding owned_sum ledger_delta ◌+ℤ◌
  counted_all m handled [] h = refl
  counted_all m handled (a ∷ accounts) h =
      split_sum (owns m a.pubkey) (contains handled a.pubkey) (sub_ℕ a.lamports (ledger a.pubkey))
        (owned_sum m accounts) (ledger_delta ledger handled (build_block_pending accounts))
        (ledger_delta ledger [] (build_block_pending accounts)) h.0
        (counted_all m handled accounts h.1)

  names-All :
      (accounts all : List (Account Data)) (m : OrdMap StakeEntry) (handled : List ℕ)
      → ((k : ℕ) → contains handled k ≡ (names all k && owns m k))
      → ((k : ℕ) → names accounts k ≡ true → names all k ≡ true)
      → All (λ a. contains handled a.pubkey ≡ owns m a.pubkey) accounts
  names-All [] all m handled h sub = tt
  names-All (a ∷ accounts) all m handled h sub = (
    h a.pubkey ∙ ap (λ b. b && owns m a.pubkey) (sub a.pubkey (ground arith)),
    names-All accounts all m handled h (λ k e. sub k (ground (arith, e))),
  )

  zero_+ℤ : (z : ℤ) → pos 0 +ℤ z ≡ z
  zero_+ℤ z = omega int_laws

  Agrees-stamp :
      (m m' : OrdMap StakeEntry) (k : ℕ)
      → stamp (get k m') ≡ stamp (get k m)
      → Agrees ledger slot m k
      → Agrees ledger slot m' k
  Agrees-stamp m m' k same agrees e eq mine = elim (Option-cases (get k m)) [
    | inl missing ↦ absurd (ground (arith, same, eq, missing))
    | inr (d, found_as) ↦ ground (arith, same, eq, found_as, agrees d found_as, mine)
  ]

  Agrees-stamps :
      (m m' : OrdMap StakeEntry) (accounts : List (Account Data))
      → ((k : ℕ) → stamp (get k m') ≡ stamp (get k m))
      → All (λ a. Agrees ledger slot m a.pubkey) accounts
      → All (λ a. Agrees ledger slot m' a.pubkey) accounts
  Agrees-stamps m m' [] same agrees = tt
  Agrees-stamps m m' (a ∷ accounts) same agrees = (
    Agrees-stamp m m' a.pubkey (same a.pubkey) agrees.0,
    Agrees-stamps m m' accounts same agrees.1,
  )

  -- A block that a live tracker applies: what it adds for the accounts of the map, and what is left.
  pub apply_block-delta :
      (s : State) (is_repaired : Bool) (accounts : List (Account Data)) (r : State × StakeBlock)
      → is_live s.status ≡ true
      → (not is_repaired && leb slot s.slot) ≡ false
      → Once (build_block_pending accounts)
      → All (λ a. Agrees ledger slot s.accounts a.pubkey) accounts
      → apply_block shared s slot is_repaired accounts ≡ some r
      → r.1.delta +ℤ ledger_delta ledger r.1.handled (build_block_pending accounts)
        ≡ ledger_delta ledger [] (build_block_pending accounts)
  unfolding apply_block
  apply_block-delta s is_repaired accounts r running applied once agrees h =
      let begin : Expiring = record {
        accounts = s.accounts;
        membership = s.membership;
        block = no_change;
      } in
      let advanced = λ (b : Bool). advance_clock shared b begin (find_clock shared accounts) in
      let finish = λ (x : Folding shared). some (stepped shared s slot x, x.block) in
      let body = λ (b : Bool).
        advanced b >>= λ e. fold_accounts shared slot b (started shared s e) accounts >>= finish in
      let run : body true ≡ some r =
        sym (ap body running)
        ∙ branch (not is_repaired && leb slot s.slot) false (some (s, no_change))
            (body (is_live s.status)) (some r) applied h in
      let e : (e : Expiring) × (advanced true ≡ some e)
          × ((fold_accounts shared slot true (started shared s e) accounts >>= finish) ≡ some r) =
        bind-some (advanced true)
          (λ e. fold_accounts shared slot true (started shared s e) accounts >>= finish) r run in
      let x : (x : Folding shared) × (fold_accounts shared slot true (started shared s e.0) accounts
            ≡ some x)
          × (finish x ≡ some r) =
        bind-some (fold_accounts shared slot true (started shared s e.0) accounts) finish r e.2 in
      let keeps : Keeps begin e.0 =
        advance_clock-Keeps shared true begin e.0 (find_clock shared accounts) e.1 in
      let folded : (x.0.block.delta ≡ e.0.block.delta +ℤ owned_sum e.0.accounts accounts)
          × ((k : ℕ)
              → contains x.0.block.handled k
                ≡ (names accounts k && owns e.0.accounts k || contains e.0.block.handled k)) =
        fold_accounts-delta accounts (started shared s e.0) x.0 once
          (Agrees-stamps s.accounts e.0.accounts accounts keeps.stamps agrees) x.1 in
      let sum : x.0.block.delta
            +ℤ ledger_delta ledger x.0.block.handled (build_block_pending accounts)
          ≡ ledger_delta ledger [] (build_block_pending accounts) =
        ap (λ d. d +ℤ ledger_delta ledger x.0.block.handled (build_block_pending accounts))
          (folded.0
            ∙ ap (λ d. d +ℤ owned_sum e.0.accounts accounts) keeps.delta
            ∙ zero_+ℤ (owned_sum e.0.accounts accounts))
        ∙ counted_all e.0.accounts x.0.block.handled accounts (
            names-All accounts accounts e.0.accounts x.0.block.handled
              (λ k.
                folded.1 k
                ∙ ap (λ h. names accounts k && owns e.0.accounts k || contains h k) keeps.handled
                ∙ ground arith)
              (λ k n. n)) in
      subst
        (λ b.
          b.delta +ℤ ledger_delta ledger b.handled (build_block_pending accounts)
          ≡ ledger_delta ledger [] (build_block_pending accounts))
        (ap (λ p. p.1) (some-injective (stepped shared s slot x.0, x.0.block) r x.2)) sum
