-- ===== src/NonCirculating/Effects.antt =====
-- What one account of a block on a live tracker adds to its delta.
use cloudbreak.Prelude.{
  ℕ, ◌<◌, ◌≡◌, refl, sym, ◌∙◌, ap, Bool, true, false, not, ◌&&◌, ◌||◌, none, some, List, ◌∷◌, map,
  arith, leb, ◌==◌, if◌then◌else◌, contains, map_or, inl, inr, Bool-cases, Option-cases, ◌>>=◌,
}
use cloudbreak.Prelude.Int.{ℤ, pos, sub_ℕ, ◌+ℤ◌, int_laws}
use mathlib.Core.Path.{subst}
use mathlib.Core.Option.{some-injective}
use cloudbreak.OrdMap.{OrdMap, get, insert, get-insert}
use cloudbreak.Supply.Tracker.{Pending}
use cloudbreak.NonCirculating.{StakeEntry, StakeBlock, Membership, place, unplace, note_flip}
use cloudbreak.NonCirculating.Tracker.{
  Shared, Account, Folding, fold_vacant, fold_occupied, fold_account, entry_of, is_tracked,
}
use cloudbreak.NonCirculating.Owned.{bind-some, branch, owns}

-- What the map owns of the account is older than the block and agrees with the ledger.
abbrev pub Agrees : (ℕ → ℕ) → ℕ → OrdMap StakeEntry → ℕ → Type 0
Agrees ledger slot accounts k =
    (e : StakeEntry)
    → get k accounts ≡ some e
    → e.stake_owned ≡ true
    → (e.lamports ≡ ledger k) × (e.slot < slot)

-- `SupplyTracker::build_block_pending` (core/src/modules/supply/tracker.rs).
abbrev pub build_block_pending : {Data : Type 0} → List (Account Data) → List Pending
build_block_pending accounts =
    map (λ a. record { pubkey = a.pubkey; owner = a.owner; lamports = a.lamports }) accounts

module _ {Data : Type 0} (shared : Shared Data) (ledger : ℕ → ℕ) (slot : ℕ) where
  abbrev pub change_of : OrdMap StakeEntry → Account Data → ℤ
  change_of accounts a =
      if owns accounts a.pubkey then sub_ℕ a.lamports (ledger a.pubkey) else pos 0

  -- One account in the fold.
  pub record Effect (x y : Folding shared) (a : Account Data) : Type 0 where
    pub delta : y.block.delta ≡ x.block.delta +ℤ change_of x.accounts a
    pub handled :
        (k : ℕ)
        → contains y.block.handled k
          ≡ (owns x.accounts a.pubkey && a.pubkey == k || contains x.block.handled k)
    pub apart : (k : ℕ) → (a.pubkey == k) ≡ false → get k y.accounts ≡ get k x.accounts

  pub +ℤ_zero : (z : ℤ) → z +ℤ pos 0 ≡ z
  +ℤ_zero z = omega int_laws

  note_flip-same :
      (b c : Bool) (block : StakeBlock)
      → ((note_flip b c block).delta ≡ block.delta)
        × ((note_flip b c block).handled ≡ block.handled)
  unfolding note_flip
  note_flip-same true true block = (refl, refl)
  note_flip-same true false block = (refl, refl)
  note_flip-same false true block = (refl, refl)
  note_flip-same false false block = (refl, refl)

  -- The account is not of the map.
  left-Effect :
      (x y : Folding shared) (a : Account Data)
      → owns x.accounts a.pubkey ≡ false
      → (y.block.delta ≡ x.block.delta) × (y.block.handled ≡ x.block.handled)
      → ((k : ℕ) → (a.pubkey == k) ≡ false → get k y.accounts ≡ get k x.accounts)
      → Effect x y a
  left-Effect x y a free same apart = record {
    delta =
        same.0
        ∙ sym (+ℤ_zero x.block.delta)
        ∙ ap (λ b. x.block.delta +ℤ (if b then sub_ℕ a.lamports (ledger a.pubkey) else pos 0))
            (sym free);
    handled = λ k.
        ap (λ s. contains s k) same.1
        ∙ ap (λ b. b && a.pubkey == k || contains x.block.handled k) (sym free);
    apart = apart;
  }

  -- The account is of the map, whose balance is that of the ledger.
  counted-Effect :
      (x y : Folding shared) (a : Account Data)
      → owns x.accounts a.pubkey ≡ true
      → (y.block.delta ≡ x.block.delta +ℤ sub_ℕ a.lamports (ledger a.pubkey))
        × (y.block.handled ≡ a.pubkey ∷ x.block.handled)
      → ((k : ℕ) → (a.pubkey == k) ≡ false → get k y.accounts ≡ get k x.accounts)
      → Effect x y a
  counted-Effect x y a owned same apart = record {
    delta =
        same.0
        ∙ ap (λ b. x.block.delta +ℤ (if b then sub_ℕ a.lamports (ledger a.pubkey) else pos 0))
            (sym owned);
    handled = λ k.
        ap (λ s. contains s k) same.1
        ∙ ap (λ b. b && a.pubkey == k || contains x.block.handled k) (sym owned);
    apart = apart;
  }

  get-apart :
      (a : Account Data) (e : StakeEntry) (accounts : OrdMap StakeEntry) (k : ℕ)
      → (a.pubkey == k) ≡ false
      → get k (insert a.pubkey e accounts) ≡ get k accounts
  get-apart a e accounts k ne = ground (arith, get-insert a.pubkey k e accounts, ne)

  fold_vacant-Effect :
      (x y : Folding shared) (a : Account Data)
      → get a.pubkey x.accounts ≡ none
      → fold_vacant shared slot true x a ≡ some y
      → Effect x y a
  unfolding fold_vacant
  fold_vacant-Effect x y a missing h =
      let joined = λ (r : Membership × StakeEntry). some (record x {
        accounts = insert a.pubkey r.1 x.accounts;
        membership = r.0;
        block = note_flip false r.1.member x.block;
      }) in
      let placing = place x.membership a.pubkey (entry_of shared a slot) in
      let free : owns x.accounts a.pubkey ≡ false =
        ap (λ o. map_or o false (λ e. e.stake_owned)) missing in
      elim (Bool-cases (not (is_tracked shared a))) [
        | inl skipped ↦
            subst (λ y. Effect x y a)
              (some-injective x y (
                branch (not (is_tracked shared a)) true (some x) (placing >>= joined) (some y)
                  skipped h))
              (left-Effect x x a free (refl, refl) (λ k ne. refl))
        | inr tracked ↦
            let r : (r : Membership × StakeEntry) × (placing ≡ some r) × (joined r ≡ some y) =
              bind-some placing joined y (
                branch (not (is_tracked shared a)) false (some x) (placing >>= joined) (some y)
                  tracked h) in
            let y' : Folding shared = record x {
              accounts = insert a.pubkey r.0.1 x.accounts;
              membership = r.0.0;
              block = note_flip false r.0.1.member x.block;
            } in
            subst (λ y. Effect x y a) (some-injective y' y r.2)
              (left-Effect x y' a free (note_flip-same false r.0.1.member x.block)
                (get-apart a r.0.1 x.accounts))
      ]

  fold_occupied-Effect :
      (x y : Folding shared) (a : Account Data) (old : StakeEntry)
      → get a.pubkey x.accounts ≡ some old
      → Agrees ledger slot x.accounts a.pubkey
      → fold_occupied shared slot true x a old ≡ some y
      → Effect x y a
  unfolding fold_occupied
  fold_occupied-Effect x y a old eq agrees h =
      let block : StakeBlock =
        if old.stake_owned
        then record x.block { handled = a.pubkey ∷ x.block.handled }
        else x.block in
      let block' : StakeBlock =
        if old.stake_owned
        then record block { delta = block.delta +ℤ sub_ℕ a.lamports old.lamports }
        else block in
      let moved = λ (r : Membership × StakeEntry). some (record x {
        accounts = insert a.pubkey r.1 x.accounts;
        membership = r.0;
        block = note_flip old.member r.1.member block';
      }) in
      let placing = place (unplace x.membership a.pubkey old) a.pubkey (entry_of shared a slot) in
      let owned : owns x.accounts a.pubkey ≡ old.stake_owned =
        ap (λ o. map_or o false (λ e. e.stake_owned)) eq in
      elim (Bool-cases (leb slot old.slot)) [
        | inl stale ↦
            let free : old.stake_owned ≡ false = ground (arith, stale, agrees old eq) in
            subst (λ y. Effect x y a)
              (some-injective (record x { block = block }) y
                (branch (leb slot old.slot) true (some (record x { block = block }))
                  (placing >>= moved) (some y) stale h))
              (left-Effect x (record x { block = block }) a (owned ∙ free) (rw (free) (refl, refl))
                (λ k ne. refl))
        | inr newer ↦
            let r : (r : Membership × StakeEntry) × (placing ≡ some r) × (moved r ≡ some y) =
              bind-some placing moved y (
                branch (leb slot old.slot) false (some (record x { block = block }))
                  (placing >>= moved) (some y) newer h) in
            let y' : Folding shared = record x {
              accounts = insert a.pubkey r.0.1 x.accounts;
              membership = r.0.0;
              block = note_flip old.member r.0.1.member block';
            } in
            let same : (y'.block.delta ≡ block'.delta) × (y'.block.handled ≡ block'.handled) =
              note_flip-same old.member r.0.1.member block' in
            subst (λ y. Effect x y a) (some-injective y' y r.2)
              (elim (Bool-cases old.stake_owned) [
                | inl mine ↦
                    counted-Effect x y' a (owned ∙ mine)
                      (
                        same.0
                            ∙ rw (mine) (
                                ap (λ n. x.block.delta +ℤ sub_ℕ a.lamports n)
                                  (agrees old eq mine).0),
                        same.1 ∙ rw (mine) refl,
                      )
                      (get-apart a r.0.1 x.accounts)
                | inr free ↦
                    left-Effect x y' a (owned ∙ free)
                      (same.0 ∙ rw (free) refl, same.1 ∙ rw (free) refl)
                      (get-apart a r.0.1 x.accounts)
              ])
      ]

  pub fold_account-Effect :
      (x y : Folding shared) (a : Account Data)
      → Agrees ledger slot x.accounts a.pubkey
      → fold_account shared slot true x a ≡ some y
      → Effect x y a
  unfolding fold_account
  fold_account-Effect x y a agrees h = elim (Option-cases (get a.pubkey x.accounts)) [
    | inl missing ↦ fold_vacant-Effect x y a missing (sym (rw (missing, fold_account) refl) ∙ h)
    | inr (old, eq) ↦
        fold_occupied-Effect x y a old eq agrees (sym (rw (eq, fold_account) refl) ∙ h)
  ]
