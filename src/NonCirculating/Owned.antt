-- ===== src/NonCirculating/Owned.antt =====
-- The change of the accounts that the stake map owns, as a block on a live tracker reports it.
use cloudbreak.Prelude.{
  ℕ, ◌≡◌, refl, sym, ◌∙◌, ap, Bool, true, false, ◌&&◌, Option, none, some, [], ◌∷◌, arith, ltb,
  if◌then◌else◌, map_or, inl, inr, Bool-cases, ◌>>=◌,
}
use mathlib.Core.Path.{subst}
use mathlib.Core.Option.{some-injective}
use cloudbreak.OrdMap.{OrdMap, get, get-insert}
use cloudbreak.PairSet.{PairSet}
use cloudbreak.NonCirculating.{
  BlockClock, StakeEntry, set_clock, Expiring, leave, note_flip, pass_epoch, expire_epochs,
  expire_timestamps, expire,
}
use cloudbreak.NonCirculating.Tracker.{Shared, advance_clock}

pub bind-some :
    {A B : Type 0} (o : Option A) (f : A → Option B) (b : B)
    → (o >>= f) ≡ some b
    → (a : A) × (o ≡ some a) × (f a ≡ some b)
bind-some none f b h = absurd (ground (arith, h))
bind-some (some a) f b h = (a, refl, h)

pub branch :
    {A : Type 0} (b c : Bool) (x y z : A)
    → b ≡ c
    → (if b then x else y) ≡ z
    → (if c then x else y) ≡ z
branch b c x y z same h = sym (ap (λ c. if c then x else y) same) ∙ h

-- What an expiry leaves of an entry.
abbrev pub stamp : Option StakeEntry → Option (ℕ × (ℕ × Bool))
stamp none = none
stamp (some e) = some (e.lamports, (e.slot, e.stake_owned))

-- The map owns the account.
abbrev pub owns : OrdMap StakeEntry → ℕ → Bool
owns accounts k = map_or (get k accounts) false (λ e. e.stake_owned)

pub record Keeps (x y : Expiring) : Type 0 where
  pub delta : y.block.delta ≡ x.block.delta
  pub handled : y.block.handled ≡ x.block.handled
  pub stamps : (k : ℕ) → stamp (get k y.accounts) ≡ stamp (get k x.accounts)

Keeps-trans : (x y z : Expiring) → Keeps x y → Keeps y z → Keeps x z
Keeps-trans x y z h h' = record {
  delta = h'.delta ∙ h.delta;
  handled = h'.handled ∙ h.handled;
  stamps = λ k. h'.stamps k ∙ h.stamps k;
}

leave-Keeps :
    (x : Expiring) (k : ℕ) (old e : StakeEntry)
    → get k x.accounts ≡ some old
    → (e.lamports ≡ old.lamports) × (e.slot ≡ old.slot) × (e.stake_owned ≡ old.stake_owned)
    → Keeps x (leave x k e)
unfolding leave note_flip
leave-Keeps x k old e eq same = record {
  delta = refl;
  handled = refl;
  stamps = λ q.
      ground (
        arith,
        get-insert k q (record e { member = false }) x.accounts,
        eq,
        same.0,
        same.1,
        same.2,
      );
}

pass_epoch-Keeps :
    (clock : BlockClock) (x : Expiring) (k : ℕ) (e : StakeEntry)
    → get k x.accounts ≡ some e
    → Keeps x (pass_epoch clock x k e)
unfolding pass_epoch
pass_epoch-Keeps clock x k e eq =
    elim (Bool-cases (ltb clock.unix_timestamp e.lockup_unix_timestamp)) [
      | inl later ↦ rw (later) (record {
        delta = refl;
        handled = refl;
        stamps = λ q. ground (
          arith,
          get-insert k q (record e { in_by_epoch = false; in_by_timestamp = true }) x.accounts,
          eq,
        );
      })
      | inr now ↦
          rw (now) (leave-Keeps x k e (record e { in_by_epoch = false }) eq (refl, refl, refl))
    ]

expire_epochs-Keeps :
    (clock : BlockClock) (s : PairSet) (x y : Expiring)
    → expire_epochs clock s x ≡ some y
    → Keeps x y
unfolding expire_epochs
expire_epochs-Keeps clock [] x y h =
    subst (Keeps x)
      (some-injective (record x { membership = record x.membership { by_epoch = [] } }) y h)
      (record { delta = refl; handled = refl; stamps = λ k. refl })
expire_epochs-Keeps clock ((epoch, k) ∷ rest) x y h =
    let next = λ (e : StakeEntry). expire_epochs clock rest (pass_epoch clock x k e) in
    let stop : Expiring = record x {
      membership = record x.membership { by_epoch = (epoch, k) ∷ rest };
    } in
    elim (Bool-cases (ltb clock.epoch epoch)) [
      | inl above ↦
          subst (Keeps x)
            (some-injective stop y (
              branch (ltb clock.epoch epoch) true (some stop) (get k x.accounts >>= next) (some y)
                above h))
            (record { delta = refl; handled = refl; stamps = λ k. refl })
      | inr passed ↦
          let popped : (e : StakeEntry) × (get k x.accounts ≡ some e) × (next e ≡ some y) =
            bind-some (get k x.accounts) next y (
              branch (ltb clock.epoch epoch) false (some stop) (get k x.accounts >>= next) (some y)
                passed h) in
          Keeps-trans x (pass_epoch clock x k popped.0) y
            (pass_epoch-Keeps clock x k popped.0 popped.1)
            (expire_epochs-Keeps clock rest (pass_epoch clock x k popped.0) y popped.2)
    ]

expire_timestamps-Keeps :
    (clock : BlockClock) (s : PairSet) (x y : Expiring)
    → expire_timestamps clock s x ≡ some y
    → Keeps x y
unfolding expire_timestamps
expire_timestamps-Keeps clock [] x y h =
    subst (Keeps x)
      (some-injective (record x { membership = record x.membership { by_timestamp = [] } }) y h)
      (record { delta = refl; handled = refl; stamps = λ k. refl })
expire_timestamps-Keeps clock ((t, k) ∷ rest) x y h =
    let next = λ (e : StakeEntry).
      expire_timestamps clock rest (leave x k (record e { in_by_timestamp = false })) in
    let stop : Expiring = record x {
      membership = record x.membership { by_timestamp = (t, k) ∷ rest };
    } in
    elim (Bool-cases (ltb clock.unix_timestamp t)) [
      | inl above ↦
          subst (Keeps x)
            (some-injective stop y (
              branch (ltb clock.unix_timestamp t) true (some stop) (get k x.accounts >>= next)
                (some y) above h))
            (record { delta = refl; handled = refl; stamps = λ k. refl })
      | inr passed ↦
          let popped : (e : StakeEntry) × (get k x.accounts ≡ some e) × (next e ≡ some y) =
            bind-some (get k x.accounts) next y (
              branch (ltb clock.unix_timestamp t) false (some stop) (get k x.accounts >>= next)
                (some y) passed h) in
          let gone : Expiring = leave x k (record popped.0 { in_by_timestamp = false }) in
          Keeps-trans x gone y
            (leave-Keeps x k popped.0 (record popped.0 { in_by_timestamp = false }) popped.1
              (refl, refl, refl))
            (expire_timestamps-Keeps clock rest
              (leave x k (record popped.0 { in_by_timestamp = false })) y popped.2)
    ]

expire-Keeps : (x y : Expiring) → expire x ≡ some y → Keeps x y
unfolding expire
expire-Keeps x y h =
    let c : (c : BlockClock) × (x.membership.clock ≡ some c)
        × ((expire_epochs c x.membership.by_epoch x >>= λ x'.
              expire_timestamps c x'.membership.by_timestamp x')
            ≡ some y) =
      bind-some x.membership.clock
        (λ c. expire_epochs c x.membership.by_epoch x >>= λ x'.
          expire_timestamps c x'.membership.by_timestamp x')
        y h in
    let e : (z : Expiring) × (expire_epochs c.0 x.membership.by_epoch x ≡ some z)
        × (expire_timestamps c.0 z.membership.by_timestamp z ≡ some y) =
      bind-some (expire_epochs c.0 x.membership.by_epoch x)
        (λ x'. expire_timestamps c.0 x'.membership.by_timestamp x') y c.2 in
    Keeps-trans x e.0 y (expire_epochs-Keeps c.0 x.membership.by_epoch x e.0 e.1)
      (expire_timestamps-Keeps c.0 e.0.membership.by_timestamp e.0 y e.2)

pub advance_clock-Keeps :
    {Data : Type 0} (shared : Shared Data) (running : Bool) (x y : Expiring) (o : Option BlockClock)
    → advance_clock shared running x o ≡ some y
    → Keeps x y
unfolding advance_clock set_clock
advance_clock-Keeps shared running x y none h =
    subst (Keeps x) (some-injective x y h)
      (record { delta = refl; handled = refl; stamps = λ k. refl })
advance_clock-Keeps shared running x y (some c) h =
    let x' : Expiring = record x { membership = (set_clock x.membership c).0 } in
    let newer = (set_clock x.membership c).1 && running in
    let same : Keeps x x' = record { delta = refl; handled = refl; stamps = λ k. refl } in
    elim (Bool-cases newer) [
      | inl expires ↦
          Keeps-trans x x' y same
            (expire-Keeps x' y (branch newer true (expire x') (some x') (some y) expires h))
      | inr skips ↦
          subst (Keeps x)
            (some-injective x' y (branch newer false (expire x') (some x') (some y) skips h)) same
    ]
