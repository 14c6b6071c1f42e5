-- ===== src/NonCirculating/Leaving.antt =====
-- The steps of `expire`: one entry waits for its time, or leaves.
use cloudbreak.Prelude.{
  ℕ, ◌≤◌, ◌≡◌, refl, sym, ◌∙◌, ap, Bool, true, false, ◌&&◌, some, List, ◌∷◌, arith, ltb, ◌==◌,
  if◌then◌else◌, is_some, inl, inr, Bool-cases,
}
use cloudbreak.OrdMap.{get, remove, get-remove}
use cloudbreak.PairSet
use cloudbreak.PairSet.{
  PairSet, has, pair_lt, After, has-After, IsAscending, insert-IsAscending, has-insert,
}
use cloudbreak.NonCirculating.{
  BlockClock, StakeEntry, evaluate, Membership, sub128, Expiring, leave, pass_epoch,
}
use cloudbreak.NonCirculating.Indexed.{waits_epoch, waits_timestamp, Indexed}
use cloudbreak.NonCirculating.Changes.{reindex, total-moved}
use cloudbreak.NonCirculating.Settled.{IsDue, Each, Each-insert}

-- The pairs of the key go with the first pair of the set, which was its only one.
has-rest :
    (a k q v c : ℕ) (b : Bool) (s : PairSet)
    → After (a, k) s
    → (has (v, k) ((a, k) ∷ s) ≡ (b && c == v))
    → (b && c == a) ≡ true
    → has (v, q) s ≡ (if k == q then false else has (v, q) ((a, k) ∷ s))
unfolding has
has-rest a k q v c b s after h e = ground (arith, h, e, has-After a k a k s after)

-- An entry leaves: its pairs are gone from the sets, its lamports from the total, its key from the members.
leave-Indexed :
    (pinned : List ℕ) (x : Expiring) (m m' : Membership) (k : ℕ) (old e : StakeEntry)
    → get k x.accounts ≡ some old
    → old.member ≡ true
    → (e.in_by_epoch ≡ false) × (e.in_by_timestamp ≡ false) × (old.lamports ≡ e.lamports)
    → m'.total ≡ sub128 m.total e.lamports
    → m'.members ≡ remove k m.members
    → ((q v : ℕ) → has (v, q) m'.by_epoch ≡ (if k == q then false else has (v, q) m.by_epoch))
    → ((q v : ℕ)
        → has (v, q) m'.by_timestamp ≡ (if k == q then false else has (v, q) m.by_timestamp))
    → IsAscending m'.by_epoch × IsAscending m'.by_timestamp
    → Indexed pinned x.accounts m
    → Indexed pinned (leave x k e).accounts m'
unfolding leave
leave-Indexed pinned x m m' k old e eq member flags total members epochs timestamps ascend h =
    reindex pinned k old (record e { member = false }) x.accounts m m' eq
      (λ s s' hs he.
        total
        ∙ total-moved true false m.total s s' e.lamports 0 hs (ground (arith, he, member, flags.2)))
      (λ q v. ground (arith, epochs q v, flags.0)) (λ q v. ground (arith, timestamps q v, flags.1))
      ascend (λ q. ap (λ s. is_some (get q s)) members ∙ ground (arith, get-remove k q m.members)) h

left-IsDue :
    (clock : BlockClock) (e : StakeEntry)
    → (e.in_by_epoch ≡ false) × (e.in_by_timestamp ≡ false)
    → evaluate e clock ≡ false
    → IsDue clock (record e { member = false })
unfolding evaluate
left-IsDue clock e flags out = record {
  one_set = ground (arith, flags.0);
  waits = ground (arith, flags.0, flags.1);
  stays = λ _. sym out;
  by_lockup = λ w. absurd (ground (arith, w));
  member = λ w. absurd (ground (arith, w, out));
  epoch_passed = λ w. absurd (ground (arith, w, flags.1));
}

waiting-IsDue :
    (clock : BlockClock) (e : StakeEntry)
    → IsDue clock e
    → e.in_by_epoch ≡ true
    → e.lockup_epoch ≤ clock.epoch
    → IsDue clock (record e { in_by_epoch = false; in_by_timestamp = true })
unfolding evaluate
waiting-IsDue clock e h waits le = record {
  one_set = refl;
  waits = ground (arith, h.waits, waits);
  stays = λ w. absurd (ground (arith, w));
  by_lockup = h.by_lockup;
  member = h.member;
  epoch_passed = λ w. ground (arith, le);
}

module _ (pinned : List ℕ) (clock : BlockClock) where
  pub pass_epoch-Indexed :
      (x : Expiring) (epoch k : ℕ) (rest : PairSet) (e : StakeEntry)
      → get k x.accounts ≡ some e
      → (e.in_by_epoch && e.lockup_epoch == epoch) ≡ true
      → IsDue clock e
      → Indexed pinned x.accounts (record x.membership { by_epoch = (epoch, k) ∷ rest })
      → Indexed pinned
          (pass_epoch clock x k e).accounts
          (record (pass_epoch clock x k e).membership { by_epoch = rest })
  unfolding pass_epoch leave
  pass_epoch-Indexed x epoch k rest e eq waits due h =
      let m : Membership = record x.membership { by_epoch = (epoch, k) ∷ rest } in
      let gone : (q v : ℕ) → has (v, q) rest ≡ (if k == q then false else has (v, q) m.by_epoch) =
        λ q v.
          has-rest epoch k q v e.lockup_epoch e.in_by_epoch rest h.epochs_ascend.0
            (h.epochs k v ∙ ap (λ o. waits_epoch o v) eq) waits in
      let member : e.member ≡ true = ground (arith, due.waits, waits) in
      let alone : (v : ℕ) → has (v, k) x.membership.by_timestamp ≡ false = λ v.
        h.timestamps k v ∙ ap (λ o. waits_timestamp o v) eq ∙ ground (arith, due.one_set, waits) in
      elim (Bool-cases (ltb clock.unix_timestamp e.lockup_unix_timestamp)) [
        | inl later ↦ rw (later) (
            reindex pinned k e (record e { in_by_epoch = false; in_by_timestamp = true }) x.accounts
              m
              (record x.membership {
                by_epoch = rest;
                by_timestamp =
                    PairSet.insert (e.lockup_unix_timestamp, k) x.membership.by_timestamp;
              })
              eq (λ s s' hs he. ground (arith, hs, he)) gone
              (λ q v. ground (
                arith,
                has-insert e.lockup_unix_timestamp k v q x.membership.by_timestamp,
                alone v,
              ))
              (
                h.epochs_ascend.1,
                insert-IsAscending e.lockup_unix_timestamp k x.membership.by_timestamp
                    h.timestamps_ascend,
              )
              (λ q. ground (arith, h.joined k, eq, member)) h)
        | inr now ↦ rw (now) (
            leave-Indexed pinned x m
              (record x.membership {
                by_epoch = rest;
                total = sub128 x.membership.total e.lamports;
                members = remove k x.membership.members;
              })
              k e (record e { in_by_epoch = false }) eq member
              (refl, ground (arith, due.one_set, waits), refl) refl refl gone
              (λ q v. ground (arith, alone v)) (h.epochs_ascend.1, h.timestamps_ascend) h)
      ]

  pub pass_epoch-IsDue :
      (x : Expiring) (k : ℕ) (e : StakeEntry)
      → e.in_by_epoch ≡ true
      → e.lockup_epoch ≤ clock.epoch
      → IsDue clock e
      → Each (IsDue clock) x.accounts
      → Each (IsDue clock) (pass_epoch clock x k e).accounts
  unfolding pass_epoch leave evaluate
  pass_epoch-IsDue x k e waits le due h =
      elim (Bool-cases (ltb clock.unix_timestamp e.lockup_unix_timestamp)) [
        | inl later ↦ rw (later) (
            Each-insert (IsDue clock) k (record e { in_by_epoch = false; in_by_timestamp = true })
              x.accounts (waiting-IsDue clock e due waits le) h)
        | inr now ↦ rw (now) (
            Each-insert (IsDue clock) k (record e { in_by_epoch = false; member = false })
              x.accounts
              (left-IsDue clock (record e { in_by_epoch = false })
                (refl, ground (arith, due.one_set, waits)) (ground (arith, due.waits, waits, now)))
              h)
      ]

  pub leave_by_timestamp-Indexed :
      (x : Expiring) (t k : ℕ) (rest : PairSet) (e : StakeEntry)
      → get k x.accounts ≡ some e
      → (e.in_by_timestamp && e.lockup_unix_timestamp == t) ≡ true
      → IsDue clock e
      → Indexed pinned x.accounts (record x.membership { by_timestamp = (t, k) ∷ rest })
      → (let y = leave x k (record e { in_by_timestamp = false }) in
          Indexed pinned y.accounts (record y.membership { by_timestamp = rest }))
  unfolding leave
  leave_by_timestamp-Indexed x t k rest e eq waits due h =
      let m : Membership = record x.membership { by_timestamp = (t, k) ∷ rest } in
      let alone : (v : ℕ) → has (v, k) x.membership.by_epoch ≡ false =
        λ v. h.epochs k v ∙ ap (λ o. waits_epoch o v) eq ∙ ground (arith, due.one_set, waits) in
      leave-Indexed pinned x m
        (record x.membership {
          by_timestamp = rest;
          total = sub128 x.membership.total e.lamports;
          members = remove k x.membership.members;
        })
        k e (record e { in_by_timestamp = false }) eq (ground (arith, due.waits, waits))
        (ground (arith, due.one_set, waits), refl, refl) refl refl (λ q v. ground (arith, alone v))
        (λ q v.
          has-rest t k q v e.lockup_unix_timestamp e.in_by_timestamp rest h.timestamps_ascend.0
            (h.timestamps k v ∙ ap (λ o. waits_timestamp o v) eq) waits)
        (h.epochs_ascend, h.timestamps_ascend.1) h

  pub leave_by_timestamp-IsDue :
      (x : Expiring) (k : ℕ) (e : StakeEntry)
      → e.in_by_timestamp ≡ true
      → e.lockup_unix_timestamp ≤ clock.unix_timestamp
      → IsDue clock e
      → Each (IsDue clock) x.accounts
      → Each (IsDue clock) (leave x k (record e { in_by_timestamp = false })).accounts
  unfolding leave evaluate
  leave_by_timestamp-IsDue x k e waits le due h =
      Each-insert (IsDue clock) k (record e { in_by_timestamp = false; member = false }) x.accounts
        (left-IsDue clock (record e { in_by_timestamp = false })
          (ground (arith, due.one_set, waits), refl)
          (ground (arith, due.waits, due.epoch_passed, waits, le)))
        h

  pub pass_epoch-clock :
      (x : Expiring) (k : ℕ) (e : StakeEntry)
      → (pass_epoch clock x k e).membership.clock ≡ x.membership.clock
  unfolding pass_epoch leave
  pass_epoch-clock x k e = elim (Bool-cases (ltb clock.unix_timestamp e.lockup_unix_timestamp)) [
    | inl later ↦ rw (later) refl
    | inr now ↦ rw (now) refl
  ]
