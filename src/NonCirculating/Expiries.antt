-- ===== src/NonCirculating/Expiries.antt =====
-- The loops of `expire`: each entry that they pop is in the map, and the rest of the membership stays right.
use cloudbreak.Prelude.{
  ℕ, ◌<◌, ◌≡◌, refl, sym, ◌∙◌, ap, true, false, ◌&&◌, Option, some, List, [], ◌∷◌, arith, ltb, ◌==◌,
  inl, inr, Bool-cases, Option-cases, ◌>>=◌,
}
use cloudbreak.OrdMap.{get}
use cloudbreak.PairSet.{PairSet, has, has-After}
use cloudbreak.NonCirculating.{
  BlockClock, Expiring, leave, pass_epoch, expire_epochs, expire_timestamps, expire,
}
use cloudbreak.NonCirculating.Indexed.{waits_epoch, waits_timestamp, Indexed}
use cloudbreak.NonCirculating.Settled.{IsSettled, IsDue, Each, IsDue-IsSettled}
use cloudbreak.NonCirculating.Leaving.{
  pass_epoch-Indexed, pass_epoch-IsDue, leave_by_timestamp-Indexed, leave_by_timestamp-IsDue,
  pass_epoch-clock,
}

module _ (pinned : List ℕ) (clock : BlockClock) where
  -- What a loop of `expire` leaves: it returns, and the entries that wait are right.
  pub record Popped (x : Expiring) (o : Option Expiring) : Type 0 where
    pub last : Expiring
    pub runs : o ≡ some last
    pub indexed : Indexed pinned last.accounts last.membership
    pub due : Each (IsDue clock) last.accounts
    pub same_clock : last.membership.clock ≡ x.membership.clock

  pub expire_epochs-Popped :
      (s : PairSet) (x : Expiring)
      → Indexed pinned x.accounts (record x.membership { by_epoch = s })
      → Each (IsDue clock) x.accounts
      → (p : Popped x (expire_epochs clock s x)) × ((k v : ℕ)
          → has (v, k) p.last.membership.by_epoch ≡ true
          → clock.epoch < v)
  unfolding expire_epochs has
  expire_epochs-Popped [] x h due = (
    record {
      last = record x { membership = record x.membership { by_epoch = [] } };
      runs = refl;
      indexed = h;
      due = due;
      same_clock = refl;
    },
    λ k v e. absurd (ground (arith, e)),
  )
  expire_epochs-Popped ((epoch, k) ∷ rest) x h due = elim (Bool-cases (ltb clock.epoch epoch)) [
    | inl above ↦ (
      record {
        last = record x { membership = record x.membership { by_epoch = (epoch, k) ∷ rest } };
        runs = rw (above) refl;
        indexed = h;
        due = due;
        same_clock = refl;
      },
      λ q v e. ground (arith, e, above, has-After epoch k v q rest h.epochs_ascend.0),
    )
    | inr passed ↦
        let waits : waits_epoch (get k x.accounts) epoch ≡ true =
          sym (h.epochs k epoch) ∙ ground arith in
        elim (Option-cases (get k x.accounts)) [
          | inl missing ↦ absurd (ground (arith, waits, missing))
          | inr (e, eq) ↦
              let waits' : (e.in_by_epoch && e.lockup_epoch == epoch) ≡ true =
                ground (arith, waits, eq) in
              let ih : (p : Popped (pass_epoch clock x k e)
                    (expire_epochs clock rest (pass_epoch clock x k e)))
                  × ((k v : ℕ) → has (v, k) p.last.membership.by_epoch ≡ true → clock.epoch < v) =
                expire_epochs-Popped rest (pass_epoch clock x k e)
                  (pass_epoch-Indexed pinned clock x epoch k rest e eq waits' (due k e eq) h)
                  (pass_epoch-IsDue pinned clock x k e (ground (arith, waits'))
                    (ground (arith, waits', passed)) (due k e eq) due) in
              (
                record {
                  last = ih.0.last;
                  runs = rw (passed, eq) ih.0.runs;
                  indexed = ih.0.indexed;
                  due = ih.0.due;
                  same_clock = ih.0.same_clock ∙ pass_epoch-clock pinned clock x k e;
                },
                ih.1,
              )
        ]
  ]

  pub expire_timestamps-Popped :
      (s : PairSet) (x : Expiring)
      → Indexed pinned x.accounts (record x.membership { by_timestamp = s })
      → Each (IsDue clock) x.accounts
      → (p : Popped x (expire_timestamps clock s x)) × ((k v : ℕ)
          → has (v, k) p.last.membership.by_timestamp ≡ true
          → clock.unix_timestamp < v)
        × (p.last.membership.by_epoch ≡ x.membership.by_epoch)
  unfolding expire_timestamps has leave
  expire_timestamps-Popped [] x h due = (
    record {
      last = record x { membership = record x.membership { by_timestamp = [] } };
      runs = refl;
      indexed = h;
      due = due;
      same_clock = refl;
    },
    λ k v e. absurd (ground (arith, e)),
    refl,
  )
  expire_timestamps-Popped ((t, k) ∷ rest) x h due =
      elim (Bool-cases (ltb clock.unix_timestamp t)) [
        | inl above ↦ (
          record {
            last = record x { membership = record x.membership { by_timestamp = (t, k) ∷ rest } };
            runs = rw (above) refl;
            indexed = h;
            due = due;
            same_clock = refl;
          },
          λ q v e. ground (arith, e, above, has-After t k v q rest h.timestamps_ascend.0),
          refl,
        )
        | inr passed ↦
            let waits : waits_timestamp (get k x.accounts) t ≡ true =
              sym (h.timestamps k t) ∙ ground arith in
            elim (Option-cases (get k x.accounts)) [
              | inl missing ↦ absurd (ground (arith, waits, missing))
              | inr (e, eq) ↦
                  let waits' : (e.in_by_timestamp && e.lockup_unix_timestamp == t) ≡ true =
                    ground (arith, waits, eq) in
                  let y : Expiring = leave x k (record e { in_by_timestamp = false }) in
                  let ih : (p : Popped y (expire_timestamps clock rest y)) × ((k v : ℕ)
                        → has (v, k) p.last.membership.by_timestamp ≡ true
                        → clock.unix_timestamp < v)
                      × (p.last.membership.by_epoch ≡ y.membership.by_epoch) =
                    expire_timestamps-Popped rest (leave x k (record e { in_by_timestamp = false }))
                      (leave_by_timestamp-Indexed pinned clock x t k rest e eq waits' (due k e eq)
                        h)
                      (leave_by_timestamp-IsDue pinned clock x k e (ground (arith, waits'))
                        (ground (arith, waits', passed)) (due k e eq) due) in
                  (
                    record {
                      last = ih.0.last;
                      runs = rw (passed, eq) ih.0.runs;
                      indexed = ih.0.indexed;
                      due = ih.0.due;
                      same_clock = ih.0.same_clock;
                    },
                    ih.1,
                    ih.2,
                  )
            ]
      ]

  -- What `expire` leaves: it returns, and every entry stands as the clock says.
  pub record Expired (x : Expiring) : Type 0 where
    pub last : Expiring
    pub runs : expire x ≡ some last
    pub indexed : Indexed pinned last.accounts last.membership
    pub settled : Each (IsSettled clock) last.accounts
    pub clock_set : last.membership.clock ≡ some clock

  pub expire-Expired :
      (x : Expiring)
      → x.membership.clock ≡ some clock
      → Indexed pinned x.accounts x.membership
      → Each (IsDue clock) x.accounts
      → Expired x
  unfolding expire
  expire-Expired x at h due =
      let e : (p : Popped x (expire_epochs clock x.membership.by_epoch x)) × ((k v : ℕ)
            → has (v, k) p.last.membership.by_epoch ≡ true
            → clock.epoch < v) =
        expire_epochs-Popped x.membership.by_epoch x h due in
      let y : Expiring = e.0.last in
      let t : (p : Popped y (expire_timestamps clock y.membership.by_timestamp y)) × ((k v : ℕ)
            → has (v, k) p.last.membership.by_timestamp ≡ true
            → clock.unix_timestamp < v)
          × (p.last.membership.by_epoch ≡ y.membership.by_epoch) =
        expire_timestamps-Popped y.membership.by_timestamp y e.0.indexed e.0.due in
      record {
        last = t.0.last;
        runs =
            ap
              (λ o. o >>= λ c. expire_epochs c x.membership.by_epoch x >>= λ x'.
                expire_timestamps c x'.membership.by_timestamp x')
              at
            ∙ ap (λ o. o >>= λ x'. expire_timestamps clock x'.membership.by_timestamp x') e.0.runs
            ∙ t.0.runs;
        indexed = t.0.indexed;
        settled = λ k d eq.
            IsDue-IsSettled clock d (t.0.due k d eq)
              (λ w. e.1 k d.lockup_epoch (
                ap (has (d.lockup_epoch, k)) (sym t.2)
                ∙ t.0.indexed.epochs k d.lockup_epoch
                ∙ ground (arith, eq, w)))
              (λ w.
                t.1 k d.lockup_unix_timestamp
                  (t.0.indexed.timestamps k d.lockup_unix_timestamp ∙ ground (arith, eq, w)));
        clock_set = t.0.same_clock ∙ e.0.same_clock ∙ at;
      }
