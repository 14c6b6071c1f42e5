-- ===== src/NonCirculating/Changes.antt =====
-- One entry of the map changes, and with it the sets, the members and the total.
use cloudbreak.Prelude.{
  ℕ, ◌+◌, ◌%◌, ◌≡◌, refl, ◌∙◌, Bool, true, false, not, ◌&&◌, ◌||◌, none, some, List, arith, ◌==◌,
  if◌then◌else◌, is_some, ap,
}
use mathlib.Core.Path.{subst}
use cloudbreak.OrdMap.{OrdMap, get, insert, remove, insert-IsSorted, get-insert, get-remove}
use cloudbreak.PairSet
use cloudbreak.PairSet.{
  PairSet, has, has-insert, has-remove, IsAscending, insert-IsAscending, remove-IsAscending,
}
use cloudbreak.NonCirculating.{
  StakeEntry, Membership, u128_mod, add128, sub128, unplace, with_placed,
}
use cloudbreak.NonCirculating.Indexed.{
  share, members_total, waits_epoch, waits_timestamp, belongs, Indexed, members_total-insert,
  add128-lem,
}

abbrev pub put : Bool → ℕ → ℕ → PairSet → PairSet
put b a k s = if b then PairSet.insert (a, k) s else s

abbrev pub drop_pair : Bool → ℕ → ℕ → PairSet → PairSet
drop_pair b a k s = if b then PairSet.remove (a, k) s else s

has-drop_pair :
    (b : Bool) (a k q v : ℕ) (s : PairSet)
    → (has (v, k) s ≡ (b && a == v))
    → has (v, q) (drop_pair b a k s) ≡ (not (k == q) && has (v, q) s)
has-drop_pair b a k q v s h = ground (arith, has-remove a k v q s)

pub has-put :
    (b : Bool) (a k q v : ℕ) (s : PairSet)
    → has (v, q) (put b a k s) ≡ (k == q && b && a == v || has (v, q) s)
has-put b a k q v s = ground (arith, has-insert a k v q s)

-- The pairs of key `k` become the one that the flag asks for.
has-moved :
    (b b' : Bool) (a a' k q v : ℕ) (s : PairSet)
    → (has (v, k) s ≡ (b && a == v))
    → has (v, q) (put b' a' k (drop_pair b a k s))
      ≡ (if k == q then b' && a' == v else has (v, q) s)
has-moved b b' a a' k q v s h =
    ground (arith, has-put b' a' k q v (drop_pair b a k s), has-drop_pair b a k q v s h)

pub put-IsAscending : (b : Bool) (a k : ℕ) (s : PairSet) → IsAscending s → IsAscending (put b a k s)
put-IsAscending true a k s h = insert-IsAscending a k s h
put-IsAscending false a k s h = h

drop_pair-IsAscending :
    (b : Bool) (a k : ℕ) (s : PairSet) → IsAscending s → IsAscending (drop_pair b a k s)
drop_pair-IsAscending true a k s h = remove-IsAscending a k s h
drop_pair-IsAscending false a k s h = h

waits_epoch-insert :
    (k q v : ℕ) (e : StakeEntry) (accounts : OrdMap StakeEntry)
    → waits_epoch (get q (insert k e accounts)) v
      ≡ (if k == q then e.in_by_epoch && e.lockup_epoch == v else waits_epoch (get q accounts) v)
waits_epoch-insert k q v e accounts = ground (arith, get-insert k q e accounts)

waits_timestamp-insert :
    (k q v : ℕ) (e : StakeEntry) (accounts : OrdMap StakeEntry)
    → waits_timestamp (get q (insert k e accounts)) v ≡ (
        if k == q
        then e.in_by_timestamp && e.lockup_unix_timestamp == v
        else waits_timestamp (get q accounts) v)
waits_timestamp-insert k q v e accounts = ground (arith, get-insert k q e accounts)

belongs-insert :
    (pinned : List ℕ) (k q : ℕ) (e : StakeEntry) (accounts : OrdMap StakeEntry)
    → belongs pinned q (get q (insert k e accounts))
      ≡ (if k == q then e.member else belongs pinned q (get q accounts))
belongs-insert pinned k q e accounts = ground (arith, get-insert k q e accounts)

pub is_some-membered :
    (b : Bool) (k q : ℕ) (members : OrdMap (Unit {0}))
    → is_some (get q (if b then insert k tt members else remove k members))
      ≡ (if k == q then b else is_some (get q members))
is_some-membered b k q members = ground (arith, get-insert k q tt members, get-remove k q members)

if-ap :
    (b x y z : Bool) → x ≡ (if b then y else z) → (z' : Bool) → z ≡ z' → x ≡ (if b then y else z')
if-ap b x y z h z' e = ground (arith, h, e)

total-placed :
    (b : Bool) (total s l : ℕ)
    → total ≡ s % u128_mod
    → (if b then add128 total l else total) ≡ (s + (if b then l else 0)) % u128_mod
total-placed b total s l h = ground (arith, add128-lem total s (s + l) l h refl)

pub total-moved :
    (b b' : Bool) (total s s' l l' : ℕ)
    → total ≡ s % u128_mod
    → s' + (if b then l else 0) ≡ s + (if b' then l' else 0)
    → (if b'
        then add128 (if b then sub128 total l else total) l'
        else (if b then sub128 total l else total))
      ≡ s' % u128_mod
total-moved true true total s s' l l' h e = omega arith
total-moved true false total s s' l l' h e = omega arith
total-moved false true total s s' l l' h e = omega arith
total-moved false false total s s' l l' h e = omega arith

-- An entry that was not in the map is placed.
pub with_placed-Indexed :
    (pinned : List ℕ) (k : ℕ) (e : StakeEntry) (accounts : OrdMap StakeEntry) (m : Membership)
    → get k accounts ≡ none
    → Indexed pinned accounts m
    → Indexed pinned (insert k e accounts) (with_placed m k e)
unfolding with_placed
with_placed-Indexed pinned k e accounts m eq h = record {
  sorted = insert-IsSorted k e accounts h.sorted;
  summed =
      total-placed e.member m.total (members_total accounts) e.lamports h.summed
      ∙ ap (λ n. n % u128_mod) (ground (arith, members_total-insert k e accounts h.sorted, eq));
  epochs = λ q v. ground (
    arith,
    has-put e.in_by_epoch e.lockup_epoch k q v m.by_epoch,
    waits_epoch-insert k q v e accounts,
    h.epochs q v,
    eq,
  );
  timestamps = λ q v. ground (
    arith,
    has-put e.in_by_timestamp e.lockup_unix_timestamp k q v m.by_timestamp,
    waits_timestamp-insert k q v e accounts,
    h.timestamps q v,
    eq,
  );
  epochs_ascend = put-IsAscending e.in_by_epoch e.lockup_epoch k m.by_epoch h.epochs_ascend;
  timestamps_ascend =
      put-IsAscending e.in_by_timestamp e.lockup_unix_timestamp k m.by_timestamp
        h.timestamps_ascend;
  joined = λ q. ground (
    arith,
    is_some-membered e.member k q m.members,
    belongs-insert pinned k q e accounts,
    h.joined q,
  );
}

-- The conditions under which an entry changes and the membership with it.
pub reindex :
    (pinned : List ℕ) (k : ℕ) (old e : StakeEntry) (accounts : OrdMap StakeEntry)
    (m m' : Membership)
    → get k accounts ≡ some old
    → ((s s' : ℕ)
        → m.total ≡ s % u128_mod
        → s' + share (some old) ≡ s + share (some e)
        → m'.total ≡ s' % u128_mod)
    → ((q v : ℕ)
        → has (v, q) m'.by_epoch
          ≡ (if k == q then e.in_by_epoch && e.lockup_epoch == v else has (v, q) m.by_epoch))
    → ((q v : ℕ)
        → has (v, q) m'.by_timestamp ≡ (
            if k == q
            then e.in_by_timestamp && e.lockup_unix_timestamp == v
            else has (v, q) m.by_timestamp))
    → IsAscending m'.by_epoch × IsAscending m'.by_timestamp
    → ((q : ℕ)
        → is_some (get q m'.members) ≡ (if k == q then e.member else is_some (get q m.members)))
    → Indexed pinned accounts m
    → Indexed pinned (insert k e accounts) m'
reindex pinned k old e accounts m m' eq total epochs timestamps ascend joined h = record {
  sorted = insert-IsSorted k e accounts h.sorted;
  summed = total (members_total accounts) (members_total (insert k e accounts)) h.summed (
      subst
        (λ o.
          members_total (insert k e accounts) + share o ≡ members_total accounts + share (some e))
        eq (members_total-insert k e accounts h.sorted));
  epochs = λ q v. epochs q v ∙ ground (arith, h.epochs q v, waits_epoch-insert k q v e accounts);
  timestamps = λ q v.
      timestamps q v ∙ ground (arith, h.timestamps q v, waits_timestamp-insert k q v e accounts);
  epochs_ascend = ascend.0;
  timestamps_ascend = ascend.1;
  joined = λ q. joined q ∙ ground (arith, h.joined q, belongs-insert pinned k q e accounts);
}

-- An entry takes the place of the one that its key had.
pub unplace-Indexed :
    (pinned : List ℕ) (k : ℕ) (old e : StakeEntry) (accounts : OrdMap StakeEntry) (m : Membership)
    → get k accounts ≡ some old
    → Indexed pinned accounts m
    → Indexed pinned (insert k e accounts) (with_placed (unplace m k old) k e)
unfolding with_placed unplace
unplace-Indexed pinned k old e accounts m eq h =
    reindex pinned k old e accounts m (with_placed (unplace m k old) k e) eq
      (λ s s'. total-moved old.member e.member m.total s s' old.lamports e.lamports)
      (λ q v.
        has-moved old.in_by_epoch e.in_by_epoch old.lockup_epoch e.lockup_epoch k q v m.by_epoch
          (h.epochs k v ∙ ap (λ o. waits_epoch o v) eq))
      (λ q v.
        has-moved old.in_by_timestamp e.in_by_timestamp old.lockup_unix_timestamp
          e.lockup_unix_timestamp k q v m.by_timestamp
          (h.timestamps k v ∙ ap (λ o. waits_timestamp o v) eq))
      (
        put-IsAscending e.in_by_epoch e.lockup_epoch k
            (drop_pair old.in_by_epoch old.lockup_epoch k m.by_epoch)
            (drop_pair-IsAscending old.in_by_epoch old.lockup_epoch k m.by_epoch h.epochs_ascend),
        put-IsAscending e.in_by_timestamp e.lockup_unix_timestamp k
            (drop_pair old.in_by_timestamp old.lockup_unix_timestamp k m.by_timestamp)
            (drop_pair-IsAscending old.in_by_timestamp old.lockup_unix_timestamp k m.by_timestamp
              h.timestamps_ascend),
      )
      (λ q. is_some-membered e.member k q m.members) h
