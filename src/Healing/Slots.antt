-- ===== src/Healing/Slots.antt =====
-- Slots in the gaps list or settled.
use cloudbreak.Prelude.{
  ℕ, zero, suc, ◌+◌, ◌-◌, ◌≤◌, ◌<◌, ◌≡◌, true, refl, true, not, ◌&&◌, ◌||◌, List, [], ◌∷◌, ◌++◌,
  arith, ltb, leb, ◌==◌, keep, contains,
}
use cloudbreak.Prelude.Word.{u64_mod, add64}
use cloudbreak.Healing.{slots_from}

pub contains-append :
    (xs ys : List ℕ) (q : ℕ) → contains (xs ++ ys) q ≡ (contains xs q || contains ys q)
contains-append [] ys q = refl
contains-append (x ∷ xs) ys q = ground (arith, contains-append xs ys q)

pub contains-slots_from :
    (first n q : ℕ) → contains (slots_from first n) q ≡ (leb first q && ltb q (first + n))
contains-slots_from first zero q = ground arith
contains-slots_from first (suc n) q = ground (arith, contains-slots_from (suc first) n q)

contains-without :
    (slot : ℕ) (xs : List ℕ) (q : ℕ)
    → contains (keep (λ g. not (g == slot)) xs) q ≡ (contains xs q && not (slot == q))
contains-without slot [] q = refl
contains-without slot (x ∷ xs) q = ground (arith, contains-without slot xs q)

-- The slot waits for repair or is settled.
abbrev pub Accounted : List ℕ → List ℕ → ℕ → Type 0
Accounted gaps settled q = (contains gaps q || contains settled q) ≡ true

pub without-Accounted :
    (slot : ℕ) (gaps settled : List ℕ) (q : ℕ)
    → Accounted gaps settled q
    → Accounted (keep (λ g. not (g == slot)) gaps) (slot ∷ settled) q
without-Accounted slot gaps settled q h = ground (arith, contains-without slot gaps q, h)

pub opened-Accounted :
    (gaps settled : List ℕ) (last slot q : ℕ)
    → last < slot
    → slot < u64_mod
    → (q ≤ last → Accounted gaps settled q)
    → q ≤ slot
    → Accounted (gaps ++ slots_from (add64 last 1) (slot - add64 last 1)) (slot ∷ settled) q
opened-Accounted gaps settled last slot q up small h le =
    let next : add64 last 1 ≡ last + 1 = omega (arith, up, small) in
    ground (
      arith,
      up,
      le,
      next,
      h,
      contains-append gaps (slots_from (add64 last 1) (slot - add64 last 1)) q,
      contains-slots_from (add64 last 1) (slot - add64 last 1) q,
    )

pub next-Accounted :
    (gaps settled : List ℕ) (last slot q : ℕ)
    → slot ≤ add64 last 1
    → last < slot
    → slot < u64_mod
    → (q ≤ last → Accounted gaps settled q)
    → q ≤ slot
    → Accounted gaps (slot ∷ settled) q
next-Accounted gaps settled last slot q next up small h le =
    let exact : slot ≡ last + 1 = omega (arith, next, up, small) in ground (arith, exact, le, h)

pub passed-Accounted :
    (gaps settled : List ℕ) (last slot q : ℕ)
    → last < slot
    → (q ≤ last → Accounted gaps settled q)
    → q ≤ slot
    → Accounted gaps (slot ∷ slots_from (last + 1) (slot - (last + 1)) ++ settled) q
passed-Accounted gaps settled last slot q up h le = ground (
  arith,
  up,
  le,
  h,
  contains-append (slots_from (last + 1) (slot - (last + 1))) settled q,
  contains-slots_from (last + 1) (slot - (last + 1)) q,
)
