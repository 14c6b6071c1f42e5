-- ===== src/Mint/Api/Confirmed.antt =====
-- What a confirmed slot leaves behind.
use cloudbreak.Prelude.{
  ℕ, ◌<◌, ◌≡◌, refl, ap, ◌⊎◌, inl, inr, String, Bool, true, false, Option, none, some, lt→ltb,
  is_some, Bool-cases,
}
use cloudbreak.Mint.Api.{
  Applied, Cache, live_table, is_loading, request_reload, health, restored, chained, on_confirmed,
}
use cloudbreak.Mint.Api.Buffer.{IsBackward}
use cloudbreak.Mint.Api.Chain.{apply_chain_total}

-- The cache is at the slot, or a reload is asked for.
abbrev pub IsCovered : ℕ → Cache → Type 0
IsCovered slot c = (c.applied.slot ≡ slot) ⊎ (is_some c.pending ≡ true)

restored-IsCovered :
    (c : Cache) (slot at : ℕ) (since : Option ℕ)
    → IsCovered at c
    → IsCovered at (restored c slot since)
unfolding restored request_reload
restored-IsCovered c slot at none h = h
restored-IsCovered c slot at (some since) h = inr refl

-- A live cache whose buffered blocks are above their parents takes any confirmed slot after the applied
-- one without a panic, and is then at that slot, or a reload is pending.
pub on_confirmed-IsCovered :
    (c : Cache) (slot : ℕ) (blockhash : String) (healthy : Bool)
    → IsBackward c.buffer
    → c.status ≡ live_table
    → c.applied.slot < slot
    → (after : Cache) × (on_confirmed c slot blockhash healthy ≡ some after) × IsCovered slot after
unfolding on_confirmed chained request_reload
on_confirmed-IsCovered c slot blockhash healthy h ready lt =
    let confirmed : Applied = record { slot = slot; blockhash = blockhash } in
    let h' = health healthy c.unhealthy_since c.applied.slot in
    let running : is_loading c.status ≡ false = ap is_loading ready in
    let c' : Cache = record c { unhealthy_since = h'.0 } in
    elim (Bool-cases (is_some c.pending)) [
      | inl waiting ↦ (
        restored c' slot h'.1,
        simp (running, waiting, lt→ltb c.applied.slot slot lt) refl,
        restored-IsCovered c' slot slot h'.1 (inr waiting),
      )
      | inr free ↦ elim (apply_chain_total c' confirmed h) [
        | inl kept ↦
            let missed = chained c.applied slot (false, c') in
            (
              restored missed slot h'.1,
              simp (running, free, lt→ltb c.applied.slot slot lt, kept) refl,
              restored-IsCovered missed slot slot h'.1 (inr refl),
            )
        | inr (links, walked, a) ↦ (
          restored a.after slot h'.1,
          simp (running, free, lt→ltb c.applied.slot slot lt, a.advanced) refl,
          restored-IsCovered a.after slot slot h'.1 (inl (ap (λ (x : Applied). x.slot) a.applied)),
        )
      ]
    ]
