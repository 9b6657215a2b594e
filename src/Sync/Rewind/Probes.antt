-- ===== src/Sync/Rewind/Probes.antt =====
-- The walk back ends, at the highest block of the wallet, among those probed, that is on the best chain.
use mathlib.Core.Path.{subst}
use zallet.Prelude.{
  ℕ, suc, zero, ◌-◌, ◌*◌, ◌≤◌, ◌<◌, max, true, false, Option, none, some, Result, ok, err, Eq, ◌≡◌,
  refl, arith, inl, inr, sym, ◌∙◌, ap, leb, ◌⊎◌, Bool-cases, Option-cases,
}
use zallet.Sync.{BlockHeight, ChainBlock, ChainError, SyncError, wallet_diverged_below_birthday}
use zallet.Sync.Rewind.{rewind_step, probe, step_back_to_best_chain, fork_search_step}

-- The height of the i-th probe, counted from 1.
abbrev pub probe_height : BlockHeight → BlockHeight → ℕ → BlockHeight
probe_height start birthday i = max (start - fork_search_step * i) birthday

module _ {BlockHash : Type 0} (best : BlockHeight → Option BlockHash)
    (recorded : BlockHeight → Option BlockHash) where
  -- The wallet has a block at the height, and it is on the best chain.
  abbrev pub Shared : BlockHeight → BlockHash → Type 0
  Shared height hash = (recorded height ≡ some hash) × (best height ≡ some hash)

  abbrev pub Unshared : BlockHeight → Type 0
  Unshared height = (hash : BlockHash) → Shared height hash → ⊥

  -- What the walk from a height may return.
  abbrev pub WalksTo : BlockHeight → BlockHeight → Result SyncError (ChainBlock BlockHash) → Type 0
  WalksTo birthday start (ok block) =
      (i : ℕ) × (1 ≤ i)
      × (block.height ≡ probe_height start birthday i)
      × Shared block.height block.hash
      × ((j : ℕ) → 1 ≤ j → j < i → Unshared (probe_height start birthday j))
  WalksTo birthday start (err error) =
      (error ≡ wallet_diverged_below_birthday birthday)
      × ((j : ℕ) → 1 ≤ j → Unshared (probe_height start birthday j))

module _ {BlockHash : Type 0} ⦃e : Eq BlockHash⦄
    (get_block_header : BlockHeight → Result ChainError (Option BlockHash))
    (wallet_hash : BlockHeight → Result SyncError (Option BlockHash))
    (best : BlockHeight → Option BlockHash) (recorded : BlockHeight → Option BlockHash)
    -- The chain view and the wallet's database answer.
    (served : (height : BlockHeight) → get_block_header height ≡ ok (best height))
    (readable : (height : BlockHeight) → wallet_hash height ≡ ok (recorded height))
    (birthday : BlockHeight) where
  probe_cases :
      (height : BlockHeight)
      → ((hash : BlockHash) × (probe get_block_header wallet_hash height
            ≡ ok (some (record { height = height; hash = hash })))
          × Shared best recorded height hash)
        ⊎ ((probe get_block_header wallet_hash height ≡ ok none) × Unshared best recorded height)
  unfolding probe
  probe_cases height = elim (Option-cases (recorded height)) [
    | inl a ↦ inr (rw (readable height, a) refl, λ hash s. cc (s.0, a))
    | inr (wh, a) ↦ elim (Option-cases (best height)) [
      | inl b ↦ inr (rw (readable height, a) (rw (served height, b) refl), λ hash s. cc (s.1, b))
      | inr (bh, b) ↦ elim (Bool-cases (e.beq bh wh)) [
        | inl same ↦ inl (
          wh,
          rw (readable height, a) (rw (served height, b) (rw same refl)),
          (a, b ∙ ap some ((e.beq_iff bh wh).0 same)),
        )
        | inr differ ↦ inr (
          rw (readable height, a) (rw (served height, b) (rw differ refl)),
          λ hash s. differs wh bh hash differ a b s,
        )
      ]
    ]
  ]
    where
      differs :
          (wh bh hash : BlockHash)
          → e.beq bh wh ≡ false
          → recorded height ≡ some wh
          → best height ≡ some bh
          → Shared best recorded height hash
          → ⊥
      differs wh bh hash differ a b (r, s) =
          let same : bh ≡ wh = cc (a, b, r, s) in cc ((e.beq_iff bh wh).1 same, differ)

  -- The probes from the next height are those from this one, but for the first.
  later_probe :
      (height : BlockHeight) (j : ℕ)
      → leb (probe_height height birthday 1) birthday ≡ false
      → probe_height (probe_height height birthday 1) birthday j
        ≡ probe_height height birthday (suc j)
  later_probe height j above = ground arith

  later-Unshared :
      (height : BlockHeight)
      → leb (probe_height height birthday 1) birthday ≡ false
      → Unshared best recorded (probe_height height birthday 1)
      → (bound : ℕ → Type 0)
      → ((j : ℕ)
          → 1 ≤ j
          → bound j
          → Unshared best recorded (probe_height (probe_height height birthday 1) birthday j))
      → (j : ℕ) → 1 ≤ j
      → ((i : ℕ) → j ≡ suc i → bound i)
      → Unshared best recorded (probe_height height birthday j)
  later-Unshared height above first bound later zero p within = absurd (omega (arith, p))
  later-Unshared height above first bound later (suc zero) p within = first
  later-Unshared height above first bound later (suc (suc i)) p within = λ hash s.
      later (suc i) (omega arith) (within (suc i) refl) hash
        (subst (λ h. Shared best recorded h hash) (sym (later_probe height (suc i) above)) s)

  walks_on :
      (height : BlockHeight) (r : Result SyncError (ChainBlock BlockHash))
      → leb (probe_height height birthday 1) birthday ≡ false
      → Unshared best recorded (probe_height height birthday 1)
      → WalksTo best recorded birthday (probe_height height birthday 1) r
      → WalksTo best recorded birthday height r
  walks_on height (ok block) above first (i, p, at, shared, before) = (
    suc i,
    omega arith,
    at ∙ later_probe height i above,
    shared,
    λ j q below.
        later-Unshared height above first (λ k. k < i) before j q
          (λ k same. omega (arith, below, same)),
  )
  walks_on height (err error) above first (is, before) = (
    is,
    λ j q.
        later-Unshared height above first (λ k. Unit {0}) (λ k pk _. before k pk) j q
          (λ k same. tt),
  )

  same_floor :
      (height : BlockHeight) (j : ℕ)
      → 1 ≤ j
      → leb (probe_height height birthday 1) birthday ≡ true
      → probe_height height birthday j ≡ probe_height height birthday 1
  same_floor height j p floor = ground arith

  -- If the view and the database answer, fuel above the starting height is enough, and the walk returns
  -- the first of the probed blocks (10, 20, ... below the start, none below the birthday) that the wallet
  -- has and that is on the best chain, or the divergence error if there is none among all the probes.
  pub step_back_to_best_chain_lem :
      (k : ℕ) (height : BlockHeight)
      → height < k
      → (r : Result SyncError (ChainBlock BlockHash)) × (step_back_to_best_chain get_block_header
            wallet_hash birthday k height
          ≡ some r)
        × WalksTo best recorded birthday height r
  unfolding step_back_to_best_chain rewind_step
  step_back_to_best_chain_lem zero height h = absurd (omega (arith, h))
  step_back_to_best_chain_lem (suc k) height h =
      elim (probe_cases (max (height - fork_search_step) birthday)) [
        | inl (hash, found, shared) ↦ (
          ok (record { height = probe_height height birthday 1; hash = hash }),
          rw (found, step_back_to_best_chain) refl,
          (1, omega arith, refl, shared, λ j p q. absurd (omega (arith, p, q))),
        )
        | inr (missed, first) ↦
            elim (Bool-cases (leb (max (height - fork_search_step) birthday) birthday)) [
              | inl floor ↦ (
                err (wallet_diverged_below_birthday birthday),
                rw (missed, step_back_to_best_chain) (rw floor refl),
                (
                  refl,
                  λ j p. subst (Unshared best recorded) (sym (same_floor height j p floor)) first,
                ),
              )
              | inr above ↦
                  let (r, returned, walks) =
                    step_back_to_best_chain_lem k (max (height - fork_search_step) birthday)
                      (ground arith) in
                  (
                    r,
                    rw (missed, step_back_to_best_chain) (rw above returned),
                    walks_on height r above first walks,
                  )
            ]
      ]
