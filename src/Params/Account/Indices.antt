-- ===== src/Params/Account/Indices.antt =====
-- Which account an account number stands for (`parse_account_parameter`).
use zallet.Prelude.{
  ℕ, true, false, ◌||◌, List, [], ◌∷◌, length, Option, none, some, ok, Eq, contains, insert,
  contains-insert, if◌then◌else◌, ltb, ◌==◌, ==_iff, Bool-cases, Option-cases, ◌<◌, ◌≡◌, ◌↔◌, inl,
  inr, refl, arith, sym, ◌∙◌,
}
use zallet.Params.Account.{
  number, zcash_legacy_account, Derivation, Found, Accounts, Formats, consider, find_account,
  account_at, parse_account_parameter,
}

module _ {AccountUuid SeedFingerprint : Type 0} ⦃e : Eq SeedFingerprint⦄ where
  -- The seeds of the accounts that are derived from a seed that is not a legacy one, account by account.
  abbrev pub seeds_of :
      List SeedFingerprint
      → (AccountUuid → Option (Derivation SeedFingerprint))
      → List AccountUuid
      → List SeedFingerprint
  seeds_of legacy derivation [] = []
  seeds_of legacy derivation (a ∷ accounts) =
      let more = seeds_of legacy derivation accounts in
      elim (derivation a) [
        | none ↦ more
        | some d ↦ if contains legacy d.seed_fp then more else d.seed_fp ∷ more
      ]

  -- The last of these accounts that has the index.
  abbrev pub last_with :
      List SeedFingerprint
      → (AccountUuid → Option (Derivation SeedFingerprint))
      → ℕ
      → List AccountUuid
      → Option AccountUuid
  last_with legacy derivation index [] = none
  last_with legacy derivation index (a ∷ accounts) =
      let later = last_with legacy derivation index accounts in
      elim later [
        | some b ↦ some b
        | none ↦ elim (derivation a) [
          | none ↦ none
          | some d ↦
              if contains legacy d.seed_fp
              then none
              else if d.account_index == index
              then some a
              else none
        ]
      ]

module _ {SeedFingerprint : Type 0} ⦃e : Eq SeedFingerprint⦄ where
  -- All are the same, and there is one.
  abbrev pub IsSingle : List SeedFingerprint → Type 0
  IsSingle seeds =
      (seed : SeedFingerprint) × (contains seeds seed ≡ true)
      × ((other : SeedFingerprint) → contains seeds other ≡ true → other ≡ seed)

  -- No repetitions.
  abbrev NoDup : List SeedFingerprint → Type 0
  NoDup [] = Unit {0}
  NoDup (x ∷ xs) = (contains xs x ≡ false) × NoDup xs

  NoDup-insert : (x : SeedFingerprint) (xs : List SeedFingerprint) → NoDup xs → NoDup (insert x xs)
  unfolding insert
  NoDup-insert x xs h = elim (Bool-cases (contains xs x)) [
    | inl c ↦ rw (c, insert) h
    | inr c ↦ rw (c, insert) (c, h)
  ]

  NoDup-IsSingle : (xs : List SeedFingerprint) → NoDup xs → (length xs ≡ 1) ↔ IsSingle xs
  unfolding contains
  NoDup-IsSingle [] h = (λ l. absurd (omega (arith, l)), λ (s, c, u). cc c)
  NoDup-IsSingle (x ∷ []) h =
      (λ l. (x, ground (arith, e.beq_iff x x), λ o c. ground (arith, c, e.beq_iff x o)), λ s. refl)
  NoDup-IsSingle (x ∷ y ∷ xs) (h, rest) =
      (λ l. absurd (omega (arith, l)), λ (s, c, u). two x y xs h s u)
    where
      two :
          (x y : SeedFingerprint) (xs : List SeedFingerprint)
          → contains (y ∷ xs) x ≡ false
          → (s : SeedFingerprint)
          → ((other : SeedFingerprint) → contains (x ∷ y ∷ xs) other ≡ true → other ≡ s)
          → length (x ∷ y ∷ xs) ≡ 1
      two x y xs h s u =
          let p : x ≡ s = u x (ground (arith, e.beq_iff x x)) in
          let q : y ≡ s = u y (ground (arith, e.beq_iff y y)) in
          absurd (ground (arith, h, p, q, e.beq_iff y x))

  IsSingle-contains :
      (xs ys : List SeedFingerprint)
      → ((x : SeedFingerprint) → contains xs x ≡ contains ys x)
      → IsSingle xs ↔ IsSingle ys
  IsSingle-contains xs ys h = (
    λ (s, c, u). (s, sym (h s) ∙ c, λ o d. u o (h o ∙ d)),
    λ (s, c, u). (s, h s ∙ c, λ o d. u o (sym (h o) ∙ d)),
  )

module _ {AccountUuid SeedFingerprint : Type 0} ⦃e : Eq SeedFingerprint⦄
    (legacy : List SeedFingerprint) (derivation : AccountUuid → Option (Derivation SeedFingerprint))
    (index : ℕ) where
  -- What the loop leaves, of what it began with and the accounts.
  record Finds (accounts : List AccountUuid) (before after : Found AccountUuid SeedFingerprint)
      : Type 0 where
    no_dup : NoDup after.distinct_seeds
    members :
        (x : SeedFingerprint)
        → contains after.distinct_seeds x
          ≡ (contains (seeds_of legacy derivation accounts) x || contains before.distinct_seeds x)
    last : after.account_id ≡ elim (last_with legacy derivation index accounts) [
      | none ↦ before.account_id
      | some b ↦ some b
    ]

  consider-NoDup :
      (a : AccountUuid) (before : Found AccountUuid SeedFingerprint)
      → NoDup before.distinct_seeds
      → NoDup (consider legacy index a (derivation a) before).distinct_seeds
  unfolding consider
  consider-NoDup a before n = elim (Option-cases (derivation a)) [
    | inl p ↦ rw (p, consider) n
    | inr (d, p) ↦ elim (Bool-cases (contains legacy d.seed_fp)) [
      | inl c ↦ rw (p, consider, c) n
      | inr c ↦ rw (p, consider, c) (NoDup-insert d.seed_fp before.distinct_seeds n)
    ]
  ]

  Finds-cons :
      (a : AccountUuid) (more : List AccountUuid) (before after : Found AccountUuid SeedFingerprint)
      → Finds more (consider legacy index a (derivation a) before) after
      → Finds (a ∷ more) before after
  unfolding consider contains
  Finds-cons a more before after f = record {
    no_dup = f.no_dup;
    members = λ x. elim (Option-cases (derivation a)) [
      | inl p ↦ ground (arith, f.members x, p)
      | inr (d, p) ↦
          ground (arith, f.members x, p, contains-insert d.seed_fp x before.distinct_seeds)
    ];
    last = ground (arith, f.last);
  }

  module _ (db : Accounts AccountUuid SeedFingerprint) (formats : Formats AccountUuid) where
    find_account-Finds :
        (accounts : List AccountUuid) (before : Found AccountUuid SeedFingerprint)
        → ((a : AccountUuid) → db.get_account a ≡ ok (some (derivation a)))
        → NoDup before.distinct_seeds
        → (after : Found AccountUuid SeedFingerprint) × (find_account formats db legacy index
              accounts before
            ≡ ok after)
          × Finds accounts before after
    unfolding find_account contains
    find_account-Finds [] before there n =
        (before, refl, record { no_dup = n; members = λ x. refl; last = refl })
    find_account-Finds (a ∷ more) before there n =
        let (after, e, f) =
          find_account-Finds more (consider legacy index a (derivation a) before) there
            (consider-NoDup a before n) in
        (after, rw (there a) e, Finds-cons a more before after f)

    -- What `account_at` does with what the loop found.
    account_at_lem :
        (accounts : List AccountUuid) (after : Found AccountUuid SeedFingerprint) (id : AccountUuid)
        → db.list_legacy_seed_fingerprints ≡ ok legacy
        → db.get_account_ids ≡ ok accounts
        → find_account formats db legacy index accounts
            (record { distinct_seeds = []; account_id = none })
          ≡ ok after
        → (account_at formats db index ≡ ok id)
          ↔ ((length after.distinct_seeds ≡ 1) × (after.account_id ≡ some id))
    unfolding account_at
    account_at_lem accounts after id l a f =
        ground (arith, l, a, f, ==_iff (length after.distinct_seeds) 1)

    -- In a wallet whose accounts can all be looked up, a number stands for an account exactly if it is below the
    -- limit, the accounts that are derived from seeds other than the legacy ones have one seed in all, and
    -- the account is the last of them with that index.
    pub parse_account_parameter_iff :
        (accounts : List AccountUuid) (id : AccountUuid)
        → db.list_legacy_seed_fingerprints ≡ ok legacy
        → db.get_account_ids ≡ ok accounts
        → ((a : AccountUuid) → db.get_account a ≡ ok (some (derivation a)))
        → (parse_account_parameter formats db (number (some index)) ≡ ok id) ↔ (
            (index < zcash_legacy_account)
            × IsSingle (seeds_of legacy derivation accounts)
            × (last_with legacy derivation index accounts ≡ some id))
    unfolding parse_account_parameter contains
    parse_account_parameter_iff accounts id l a there =
        let (after, f, finds) =
          find_account-Finds accounts (record { distinct_seeds = []; account_id = none }) there
            tt in
        let lookup = account_at_lem accounts after id l a f in
        let single = NoDup-IsSingle after.distinct_seeds finds.no_dup in
        let same =
          IsSingle-contains after.distinct_seeds (seeds_of legacy derivation accounts)
            (λ x. ground (arith, finds.members x)) in
        elim (Bool-cases (ltb index zcash_legacy_account)) [
          | inl b ↦ (
            λ h.
                let (one, found) = lookup.0 (ground (arith, h, b)) in
                (ground (arith, b), same.0 (single.0 one), ground (arith, finds.last, found)),
            λ (below, s, last).
                let result = lookup.1 (single.1 (same.1 s), ground (arith, finds.last, last)) in
                ground (arith, result, b),
          )
          | inr b ↦ (
            λ h. absurd (ground (arith, h, b)),
            λ (below, s, last). absurd (ground (arith, below, b)),
          )
        ]
