-- ===== src/Shielding/Call/Policy.antt =====
-- What a call of z_shieldcoinbase that succeeds sweeps, and what its proposal may reveal.
use zallet.Prelude.{
  String, eq_iff, true, List, [], ◌∷◌, map, Option, none, some, ok, err, ok_or, map_err, Eq,
  bind-ok, ok_injective, ok_or-ok, map_err-ok, ◌≡◌, inl, inr, ap, ◌∙◌, arith, Option-cases,
  Result-cases,
}
use zallet.Payments.{Zip321, optional_memo}
use zallet.Privacy.{PrivacyPolicy}
use zallet.Privacy.Lattice.{Leak, amounts, recipients, senders, linked_addresses, permits}
use zallet.Privacy.Proposal.{enforce_privacy_policy}
use zallet.Privacy.Proposal.Leaks.{any_reveals}
use zallet.Privacy.Proposal.Enforce.{enforce_iff}
use zallet.Shielding.{
  FromAddressInput, account_uuid, transparent_address, parse_fromaddress, parse_privacy_policy,
  privacy_step,
}
use zallet.Shielding.Accounting.{Amounts, preflight}
use zallet.Shielding.Keys.{key_error, collect_standalone_transparent_keys}
use zallet.Shielding.Call.{
  Proposal, Texts, Wallet, Keys, Parameters, Prepared, Started, check_fee,
  resolve_fromaddress_input, check_from_addrs, prepare, conclude, enforced, call,
}

some_injective {ℓ} : {A : Type ℓ} {a b : A} → some a ≡ some b → a ≡ b
some_injective h = cc h

-- The policy was chosen for addresses that may be linked: by name, or as the default for an account.
abbrev pub AllowsLinks : {Uuid A : Type 0} → Option String → FromAddressInput Uuid A → Type 0
AllowsLinks (some policy) _ = policy ≡ "AllowLinkingAccountAddresses"
AllowsLinks none (account_uuid _) = Unit {0}
AllowsLinks none (transparent_address _) = ⊥

-- What a shielding transaction may reveal.
abbrev pub MayReveal : {Uuid A : Type 0} → Option String → FromAddressInput Uuid A → Leak → Type 0
MayReveal policy from amounts = Unit {0}
MayReveal policy from senders = Unit {0}
MayReveal policy from recipients = ⊥
MayReveal policy from linked_addresses = AllowsLinks policy from

policy-MayReveal :
    {Uuid A : Type 0} (debug : String → String) (given : Option String)
    (from : FromAddressInput Uuid A) (policy : PrivacyPolicy) (l : Leak)
    → parse_privacy_policy debug given from ≡ ok policy
    → permits policy l ≡ true
    → MayReveal given from l
unfolding parse_privacy_policy permits
policy-MayReveal debug given from policy amounts h p = tt
policy-MayReveal debug given from policy senders h p = tt
policy-MayReveal debug none (account_uuid u) policy recipients h p = ground arith
policy-MayReveal debug none (transparent_address u) policy recipients h p = ground arith
policy-MayReveal debug (some s) from policy recipients h p =
    ground (arith, eq_iff s "AllowRevealedSenders", eq_iff s "AllowLinkingAccountAddresses")
policy-MayReveal debug none (account_uuid u) policy linked_addresses h p = tt
policy-MayReveal debug none (transparent_address u) policy linked_addresses h p = ground arith
policy-MayReveal debug (some s) from policy linked_addresses h p =
    ground (arith, eq_iff s "AllowRevealedSenders", eq_iff s "AllowLinkingAccountAddresses")

module _ {Uuid A Z Destination Memo : Type 0} (texts : Texts Uuid A)
    (wallet_db : Wallet Uuid A Z Destination Memo) where
  -- The addresses come from one account: all its receivers, or the one address that is given and its.
  abbrev pub IsSource : FromAddressInput Uuid A → Uuid → List A → Type 0
  IsSource (account_uuid uuid) account_id from_addrs =
      (uuid ≡ account_id) × (wallet_db.get_transparent_receivers uuid ≡ ok from_addrs)
  IsSource (transparent_address addr) account_id from_addrs =
      (wallet_db.find_account_for_address addr ≡ ok (some account_id)) × (from_addrs ≡ addr ∷ [])

  resolved-IsSource :
      (from : FromAddressInput Uuid A) (account_id : Uuid) (from_addrs : List A)
      → resolve_fromaddress_input texts wallet_db from ≡ ok (account_id, from_addrs)
      → IsSource from account_id from_addrs
  unfolding resolve_fromaddress_input
  resolved-IsSource (account_uuid uuid) account_id from_addrs h = ground arith
  resolved-IsSource (transparent_address addr) account_id from_addrs h = ground arith

  module _ {JsonZec SecretKey Usk : Type 0} ⦃e : Eq A⦄ (amounts_ops : Amounts Z)
      (value_from_zatoshis : Z → JsonZec) (keys : Keys A SecretKey Usk) (p : Parameters)
      (prepared : Prepared Uuid A Z) (started : Started A Z JsonZec SecretKey Usk) where
    conclude-proposal :
        conclude texts wallet_db amounts_ops value_from_zatoshis keys p prepared ≡ ok started
        → prepared.proposal ≡ started.proposal
    unfolding conclude
    conclude-proposal h =
        let (numbers, _, h1) =
          bind-ok
            (preflight amounts_ops
              (wallet_db.get_spendable_transparent_outputs prepared.proposal.min_target_height)
              value_from_zatoshis prepared.proposal.steps prepared.from_addrs)
            _ _ h in
        let (derivation, _, h2) = bind-ok (ok_or prepared.key_derivation _) _ _ h1 in
        let (seed, _, h3) =
          bind-ok (map_err key_error (keys.decrypt_seed derivation.seed_fingerprint)) _ _ h2 in
        let (usk, _, h4) =
          bind-ok (map_err _ (keys.from_seed seed derivation.account_index)) _ _ h3 in
        let (standalone_keys, _, h5) =
          bind-ok
            (collect_standalone_transparent_keys
              (wallet_db.sources_of_receivers prepared.account_id)
              keys.decrypt_standalone_transparent_key prepared.proposal.steps)
            _ _ h4 in
        ap (λ (s : Started A Z JsonZec SecretKey Usk). s.proposal) (ok_injective _ started h5)

    enforced-ok :
        enforced texts wallet_db amounts_ops value_from_zatoshis keys p prepared ≡ some (ok started)
        → (enforce_privacy_policy (map privacy_step prepared.proposal.steps) prepared.policy
            ≡ some (ok tt))
          × (prepared.proposal ≡ started.proposal)
    unfolding enforced
    enforced-ok h =
        elim (Option-cases
          (enforce_privacy_policy (map privacy_step prepared.proposal.steps) prepared.policy)) [
            | inl e ↦ cc (rw (e, enforced) at h)
            | inr (ok tt, e) ↦ (e, conclude-proposal (some_injective (rw (e, enforced) at h)))
            | inr (err x, e) ↦ cc (rw (e, enforced) at h)
          ]

  module _ {HexBytes Payment Request : Type 0} ⦃destinations : Eq Destination⦄
      (z : Zip321 Destination Z HexBytes Memo Payment Request) where
    -- Where the proposal of a call comes from.
    pub record Sweeps (p : Parameters) (proposal : Proposal A Z) : Type 0 where
      pub from : FromAddressInput Uuid A
      pub account_id : Uuid
      pub from_addrs : List A
      pub to_address : Destination
      pub memo : Option Memo
      pub from_parsed :
          parse_fromaddress texts.parse_uuid texts.decode texts.debug p.fromaddress ≡ ok from
      pub to_parsed : z.parse_address p.toaddress ≡ some to_address
      pub memo_parsed : optional_memo z p.memo ≡ ok memo
      pub source : IsSource from account_id from_addrs
      pub proposed :
          wallet_db.propose_shielding_coinbase from_addrs to_address memo p.limit ≡ ok proposal

    prepare-Sweeps :
        (p : Parameters) (prepared : Prepared Uuid A Z)
        → prepare texts wallet_db z p ≡ ok prepared
        → (s : Sweeps p prepared.proposal) × (parse_privacy_policy texts.debug p.privacy_policy
              s.from
            ≡ ok prepared.policy)
    unfolding prepare
    prepare-Sweeps p prepared h =
        let (_, _, h1) = bind-ok (check_fee p.fee) _ _ h in
        let (to_address, to_parsed, h2) = bind-ok (ok_or (z.parse_address p.toaddress) _) _ _ h1 in
        let (memo, memo_parsed, h3) = bind-ok (optional_memo z p.memo) _ _ h2 in
        let (from, from_parsed, h4) =
          bind-ok (parse_fromaddress texts.parse_uuid texts.decode texts.debug p.fromaddress) _ _
            h3 in
        let (policy, policy_parsed, h5) =
          bind-ok (parse_privacy_policy texts.debug p.privacy_policy from) _ _ h4 in
        let ((account_id, from_addrs), resolved, h6) =
          bind-ok (resolve_fromaddress_input texts wallet_db from) _ _ h5 in
        let (_, _, h7) = bind-ok (check_from_addrs texts wallet_db from_addrs) _ _ h6 in
        let (account, _, h8) = bind-ok (map_err _ (wallet_db.get_account account_id)) _ _ h7 in
        let (derivation, _, h9) = bind-ok (ok_or account _) _ _ h8 in
        let (proposal, proposed, h10) =
          bind-ok
            (map_err _ (wallet_db.propose_shielding_coinbase from_addrs to_address memo p.limit)) _
            _ h9 in
        rw (← ok_injective _ prepared h10) (
          record {
            from = from;
            account_id = account_id;
            from_addrs = from_addrs;
            to_address = to_address;
            memo = memo;
            from_parsed = from_parsed;
            to_parsed = ok_or-ok (z.parse_address p.toaddress) _ to_address to_parsed;
            memo_parsed = memo_parsed;
            source = resolved-IsSource from account_id from_addrs resolved;
            proposed =
                map_err-ok _
                  (wallet_db.propose_shielding_coinbase from_addrs to_address memo p.limit) proposal
                  proposed;
          },
          policy_parsed,
        )

    module _ {JsonZec SecretKey Usk : Type 0} ⦃e : Eq A⦄ (amounts_ops : Amounts Z)
        (value_from_zatoshis : Z → JsonZec) (keys : Keys A SecretKey Usk) where
      -- If a call succeeds, its proposal sweeps the addresses of one account, to the address that is given:
      -- the one address that is given, or all receivers of the account that is given. What a step of the
      -- proposal reveals is never a recipient, and it links addresses only if the caller named the policy
      -- for this, or named an account and no policy.
      pub call-Sweeps :
          (p : Parameters) (started : Started A Z JsonZec SecretKey Usk) (l : Leak)
          → call texts wallet_db amounts_ops value_from_zatoshis keys z p ≡ some (ok started)
          → any_reveals (map privacy_step started.proposal.steps) l ≡ true
          → (s : Sweeps p started.proposal) × MayReveal p.privacy_policy s.from l
      unfolding call
      call-Sweeps p started l h r = elim (Result-cases (prepare texts wallet_db z p)) [
        | inr (error, bad) ↦ cc (rw (bad, call) at h)
        | inl (prepared, good) ↦
            let (s, parsed) = prepare-Sweeps p prepared good in
            let (passed, same) =
              enforced-ok amounts_ops value_from_zatoshis keys p prepared started
                (rw (good, call) at h) in
            let permitted =
              (enforce_iff (map privacy_step prepared.proposal.steps) prepared.policy).0 passed l
                (ap (λ (q : Proposal A Z). any_reveals (map privacy_step q.steps) l) same ∙ r) in
            rw (← same) (
              s,
              policy-MayReveal texts.debug p.privacy_policy s.from prepared.policy l parsed
                  permitted,
            )
      ]
