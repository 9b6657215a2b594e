-- ===== src/Sending/Recipients.antt =====
-- The checks of each payment against the privacy policy, before a proposal is made
-- (zallet/src/components/json_rpc/methods/z_send_many.rs). `sub` is the subtraction of Zatoshis; the code
-- starts with MAX_MONEY available in either pool.
use zallet.Prelude.{
  String, Bool, true, false, ◌&&◌, ◌||◌, not, List, [], ◌∷◌, Option, none, some, Result, ok, err,
  ◌>>=◌, if◌then◌else◌, ◌≡◌, ◌↔◌, refl, arith, inl, inr, Result-cases,
}
use zallet.Privacy.{PrivacyPolicy, permits_revealed_amounts, permits_revealed_recipients}
use zallet.Privacy.Proposal.{
  IncompatiblePrivacyPolicy, transparent_recipient, revealing_sapling_amount, transparent_receiver,
  revealing_receiver_amounts,
}

-- The address of a payment: one that the network refuses, or its kind; for a unified address, whether it has
-- an Orchard and a Sapling receiver.
pub data Recipient : Type 0 where
  refused : String → Recipient
  transparent tex sapling : Recipient
  unified : Bool → Bool → Recipient

pub data PaymentRefusal : Type 0 where
  invalid_address : String → PaymentRefusal
  incompatible : IncompatiblePrivacyPolicy → PaymentRefusal

module _ {Zatoshis : Type 0} (sub : Zatoshis → Zatoshis → Option Zatoshis)
    (policy : PrivacyPolicy) where
  -- The funds that may still be taken for Sapling, and for Orchard.
  abbrev pub Available : Type 0
  Available = Zatoshis × Zatoshis

  -- "We need to reveal something in order to make progress."
  unfoldable pub check_revealing : Available → Result PaymentRefusal Available
  check_revealing available =
      if permits_revealed_recipients policy
      then ok available
      else if permits_revealed_amounts policy
      then err (incompatible transparent_receiver)
      else err (incompatible revealing_receiver_amounts)

  -- The arms of the match in their order, for a policy that allows to reveal amounts or does not.
  unfoldable pub check_unified :
      Bool
      → Bool
      → Bool
      → Option Zatoshis
      → Option Zatoshis
      → Available
      → Result PaymentRefusal Available
  check_unified true true has_sapling orchard_rest sapling_rest available = ok available
  check_unified false true has_sapling (some rest) sapling_rest (max_sapling, max_orchard) =
      ok (max_sapling, rest)
  check_unified true false true orchard_rest sapling_rest available = ok available
  check_unified false true true none (some rest) (max_sapling, max_orchard) = ok (rest, max_orchard)
  check_unified false false true orchard_rest (some rest) (max_sapling, max_orchard) =
      ok (rest, max_orchard)
  check_unified false true true none none available = check_revealing available
  check_unified false true false none sapling_rest available = check_revealing available
  check_unified false false true orchard_rest none available = check_revealing available
  check_unified true false false orchard_rest sapling_rest available = check_revealing available
  check_unified false false false orchard_rest sapling_rest available = check_revealing available

  unfoldable pub check_payment : Recipient → Zatoshis → Available → Result PaymentRefusal Available
  check_payment (refused text) value available = err (invalid_address text)
  check_payment transparent value available =
      if permits_revealed_recipients policy
      then ok available
      else err (incompatible transparent_recipient)
  check_payment tex value available =
      if permits_revealed_recipients policy
      then ok available
      else err (incompatible transparent_recipient)
  check_payment sapling value (max_sapling, max_orchard) =
      if permits_revealed_amounts policy
      then ok (max_sapling, max_orchard)
      else elim (sub max_sapling value) [
        | none ↦ err (incompatible revealing_sapling_amount)
        | some rest ↦ ok (rest, max_orchard)
      ]
  check_payment (unified has_orchard has_sapling) value (max_sapling, max_orchard) =
      check_unified (permits_revealed_amounts policy) has_orchard has_sapling
        (sub max_orchard value) (sub max_sapling value) (max_sapling, max_orchard)

  unfoldable pub check_payments :
      List (Recipient × Zatoshis) → Available → Result PaymentRefusal Available
  check_payments [] available = ok available
  check_payments ((recipient, value) ∷ payments) available = do
    available' ← check_payment recipient value available
    check_payments payments available'

  -- The payment can only be received transparently.
  abbrev pub is_transparent : Recipient → Bool
  is_transparent transparent = true
  is_transparent tex = true
  is_transparent (unified has_orchard has_sapling) = not (has_orchard || has_sapling)
  is_transparent _ = false

  abbrev pub is_refused : Recipient → Bool
  is_refused (refused _) = true
  is_refused _ = false

  -- The address is one of the network's, and the policy allows it if it has no shielded receiver.
  abbrev pub is_allowed : Recipient → Bool
  is_allowed recipient =
      not (is_refused recipient)
      && (not (is_transparent recipient) || permits_revealed_recipients policy)

  abbrev pub all_allowed : List (Recipient × Zatoshis) → Bool
  all_allowed [] = true
  all_allowed ((recipient, value) ∷ payments) = is_allowed recipient && all_allowed payments

  check_payment-allowed :
      (recipient : Recipient) (value : Zatoshis) (available available' : Available)
      → check_payment recipient value available ≡ ok available'
      → is_allowed recipient ≡ true
  unfolding check_payment check_unified check_revealing
  check_payment-allowed (refused text) value (ms, mo) r h = cc
  check_payment-allowed transparent value (ms, mo) r h = ground arith
  check_payment-allowed tex value (ms, mo) r h = ground arith
  check_payment-allowed sapling value (ms, mo) r h = ground arith
  check_payment-allowed (unified o s) value (ms, mo) r h = ground arith

  allowed-check_payment :
      (recipient : Recipient) (value : Zatoshis) (available : Available)
      → permits_revealed_amounts policy ≡ true
      → is_allowed recipient ≡ true
      → check_payment recipient value available ≡ ok available
  unfolding check_payment check_unified check_revealing
  allowed-check_payment (refused text) value (ms, mo) p h = cc
  allowed-check_payment transparent value (ms, mo) p h = ground arith
  allowed-check_payment tex value (ms, mo) p h = ground arith
  allowed-check_payment sapling value (ms, mo) p h = ground arith
  allowed-check_payment (unified true s) value (ms, mo) p h = rw p refl
  allowed-check_payment (unified false true) value (ms, mo) p h = rw p refl
  allowed-check_payment (unified false false) value (ms, mo) p h = ground arith

  -- Payments that pass the checks under a policy have addresses of the network, and those without a
  -- shielded receiver only if the policy allows to reveal recipients.
  pub check_payments-allowed :
      (payments : List (Recipient × Zatoshis)) (available available' : Available)
      → check_payments payments available ≡ ok available'
      → all_allowed payments ≡ true
  unfolding check_payments
  check_payments-allowed [] available available' h = refl
  check_payments-allowed ((recipient, value) ∷ payments) available available' h =
      elim (Result-cases (check_payment recipient value available)) [
        | inr (error, bad) ↦ cc (rw bad at h)
        | inl (rest, good) ↦
            rw (check_payment-allowed recipient value available rest good)
              (check_payments-allowed payments rest available' (rw good at h))
      ]

  -- Under a policy that allows to reveal amounts, payments pass whatever their values, and with the
  -- funds unchanged, exactly if their addresses are of the network and the policy allows to reveal
  -- recipients where there is one without a shielded receiver.
  check_payments_iff :
      (payments : List (Recipient × Zatoshis)) (available : Available)
      → permits_revealed_amounts policy ≡ true
      → (check_payments payments available ≡ ok available) ↔ (all_allowed payments ≡ true)
  unfolding check_payments
  check_payments_iff [] available p = (λ h. refl, λ h. refl)
  check_payments_iff ((recipient, value) ∷ payments) available p = (
    λ h.
        check_payments-allowed ((recipient, value) ∷ payments) available available
          (unfold check_payments in h),
    λ h.
        rw (allowed-check_payment recipient value available p (ground arith))
          ((check_payments_iff payments available p).1 (ground arith)),
  )
