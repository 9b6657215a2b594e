-- ===== src/Sync/Requests/Addresses.antt =====
-- What the service of an address request reads and writes.
use mathlib.Core.Path.{subst}
use zallet.Prelude.{
  ◌+◌, ◌-◌, ◌≤◌, ◌<◌, Bool, Bool-cases, true, false, List, [], ◌∷◌, Option, Option-cases, none,
  some, Result, ok, Eq, contains, if◌then◌else◌, ◌≡◌, ◌↔◌, ◌⊎◌, inl, inr, refl, ap, ◌∙◌, arith,
}
use zallet.Sync.{BlockHeight, ChainError, SyncError}
use zallet.Sync.Steady.{Exit, Action, ◌>>=◌, ◌>>◌, finish, on_chain, exit_of}
use zallet.Sync.Requests.{
  AddressRequest, Requests, address_request_bounds, write, read, any_spent, store_transactions,
  service_address_request,
}

-- Before the end that the request gives, if it gives one.
abbrev pub IsBelow : Option BlockHeight → BlockHeight → Type 0
IsBelow none h = Unit
IsBelow (some end) h = h < end

-- A height is asked for exactly if the request covers it and the view has it; the height reported as inspected is the
-- last one of the range, or the one before its start if the range is empty.
pub record Covers (request_start : BlockHeight) (request_end : Option BlockHeight)
    (view_tip start end as_of_height : BlockHeight) : Type 0 where
  pub heights :
      (h : BlockHeight)
      → ((start ≤ h) × (h < end)) ↔ ((request_start ≤ h) × (h ≤ view_tip) × IsBelow request_end h)
  pub last : as_of_height ≡ end - 1
  pub from_start : start ≤ end

address_request_bounds-Covers :
    (start : BlockHeight) (end : Option BlockHeight) (tip : BlockHeight)
    → Covers start end tip
        (address_request_bounds start end tip).0.0
        (address_request_bounds start end tip).0.1
        (address_request_bounds start end tip).1
unfolding address_request_bounds
address_request_bounds-Covers start none tip = record {
  heights = λ h. (λ (a, b). (a, omega (arith, a, b), tt), λ (a, b, _). (a, omega (arith, a, b)));
  last = refl;
  from_start = omega arith;
}
address_request_bounds-Covers start (some end) tip = record {
  heights = λ h. (
    λ (a, b). (a, omega (arith, a, b), omega (arith, a, b)),
    λ (a, b, c). (a, omega (arith, a, b, c)),
  );
  last = refl;
  from_start = omega arith;
}

-- The transactions among those that are known.
abbrev pub known : {TxId Tx : Type 0} → (TxId → Option Tx) → List TxId → List Tx
known found [] = []
known found (txid ∷ txids) = elim (found txid) [
  | none ↦ known found txids
  | some tx ↦ tx ∷ known found txids
]

module _ {Wallet TxId Tx Address Outpoint Status : Type 0} ⦃e : Eq Outpoint⦄
    (db : Requests Wallet TxId Tx Address Outpoint Status) where
  abbrev pub AllIn : List Outpoint → List Outpoint → Type 0
  AllIn chain_unspent [] = Unit
  AllIn chain_unspent (output ∷ outputs) =
      (contains chain_unspent output ≡ true) × AllIn chain_unspent outputs

  abbrev pub OneMissing : List Outpoint → List Outpoint → Type 0
  OneMissing chain_unspent [] = ⊥
  OneMissing chain_unspent (output ∷ outputs) =
      (contains chain_unspent output ≡ false) ⊎ OneMissing chain_unspent outputs

  any_spent-cases :
      (chain_unspent outputs : List Outpoint)
      → (AllIn chain_unspent outputs × (any_spent db chain_unspent outputs ≡ false))
        ⊎ (OneMissing chain_unspent outputs × (any_spent db chain_unspent outputs ≡ true))
  unfolding any_spent
  any_spent-cases chain_unspent [] = inl (tt, refl)
  any_spent-cases chain_unspent (output ∷ outputs) =
      elim (Bool-cases (contains chain_unspent output)) [
        | inr f ↦ inr (inl f, rw f refl)
        | inl f ↦ elim (any_spent-cases chain_unspent outputs) [
          | inl (all, g) ↦ inl ((f, all), rw (f, g) refl)
          | inr (one, g) ↦ inr (inr one, rw (f, g) refl)
        ]
      ]

  abbrev pub store_each : List Tx → Action Wallet (Unit {0})
  store_each [] = finish tt
  store_each (tx ∷ txs) = write db (db.decrypt_and_store_transaction tx) >> store_each txs

  store_transactions-known :
      (found : TxId → Option Tx) (txids : List TxId)
      → ((txid : TxId) → db.get_transaction txid ≡ ok (found txid))
      → store_transactions db txids ≡ store_each (known found txids)
  unfolding store_transactions
  store_transactions-known found [] answers = refl
  store_transactions-known found (txid ∷ txids) answers =
      let later = store_transactions-known found txids answers in
      elim (Option-cases (found txid)) [
        | inl f ↦ rw (answers txid, f, known, later) refl
        | inr (tx, f) ↦ rw (answers txid, f, known, ← later) refl
      ]

  after_chain :
      {A B : Type 0} (answer : Result ChainError A) (a : A) (k : A → Action Wallet B) (w : Wallet)
      → answer ≡ ok a
      → (on_chain answer >>= k) w ≡ k a w
  after_chain answer a k w e = rw e refl

  after_read :
      {A B : Type 0} (query : Wallet → Result SyncError A) (a : A) (k : A → Action Wallet B)
      (w : Wallet)
      → query w ≡ ok a
      → (read db query >>= k) w ≡ k a w
  after_read query a k w e = ap (λ r. ((λ w'. (exit_of r, w')) >>= k) w) e

  -- What the service does behind its reads.
  abbrev conclusion :
      AddressRequest Address
      → (BlockHeight × BlockHeight) × BlockHeight
      → Bool
      → Action Wallet (Unit {0})
  conclusion request bounds is_spent =
      (if is_spent
        then on_chain (db.get_address_tx_ids request.address bounds.0) >>= store_transactions db
        else finish tt)
      >> write db (db.notify_address_checked request bounds.1)

  conclusion-spent :
      (request : AddressRequest Address) (range : BlockHeight × BlockHeight)
      (as_of_height : BlockHeight) (txids : List TxId) (found : TxId → Option Tx) (w : Wallet)
      → db.get_address_tx_ids request.address range ≡ ok txids
      → ((txid : TxId) → db.get_transaction txid ≡ ok (found txid))
      → conclusion request (range, as_of_height) true w
        ≡ (store_each (known found txids)
              >> write db (db.notify_address_checked request as_of_height))
            w
  conclusion-spent request range as_of_height txids found w c answers =
      rw (c, ← store_transactions-known found txids answers) refl

  -- If the wallet and the chain answer: the range asked for covers exactly the heights of the request that the view
  -- has, and if it is not empty, its last height is the one reported. If the chain has all outputs of the wallet at
  -- the address as unspent, the service only reports it as checked; and if one is missing there, it first stores the
  -- transactions of the range that the chain knows, in their order.
  pub service_address_request_lem :
      (request : AddressRequest Address) (view_tip start end as_of_height : BlockHeight)
      (w : Wallet) (chain_unspent outputs : List Outpoint) (txids : List TxId)
      (found : TxId → Option Tx)
      → address_request_bounds request.block_range_start request.block_range_end view_tip
        ≡ ((start, end), as_of_height)
      → db.get_address_unspent_outpoints request.address ≡ ok chain_unspent
      → db.get_spendable_transparent_outputs request.address (view_tip + 1) w ≡ ok outputs
      → db.get_address_tx_ids request.address (start, end) ≡ ok txids
      → ((txid : TxId) → db.get_transaction txid ≡ ok (found txid))
      → Covers request.block_range_start request.block_range_end view_tip start end as_of_height
        × ((AllIn chain_unspent outputs
              × (service_address_request db request view_tip w
                  ≡ write db (db.notify_address_checked request as_of_height) w))
            ⊎ (OneMissing chain_unspent outputs
                × (service_address_request db request view_tip w
                    ≡ (store_each (known found txids)
                          >> write db (db.notify_address_checked request as_of_height))
                        w)))
  unfolding service_address_request
  service_address_request_lem request view_tip start end as_of_height w chain_unspent outputs txids
        found bounds a b c answers =
      (
        covers,
        elim (any_spent-cases chain_unspent outputs) [
          | inl (all, g) ↦ inl (all, reads ∙ ap (λ is_spent. concluded is_spent) g)
          | inr (one, g) ↦ inr (
            one,
            reads
                ∙ (ap (λ is_spent. concluded is_spent) g
                    ∙ conclusion-spent request (start, end) as_of_height txids found w c answers),
          )
        ],
      )
    where
      concluded : Bool → Exit (Unit {0}) × Wallet
      concluded is_spent = conclusion request ((start, end), as_of_height) is_spent w

      query : Wallet → Result SyncError (List Outpoint)
      query = db.get_spendable_transparent_outputs request.address (view_tip + 1)

      behind : List Outpoint → List Outpoint → Action Wallet (Unit {0})
      behind unspent our_outputs =
          conclusion request
            (address_request_bounds request.block_range_start request.block_range_end view_tip)
            (any_spent db unspent our_outputs)

      reads :
          service_address_request db request view_tip w
          ≡ concluded (any_spent db chain_unspent outputs)
      reads =
          after_chain (db.get_address_unspent_outpoints request.address) chain_unspent
            (λ unspent. read db query >>= λ our. behind unspent our) w a
          ∙ (after_read query outputs (λ our. behind chain_unspent our) w b
              ∙ ap (λ r. conclusion request r (any_spent db chain_unspent outputs) w) bounds)

      covers :
          Covers request.block_range_start request.block_range_end view_tip start end as_of_height
      covers =
          subst
            (λ r. Covers request.block_range_start request.block_range_end view_tip r.0.0 r.0.1 r.1)
            bounds
            (address_request_bounds-Covers request.block_range_start request.block_range_end
              view_tip)
