-- ===== src/Sync/Requests/Tests.antt =====
-- The service of an address request: an output of the wallet is spent by one of two transactions at the address.
use zallet.Prelude.{
  ℕ, true, false, ◌==◌, ==_iff, List, [], ◌∷◌, Option, none, some, ok, Eq, ◌≡◌, ◌⊎◌, refl,
}
use zallet.Sync.Steady.{◌>>◌}
use zallet.Sync.Requests.{
  AddressRequest, Requests, address_request_bounds, write, service_address_request,
}
use zallet.Sync.Requests.Addresses.{
  Covers, known, AllIn, OneMissing, store_each, service_address_request_lem,
}

instance abbrev ℕ_eq : Eq ℕ
ℕ_eq = record { beq = ◌==◌; beq_iff = ==_iff }

abbrev request : AddressRequest ℕ
request = record { address = 7; block_range_start = 10; block_range_end = some 50 }

abbrev transaction : ℕ → Option ℕ
transaction txid = elim (txid == 1) [ true ↦ some 100 | false ↦ none ]

-- The wallet is the log of the transactions stored and the heights reported.
abbrev requests : Requests (List ℕ) ℕ ℕ ℕ ℕ ℕ
requests = record {
  is_null = λ t. t == 0;
  tip_height = ok 20;
  get_transaction_status = λ t. ok 1;
  get_transaction = λ t. ok (transaction t);
  get_address_unspent_outpoints = λ a. ok (3 ∷ []);
  get_address_tx_ids = λ a r. ok (1 ∷ 2 ∷ []);
  get_spendable_transparent_outputs = λ a h w. ok (3 ∷ 4 ∷ []);
  transaction_data_requests = λ w. ok [];
  txid_not_recognized = 0;
  set_transaction_status = λ t s w. (ok tt, w);
  decrypt_and_store_transaction = λ t w. (ok tt, t ∷ w);
  notify_address_checked = λ r h w. (ok tt, h ∷ w);
}

bounds : address_request_bounds 10 (some 50) 20 ≡ ((10, 21), 20)
unfolding address_request_bounds
bounds = refl

service_address_request_lem_example :
    Covers 10 (some 50) 20 10 21 20
    × ((AllIn requests (3 ∷ []) (3 ∷ 4 ∷ [])
          × (service_address_request requests request 20 []
              ≡ write requests (requests.notify_address_checked request 20) []))
        ⊎ (OneMissing requests (3 ∷ []) (3 ∷ 4 ∷ [])
            × (service_address_request requests request 20 []
                ≡ (store_each requests (known transaction (1 ∷ 2 ∷ []))
                      >> write requests (requests.notify_address_checked request 20))
                    [])))
service_address_request_lem_example =
    service_address_request_lem requests request 20 10 21 20 [] (3 ∷ []) (3 ∷ 4 ∷ []) (1 ∷ 2 ∷ [])
      transaction bounds refl refl refl (λ t. refl)
