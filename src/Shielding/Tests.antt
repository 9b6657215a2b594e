-- ===== src/Shielding/Tests.antt =====
-- The theorems on shielding, applied: two coinbase outputs of one address, of which one is shielded.
use zallet.Prelude.{
  String, str_eq, true, contains, collect, List, [], ◌∷◌, none, some, Result, ok, Bytes, bytes_eq,
  if◌then◌else◌, ◌≡◌, ◌↔◌, ◌⊎◌, refl, replicate,
}
use zallet.AsyncOp.Registry.{string_eq}
use zallet.Payments.{Zip321, optional_memo}
use zallet.Privacy.{permits_revealed_senders, is_compatible_with}
use zallet.Privacy.Lattice.{senders}
use zallet.Privacy.Proposal.{
  orchard, enforce_privacy_policy, input_in_pool, has_transparent_recipient, has_transparent_change,
}
use zallet.Shielding.{transparent, Utxo, ShieldingStep, parse_fromaddress, parse_privacy_policy}
use zallet.Shielding.Accounting.{Preflight, preflight}
use zallet.Shielding.Accounting.Coins.{Coins, no_coin, one, plus, coins, coins-AreChecked}
use zallet.Shielding.Accounting.Totals.{inputs_of}
use zallet.Shielding.Accounting.Remaining.{Reports, preflight_iff}
use zallet.Shielding.Keys.{
  AddressSource, standalone_pubkey, KeyStoreError, standalone_addrs,
  collect_standalone_transparent_keys,
}
use zallet.Shielding.Keys.Lookup.{keys_at, uses_steps, collect_standalone_transparent_keys_lem}
use zallet.Shielding.Call.{Proposal, Texts, Wallet, Keys, Parameters, Started, call}
use zallet.Shielding.Call.Policy.{Sweeps, MayReveal, call-Sweeps}

abbrev output : String → Coins → Utxo String Coins
output address value = record {
  recipient_address = address;
  script_address = some address;
  value = value;
}

abbrev one_shielded : List (ShieldingStep String Coins)
one_shielded =
    record {
      is_shielding = true;
      transparent_inputs = output "t1" one ∷ [];
      shielded_notes = [];
      payment_pools = orchard ∷ [];
      proposed_change = [];
    }
    ∷ []

abbrev outputs_at : String → Result String (List (Utxo String Coins))
outputs_at address = ok (output address one ∷ output address one ∷ [])

abbrev numbers : Preflight Coins
numbers = record {
  remaining_utxos = 1;
  remaining_value = one;
  shielding_utxos = 1;
  shielding_value = one;
}

preflight_iff_example :
    (preflight coins outputs_at (λ c. c) one_shielded ("t1" ∷ []) ≡ ok numbers)
    ↔ Reports coins coins-AreChecked outputs_at
        (λ c. c)
        (inputs_of one_shielded)
        (output "t1" one ∷ output "t1" one ∷ [])
        numbers
preflight_iff_example =
    preflight_iff coins coins-AreChecked outputs_at (λ c. c) one_shielded ("t1" ∷ [])
      (output "t1" one ∷ output "t1" one ∷ []) numbers refl

abbrev key_of : String → Result KeyStoreError String
key_of address = ok "k1"

abbrev collected_keys : List (String × List String)
collected_keys = ("t1", "k1" ∷ []) ∷ []

abbrev receivers : List (String × AddressSource)
receivers = ("t1", standalone_pubkey) ∷ []

collected :
    collect_standalone_transparent_keys (ok receivers) key_of one_shielded ≡ ok collected_keys
unfolding collect_standalone_transparent_keys contains
collected = refl

collect_standalone_transparent_keys_lem_example :
    ((uses_steps (standalone_addrs receivers) "t1" one_shielded ≡ 0)
      × (keys_at "t1" collected_keys ≡ []))
    ⊎ ((k : String) × (key_of "t1" ≡ ok k)
        × (keys_at "t1" collected_keys
            ≡ replicate (uses_steps (standalone_addrs receivers) "t1" one_shielded) k))
collect_standalone_transparent_keys_lem_example =
    collect_standalone_transparent_keys_lem key_of receivers one_shielded collected_keys "t1"
      collected

abbrev zip321 : Zip321 String Coins String String String String
zip321 = record {
  parse_address = λ s. some s;
  byte_length = λ s. 4;
  decode_hex = λ s. some s;
  memo_from_bytes = λ b. some b;
  new_payment = λ a v m. ok a;
  zero_value = no_coin;
  add_values = plus;
  zatoshis_from_value = λ v. ok one;
  new_request = λ ps. ok "request";
}

abbrev texts : Texts String String
texts = record {
  parse_uuid = λ s. if str_eq s "account" then some s else none;
  decode = λ s. some (transparent s);
  debug = λ s. s;
  show_uuid = λ s. s;
  debug_uuid = λ s. s;
  debug_address = λ s. s;
  incompatible = λ e. "incompatible";
}

abbrev the_proposal : Proposal String Coins
the_proposal = record { steps = one_shielded; min_target_height = 10 }

abbrev wallet_db : Wallet String String Coins String String
wallet_db = record {
  has_account = λ u. ok true;
  get_transparent_receivers = λ u. ok ("t1" ∷ []);
  find_account_for_address = λ a. ok (some "account");
  get_account = λ u. ok (some (some (record { seed_fingerprint = 7 ∷ []; account_index = 0 })));
  propose_shielding_coinbase = λ addrs to memo limit. ok the_proposal;
  get_spendable_transparent_outputs = λ height a. outputs_at a;
  sources_of_receivers = λ u. ok receivers;
}

abbrev keys : Keys String String Bytes
keys = record {
  decrypt_seed = λ fp. ok (1 ∷ fp);
  from_seed = λ seed index. ok seed;
  decrypt_standalone_transparent_key = key_of;
}

abbrev parameters : Parameters
parameters = record {
  fromaddress = "t1";
  toaddress = "u1";
  fee = none;
  limit = some 1;
  memo = none;
  privacy_policy = none;
}

abbrev started : Started String Coins Coins String Bytes
started = record {
  numbers = numbers;
  context_method = "z_shieldcoinbase";
  context_params = ("t1", "u1", some 1);
  proposal = the_proposal;
  usk = 1 ∷ 7 ∷ [];
  standalone_keys = collected_keys;
}

shielded : call texts wallet_db coins (λ c. c) keys zip321 parameters ≡ some (ok started)
unfolding call optional_memo parse_fromaddress parse_privacy_policy enforce_privacy_policy
    input_in_pool collect has_transparent_recipient has_transparent_change permits_revealed_senders
    is_compatible_with preflight collect_standalone_transparent_keys
shielded = refl

call-Sweeps_example :
    (s : Sweeps texts wallet_db zip321 parameters the_proposal) × MayReveal none s.from senders
call-Sweeps_example =
    call-Sweeps texts wallet_db zip321 coins (λ c. c) keys parameters started senders shielded
      (unfold input_in_pool in refl)
