-- ===== src/Payments/Tests.antt =====
-- The theorem on payment requests, applied: two payments, with the third-party types simple ones.
use zallet.Prelude.{ℕ, ◌+◌, String, List, [], ◌∷◌, none, some, ok, ◌≡◌, ◌≢◌, ◌↔◌}
use zallet.Amount.Values.{JsonValue, number}
use zallet.AsyncOp.Registry.{string_eq}
use zallet.Payments.{AmountParameter, Zip321, build_request}
use zallet.Payments.Request.{IsBuilt, build_request_iff}

abbrev to_ℕ : JsonValue → ℕ
to_ℕ (number (n ∷ _)) = n
to_ℕ _ = 0

abbrev zip321 : Zip321 String ℕ String String (String × ℕ) (List (String × ℕ))
zip321 = record {
  parse_address = λ s. some s;
  byte_length = λ s. 4;
  decode_hex = λ s. some s;
  memo_from_bytes = λ b. some b;
  new_payment = λ a v m. ok (a, v);
  zero_value = 0;
  add_values = λ a b. some (a + b);
  zatoshis_from_value = λ v. ok (to_ℕ v);
  new_request = λ ps. ok ps;
}

abbrev two_amounts : List AmountParameter
two_amounts =
    record { address = "u1"; amount = number (7 ∷ []); memo = some "f6" }
    ∷ record { address = "u2"; amount = number (8 ∷ []); memo = none }
    ∷ []

build_request_iff_example : (build_request zip321 two_amounts ≡ ok (("u1", 7) ∷ ("u2", 8) ∷ [])) ↔ (
    (two_amounts ≢ [])
    × (payments : List (String × ℕ)) × IsBuilt zip321 [] 0 two_amounts payments
    × (zip321.new_request payments ≡ ok (("u1", 7) ∷ ("u2", 8) ∷ [])))
build_request_iff_example = build_request_iff zip321 two_amounts (("u1", 7) ∷ ("u2", 8) ∷ [])
