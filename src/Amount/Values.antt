-- ===== src/Amount/Values.antt =====
-- Amounts of JSON values: `zatoshis_from_value`, and `zec_str`, which formats an amount as text
-- (zallet/src/components/json_rpc/utils.rs). The type `Zatoshis` of zcash_protocol is a parameter.
pub mod Laws
use zallet.Prelude.{
  ℕ, suc, zero, ◌+◌, ◌*◌, ◌/◌, ◌%◌, Bool, List, [], ◌∷◌, ◌++◌, Option, none, some, if◌then◌else◌,
  ltb,
}
use zallet.Prelude.Int.{ℤ, pos}
use zallet.Prelude.{Result, ok, err, ok_or, map_err, ◌>>=◌}
use zallet.Rpc.Error.{RpcError, RpcResult, LegacyCode, type, invalid_parameter, with_static}
use zallet.Amount.{Text, parse_fixed_point}
use zallet.Amount.Digits.{text_of}

-- `serde_json::Value`; the members of an array or an object play no part.
pub data JsonValue : Type 0 where
  null array object : JsonValue
  boolean : Bool → JsonValue
  number string : Text → JsonValue

-- `BalanceError` of zcash_protocol.
pub data BalanceError : Type 0 where
  overflow underflow : BalanceError

unfoldable pub amount_text : JsonValue → RpcResult Text
amount_text (string s) = ok s
amount_text (number n) = ok n
amount_text _ = err (with_static type "Amount is not a number or string")

unfoldable pub amount_error : BalanceError → RpcError
amount_error underflow = with_static invalid_parameter "Invalid parameter, amount must be positive"
amount_error overflow = with_static type "Amount out of range"

unfoldable pub zatoshis_from_value :
    {Zatoshis : Type 0} (from_nonnegative_i64 : ℤ → Result BalanceError Zatoshis)
    → JsonValue
    → RpcResult Zatoshis
unfolding amount_text
zatoshis_from_value from_nonnegative_i64 value = do
  amount_str ← amount_text value
  amount ← ok_or (parse_fixed_point amount_str (pos 8)) (with_static type "Invalid amount")
  map_err amount_error (from_nonnegative_i64 amount)

-- The decimal digits of a number, the first not zero unless it is the only one; on fuel.
unfoldable pub decimal_digits : ℕ → ℕ → List ℕ
decimal_digits zero n = []
decimal_digits (suc k) n =
    let rest = decimal_digits k (n / 10) in if ltb n 10 then n ∷ [] else rest ++ ((n % 10) ∷ [])

-- The last `k` decimal digits, with leading zeros.
unfoldable pub padded_digits : ℕ → ℕ → List ℕ
padded_digits zero n = []
padded_digits (suc k) n = padded_digits k (n / 10) ++ ((n % 10) ∷ [])

-- A u64 has at most twenty digits.
unfoldable pub zec_str : ℕ → Text
zec_str zatoshis =
    text_of (decimal_digits 20 (zatoshis / 100000000))
    ++ (b'.' ∷ text_of (padded_digits 8 (zatoshis % 100000000)))
