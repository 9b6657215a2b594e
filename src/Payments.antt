-- ===== src/Payments.antt =====
-- Payment requests (`build_request` and `parse_memo` of zallet/src/components/json_rpc/payments.rs). The
-- types of zip321 and zcash_address, and their parsers, are parameters.
pub mod Request
mod Tests
use mathlib.Core.Option
use zallet.Prelude.{
  ℕ, ◌*◌, String, str_append, Bool, true, false, List, [], ◌∷◌, Option, none, some, Result, ok, err,
  ◌>>=◌, ok_or, map_err, Eq, contains, insert, if◌then◌else◌, ltb,
}
use zallet.Rpc.Error.{RpcError, RpcResult, LegacyCode, invalid_parameter, with_message, with_static}
use zallet.Amount.Values.{JsonValue}

pub record AmountParameter : Type 0 where
  pub address : String
  pub amount : JsonValue
  pub memo : Option String

-- `PaymentError` of zip321.
pub data PaymentError : Type 0 where
  transparent_memo zero_valued_transparent_output : PaymentError

-- What the code uses of zip321, zcash_address, zcash_protocol and hex.
pub record Zip321 (Address Zatoshis Bytes Memo Payment Request : Type 0) : Type 0 where
  pub parse_address : String → Option Address
  pub byte_length : String → ℕ
  pub decode_hex : String → Option Bytes
  pub memo_from_bytes : Bytes → Option Memo
  pub new_payment : Address → Zatoshis → Option Memo → Result PaymentError Payment
  pub zero_value : Zatoshis
  pub add_values : Zatoshis → Zatoshis → Option Zatoshis
  pub zatoshis_from_value : JsonValue → RpcResult Zatoshis
  -- An error stands as its text.
  pub new_request : List Payment → Result String Request

abbrev pub max_memo_bytes : ℕ
max_memo_bytes = 512

module _ {Address Zatoshis Bytes Memo Payment Request : Type 0} ⦃e : Eq Address⦄
    (z : Zip321 Address Zatoshis Bytes Memo Payment Request) where
  unfoldable pub parse_memo : String → RpcResult Memo
  parse_memo memo_hex =
      let too_long =
        with_static invalid_parameter
          "Invalid parameter, memo is longer than the maximum allowed 512 bytes." in
      let parsed = (do
        memo_bytes ← ok_or (z.decode_hex memo_hex) (
            with_static invalid_parameter
              "Invalid parameter, expected memo data in hexadecimal format.")
        ok_or (z.memo_from_bytes memo_bytes) too_long) in
      if ltb (max_memo_bytes * 2) (z.byte_length memo_hex) then err too_long else parsed

  -- `.as_deref().map(parse_memo).transpose()`.
  unfoldable pub optional_memo : Option String → RpcResult (Option Memo)
  optional_memo none = ok none
  optional_memo (some memo_hex) = do memo ← parse_memo memo_hex; ok (some memo)

  unfoldable pub payment_error : PaymentError → RpcError
  payment_error transparent_memo =
      with_static invalid_parameter "Cannot send memo to transparent recipient"
  payment_error zero_valued_transparent_output =
      with_static invalid_parameter "Cannot send zero-valued output to transparent recipient"

  unfoldable pub parse_recipient : AmountParameter → RpcResult Address
  parse_recipient amount = ok_or (z.parse_address amount.address) (
      with_message invalid_parameter
        (str_append "Invalid parameter, unknown address format: " amount.address))

  -- `if !recipient_addrs.insert(addr.clone())`.
  unfoldable pub insert_recipient :
      List Address → Address → AmountParameter → RpcResult (List Address)
  insert_recipient recipient_addrs addr amount =
      if contains recipient_addrs addr
      then err (
          with_message invalid_parameter
            (str_append "Invalid parameter, duplicated recipient address: " amount.address))
      else ok (insert addr recipient_addrs)

  -- The body of the loop: the recipients and the total after it, and the payment pushed.
  unfoldable pub one_payment :
      List Address → Zatoshis → AmountParameter → RpcResult (List Address × Zatoshis × Payment)
  one_payment recipient_addrs total_out amount = do
    addr ← parse_recipient amount
    recipient_addrs' ← insert_recipient recipient_addrs addr amount
    memo ← optional_memo amount.memo
    value ← z.zatoshis_from_value amount.amount
    payment ← map_err payment_error (z.new_payment addr value memo)
    total_out' ←
        ok_or (z.add_values total_out value) (with_static invalid_parameter "Value too large")
    ok (recipient_addrs', total_out', payment)

  -- The loop, from the recipients and the total so far: the payments pushed from there on.
  unfoldable pub payments_from :
      List Address → Zatoshis → List AmountParameter → RpcResult (List Payment)
  payments_from recipient_addrs total_out [] = ok []
  payments_from recipient_addrs total_out (amount ∷ amounts) = do
    (recipient_addrs', total_out', payment) ← one_payment recipient_addrs total_out amount
    payments ← payments_from recipient_addrs' total_out' amounts
    ok (payment ∷ payments)

  unfoldable pub build_request : List AmountParameter → RpcResult Request
  build_request [] =
      err (with_static invalid_parameter "Invalid parameter, amounts array is empty.")
  build_request (amount ∷ amounts) = do
    payments ← payments_from [] z.zero_value (amount ∷ amounts)
    map_err (λ text. with_message invalid_parameter (str_append "Invalid payment request: " text))
        (z.new_request payments)
