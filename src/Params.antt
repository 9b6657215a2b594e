-- ===== src/Params.antt =====
-- Parameters that many methods share (`parse_as_of_height` and `parse_minconf` of
-- zallet/src/components/json_rpc/utils.rs). An i64 is an integer here, a u32 a number.
pub mod Account
pub mod Ranges
use zallet.Prelude.{ℕ, suc, zero, ◌^◌, Bool, Option, none, some, ok, err, if◌then◌else◌, ltb}
use zallet.Prelude.Int.{ℤ, pos, negsuc}
use zallet.Rpc.Error.{RpcResult, invalid_parameter, with_static}

unfoldable pub parse_as_of_height : Option ℤ → RpcResult (Option ℕ)
parse_as_of_height none = ok none
parse_as_of_height (some (negsuc zero)) = ok none
parse_as_of_height (some (negsuc (suc _))) =
    err (with_static invalid_parameter "Can not perform the query as of a negative block height")
parse_as_of_height (some (pos zero)) =
    err (with_static invalid_parameter "Can not perform the query as of the genesis block")
parse_as_of_height (some (pos (suc h))) =
    if ltb (suc h) (2 ^ 32)
    then ok (some (suc h))
    else err (with_static invalid_parameter "`as_of_height` parameter out of range")

unfoldable pub parse_minconf : Option ℕ → ℕ → Option ℕ → RpcResult ℕ
parse_minconf none default as_of_height = ok default
parse_minconf (some zero) default (some _) = err (
    with_static invalid_parameter
      "Require a minimum of 1 confirmation when `asOfHeight` is provided")
parse_minconf (some zero) default none = ok zero
parse_minconf (some (suc d)) default as_of_height = ok (suc d)
