-- ===== src/Rpc/Error/Codes.antt =====
-- The numbers of the error codes tell the codes apart.
use zallet.Prelude.{◌≡◌, arith}
use zallet.Rpc.Error.{LegacyCode, to_i32}

-- Two error codes with the same number are the same.
pub to_i32_injective : (c d : LegacyCode) → to_i32 c ≡ to_i32 d → c ≡ d
unfolding to_i32
to_i32_injective c d h = ground arith
