-- ===== src/Server/Tests.antt =====
-- The server's layers at concrete inputs.
use zallet.Prelude.{
  ℕ, ◌+◌, ◌-◌, Bytes, true, List, [], ◌∷◌, replicate, length, none, some, Result, ok, ◌≡◌, ◌⊎◌, inl,
  refl, arith, ap,
}
use zallet.Rpc.Error.{method_not_found}
use zallet.Server.{
  Codecs, PasswordHash, Users, RpcAuthSection, unauthorized, served, hash_password, from_str,
  to_string, from_bare, check, password_of, collect_users, new, call,
}
use zallet.Server.PwHash.{Lacks, from_bare-from_str}
use zallet.Server.Authorized.{Accepted, call-Accepted}
use zallet.Server.HttpRequest.{
  two_point_zero, bitcoind, number, JsonRpcRequest, version, JsonRpcResponse, HttpRequest,
  HttpResponse, Serde, raw_null,
}
use zallet.Server.HttpRequest
use zallet.Server.HttpRequest.Versions.{IsResponse, SameAnswer, call-IsResponse}

abbrev add_37 : Bytes → Bytes
add_37 [] = []
add_37 (x ∷ xs) = (x + 37) ∷ add_37 xs

abbrev take_37 : Bytes → Bytes
take_37 [] = []
take_37 (x ∷ xs) = (x - 37) ∷ take_37 xs

abbrev plain : Codecs
plain = record {
  hmac = λ key message. replicate 32 (length message);
  hex_encode = add_37;
  hex_decode = λ b. some (take_37 b);
  base64_decode = λ b. some b;
  to_str = λ b. some b;
  from_utf8 = λ b. some b;
}

take_37-add_37 : (b : Bytes) → take_37 (add_37 b) ≡ b
take_37-add_37 [] = refl
take_37-add_37 (x ∷ xs) = grind (arith, take_37-add_37 xs)

add_37-Lacks : (b : Bytes) → Lacks b'$' (add_37 b)
add_37-Lacks [] = tt
add_37-Lacks (x ∷ xs) = (ground arith, add_37-Lacks xs)

-- The user u with the password pw.
abbrev made : PasswordHash
made = from_bare plain (1 ∷ []) (b'p' ∷ b'w' ∷ [])

from_bare-from_str_example :
    (check plain made (b'p' ∷ b'w' ∷ []) ≡ true)
    × (from_str plain (to_string plain made) ≡ some made)
    × (password_of plain (
      1 ∷ [],
      record { user = b'u' ∷ []; password = none; pwhash = some (to_string plain made) },
    )
        ≡ password_of plain (
          1 ∷ [],
          record { user = b'u' ∷ []; password = some (b'p' ∷ b'w' ∷ []); pwhash = none },
        ))
from_bare-from_str_example =
    from_bare-from_str plain (1 ∷ []) (b'p' ∷ b'w' ∷ []) (b'u' ∷ [])
      (λ b. ap some (take_37-add_37 b)) add_37-Lacks (λ key message. refl)

abbrev auth : List (Bytes × RpcAuthSection)
auth = (1 ∷ [], record { user = b'u' ∷ []; password = some (b'p' ∷ b'w' ∷ []); pwhash = none }) ∷ []

abbrev users : Users
users = (b'u' ∷ [], made) ∷ []

-- "Basic u:pw".
abbrev credentials : Bytes
credentials = b'B' ∷ b'a' ∷ b's' ∷ b'i' ∷ b'c' ∷ b' ' ∷ b'u' ∷ b':' ∷ b'p' ∷ b'w' ∷ []

call-Accepted_example :
    ((call plain users (λ (n : ℕ). n + 1) (some credentials) 4 ≡ served 5)
      × Accepted plain auth none (some credentials))
    ⊎ ((call plain users (λ (n : ℕ). n + 1) (some credentials) 4 ≡ unauthorized 250)
        × ¬ Accepted plain auth none (some credentials))
unfolding new collect_users password_of from_bare hash_password
call-Accepted_example =
    call-Accepted plain auth none users (λ (n : ℕ). n + 1) (some credentials) 4 refl

-- A 1.0 request and the error that it gets.
abbrev asked : JsonRpcRequest
asked = record {
  jsonrpc = none;
  method = "getinfo";
  params = some (b'0' ∷ []);
  id = some (number (b'1' ∷ []));
}

abbrev answered : JsonRpcResponse
answered = record {
  jsonrpc = some "2.0";
  result = none;
  error = some (b'e' ∷ []);
  id = number (b'1' ∷ []);
}

abbrev serde : Serde
serde = record {
  request_from_slice = λ b. some asked;
  request_to_vec = λ r. b'2' ∷ [];
  response_from_slice = λ b. some answered;
  response_to_vec = λ r. b'r' ∷ [];
  error_code = λ e. some method_not_found;
  to_str = λ b. some b;
}

abbrev request : HttpRequest ℕ
request = record { content_type = []; parts = 0; body = b'1' ∷ [] }

abbrev response : HttpResponse ℕ
response = record { status = 200; parts = 0; body = b'2' ∷ [] }

abbrev service : HttpRequest ℕ → Result ℕ (HttpResponse ℕ)
service r = ok response

call-IsResponse_example :
    (reply : JsonRpcResponse) × (HttpRequest.call serde service request
      ≡ ok (record { status = 404; parts = 0; body = b'r' ∷ [] }))
    × IsResponse bitcoind reply
    × SameAnswer answered reply
unfolding version HttpRequest.error_status
call-IsResponse_example =
    call-IsResponse serde service request asked response answered refl (λ e. cc e) refl refl
      (refl, inl refl)
