-- ===== src/Server.antt =====
-- The layers in front of the JSON-RPC methods (zallet/src/components/json_rpc/server/): authorization.rs here,
-- http_request_compatibility.rs in HttpRequest. Texts are their bytes.
pub mod Authorized
pub mod HttpRequest
pub mod PwHash
mod Tests
use zallet.Prelude.{
  same, Bytes, ℕ, Bool, true, false, List, [], ◌∷◌, ◌++◌, length, Option, none, some, Result, ok,
  err, ok_or, ◌>>=◌, if◌then◌else◌, ◌==◌,
}

-- HMAC-SHA-256 of a message under a key, the `hex` and `base64ct` crates, `HeaderValue::to_str` and
-- `String::from_utf8`.
pub record Codecs : Type 0 where
  pub hmac : Bytes → Bytes → Bytes
  pub hex_encode : Bytes → Bytes
  pub hex_decode : Bytes → Option Bytes
  pub base64_decode : Bytes → Option Bytes
  pub to_str : Bytes → Option Bytes
  pub from_utf8 : Bytes → Option Bytes

-- `str::split_once`.
unfoldable pub split_once : ℕ → Bytes → Option (Bytes × Bytes)
split_once c [] = none
split_once c (x ∷ xs) =
    let rest : Option (Bytes × Bytes) = elim (split_once c xs) [
      | none ↦ none
      | some (before, after) ↦ some (x ∷ before, after)
    ] in
    if x == c then some ([], xs) else rest

-- `str::strip_prefix`.
unfoldable pub strip_prefix : Bytes → Bytes → Option Bytes
strip_prefix [] s = some s
strip_prefix (c ∷ cs) [] = none
strip_prefix (c ∷ cs) (x ∷ xs) = let rest = strip_prefix cs xs in if x == c then rest else none

-- "Basic ".
abbrev pub basic : Bytes
basic = b'B' ∷ b'a' ∷ b's' ∷ b'i' ∷ b'c' ∷ b' ' ∷ []

-- `Hmac::<Sha256>::output_size()`.
abbrev pub output_size : ℕ
output_size = 32

pub record PasswordHash : Type 0 where
  pub salt : Bytes
  pub hash : Bytes

-- The `HashMap` of users: the last entry of a user counts.
abbrev pub Users : Type 0
Users = List (Bytes × PasswordHash)

unfoldable pub get : Bytes → Users → Option PasswordHash
get user [] = none
get user ((u, password) ∷ users) =
    let rest = get user users in if same u user then some password else rest

abbrev pub insert_user : Bytes → PasswordHash → Users → Users
insert_user user password users = (user, password) ∷ users

pub record RpcAuthSection : Type 0 where
  pub user : Bytes
  pub password : Option Bytes
  pub pwhash : Option Bytes

-- `unauthorized`, behind a delay in milliseconds; or the answer of the service.
pub data Reply (R : Type 0) : Type 0 where
  unauthorized : ℕ → Reply R
  served : R → Reply R

module _ (codecs : Codecs) where
  unfoldable pub hash_password : Bytes → Bytes → Bytes
  hash_password password salt = codecs.hmac salt password

  unfoldable pub from_str : Bytes → Option PasswordHash
  unfolding split_once
  from_str s = elim (split_once b'$' s) [
    | none ↦ none
    | some (salt, hash) ↦ elim (codecs.hex_decode hash) [
      | none ↦ none
      | some hash ↦
          if length hash == output_size then some (record { salt = salt; hash = hash }) else none
    ]
  ]

  unfoldable pub to_string : PasswordHash → Bytes
  to_string p = p.salt ++ b'$' ∷ codecs.hex_encode p.hash

  -- With the random salt as an argument.
  unfoldable pub from_bare : Bytes → Bytes → PasswordHash
  unfolding hash_password
  from_bare random password =
      let salt = codecs.hex_encode random in
      record { salt = salt; hash = hash_password password salt }

  unfoldable pub check : PasswordHash → Bytes → Bool
  unfolding hash_password
  check p password = same (hash_password password p.salt) p.hash

  unfoldable pub decoded : Bytes → Option Bytes
  unfolding strip_prefix
  decoded auth_header = elim (codecs.to_str auth_header) [
    | none ↦ none
    | some s ↦ elim (strip_prefix basic s) [
      | none ↦ none
      | some s ↦ elim (codecs.base64_decode s) [ none ↦ none | some b ↦ codecs.from_utf8 b ]
    ]
  ]

  unfoldable pub is_authorized : Users → Bytes → Bool
  unfolding decoded split_once get check
  is_authorized users auth_header = elim (decoded auth_header) [
    | none ↦ false
    | some user_pass ↦ elim (split_once b':' user_pass) [
      | none ↦ false
      | some (user, pass) ↦ elim (get user users) [
        | none ↦ false
        | some password ↦ check password pass
      ]
    ]
  ]

  -- One section, with the random salt that it may take.
  unfoldable pub password_of : Bytes × RpcAuthSection → Option PasswordHash
  unfolding from_bare from_str
  password_of (random, a) = elim a.password [
    | some password ↦ elim a.pwhash [ none ↦ some (from_bare random password) | some pwhash ↦ none ]
    | none ↦ elim a.pwhash [ none ↦ none | some pwhash ↦ from_str pwhash ]
  ]

  unfoldable pub collect_users : List (Bytes × RpcAuthSection) → Users → Option Users
  unfolding password_of
  collect_users [] users = some users
  collect_users (a ∷ auth) users = elim (password_of a) [
    | none ↦ none
    | some password ↦ collect_users auth (insert_user a.1.user password users)
  ]

  abbrev pub insert_cookie : Option (Bytes × PasswordHash) → Users → Users
  insert_cookie none users = users
  insert_cookie (some (cookie_user, cookie_hash)) users = insert_user cookie_user cookie_hash users

  -- `AuthorizationLayer::new`.
  unfoldable pub new : List (Bytes × RpcAuthSection) → Option (Bytes × PasswordHash) → Option Users
  unfolding collect_users
  new auth cookie = elim (collect_users auth []) [
    | none ↦ none
    | some users ↦ some (insert_cookie cookie users)
  ]

  -- `Authorization::call`, on a request with its `Authorization` header.
  unfoldable pub call :
      {Request R : Type 0} → Users → (Request → R) → Option Bytes → Request → Reply R
  unfolding is_authorized
  call users service none request = unauthorized 0
  call users service (some auth_header) request =
      if is_authorized users auth_header then served (service request) else unauthorized 250
