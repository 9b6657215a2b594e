-- ===== src/Server/HttpRequest.antt =====
-- The middleware that maps the versions of JSON-RPC to 2.0 and back
-- (zallet/src/components/json_rpc/server/http_request_compatibility.rs). The parsing and printing of JSON (serde_json)
-- is a parameter, and so is the service.
pub mod Versions
use zallet.Prelude.{
  ℕ, Bytes, String, str_eq, Bool, true, false, List, [], ◌∷◌, Option, none, some, Result, ok, err,
  ok_or, ◌>>=◌, map_err, if◌then◌else◌,
}
use zallet.Rpc.Error.{ErrorCode, invalid_request, method_not_found}
use zallet.Server.{strip_prefix}

pub data JsonRpcVersion : Type 0 where
  bitcoind lightwalletd two_point_zero unknown : JsonRpcVersion

-- `serde_json::Value` as far as it is told apart, with the rest as its text.
pub data Value : Type 0 where
  null : Value
  bool : Bool → Value
  number string array object : Bytes → Value

-- The text of a `RawValue`.
abbrev pub RawValue : Type 0
RawValue = Bytes

abbrev pub raw_null : RawValue
raw_null = b'n' ∷ b'u' ∷ b'l' ∷ b'l' ∷ []

pub record JsonRpcRequest : Type 0 where
  pub jsonrpc : Option String
  pub method : String
  pub params : Option RawValue
  pub id : Option Value

-- The pattern of a strict 2.0 identifier.
abbrev pub id_of_2 : Option Value → Bool
id_of_2 none = true
id_of_2 (some null) = true
id_of_2 (some (string s)) = true
id_of_2 (some (number n)) = true
id_of_2 _ = false

abbrev pub is_some {ℓ} : {A : Type ℓ} → Option A → Bool
is_some none = false
is_some (some _) = true

unfoldable pub version : JsonRpcRequest → JsonRpcVersion
version r = elim r.jsonrpc [
  | none ↦ if is_some r.params then if is_some r.id then bitcoind else unknown else unknown
  | some s ↦
      if str_eq s "2.0"
      then if id_of_2 r.id then two_point_zero else unknown
      else if str_eq s "1.0"
      then if is_some r.params then if is_some r.id then lightwalletd else unknown else unknown
      else unknown
]

unfoldable pub into_2 : JsonRpcRequest → JsonRpcRequest
into_2 r = record r { jsonrpc = some "2.0" }

pub record JsonRpcResponse : Type 0 where
  pub jsonrpc : Option String
  pub result : Option RawValue
  pub error : Option RawValue
  pub id : Value

abbrev pub or_null : Option RawValue → Option RawValue
or_null none = some raw_null
or_null (some v) = some v

abbrev pub is_2 : Option String → Bool
is_2 none = false
is_2 (some s) = str_eq s "2.0"

-- `none` where an assertion fails.
unfoldable pub into_version : JsonRpcResponse → JsonRpcVersion → Option JsonRpcResponse
into_version r bitcoind =
    some (record r { jsonrpc = none; result = or_null r.result; error = or_null r.error })
into_version r lightwalletd =
    some (record r { jsonrpc = some "1.0"; result = or_null r.result; error = or_null r.error })
into_version r two_point_zero =
    if is_2 r.jsonrpc
    then elim r.error [
      | none ↦ some (record r { result = or_null r.result })
      | some _ ↦ if is_some r.result then none else some r
    ]
    else none
into_version r unknown = some r

-- With the values of the `content-type` header, and the other parts.
pub record HttpRequest (Parts : Type 0) : Type 0 where
  pub content_type : List Bytes
  pub parts : Parts
  pub body : Bytes

pub record HttpResponse (Parts : Type 0) : Type 0 where
  pub status : ℕ
  pub parts : Parts
  pub body : Bytes

pub record Serde : Type 0 where
  pub request_from_slice : Bytes → Option JsonRpcRequest
  pub request_to_vec : JsonRpcRequest → Bytes
  pub response_from_slice : Bytes → Option JsonRpcResponse
  pub response_to_vec : JsonRpcResponse → Bytes
  -- The code of an error object.
  pub error_code : RawValue → Option ErrorCode
  pub to_str : Bytes → Option Bytes

-- "text/plain" and "application/json".
abbrev pub text_plain : Bytes
text_plain = b't' ∷ b'e' ∷ b'x' ∷ b't' ∷ b'/' ∷ b'p' ∷ b'l' ∷ b'a' ∷ b'i' ∷ b'n' ∷ []

abbrev pub application_json : Bytes
application_json =
    b'a' ∷ b'p' ∷ b'p' ∷ b'l' ∷ b'i' ∷ b'c' ∷ b'a' ∷ b't' ∷ b'i' ∷ b'o' ∷ b'n' ∷ b'/' ∷ b'j' ∷ b's'
    ∷ b'o' ∷ b'n' ∷ []

-- The `zcashd` status of an error, for the versions that want it.
unfoldable pub error_status : JsonRpcVersion → Option ErrorCode → ℕ → ℕ
error_status bitcoind (some invalid_request) status = 400
error_status bitcoind (some method_not_found) status = 404
error_status bitcoind (some _) status = 500
error_status lightwalletd (some invalid_request) status = 400
error_status lightwalletd (some method_not_found) status = 404
error_status lightwalletd (some _) status = 500
error_status _ _ status = status

pub data CallError (E : Type 0) : Type 0 where
  panics : CallError E
  service_error : E → CallError E

module _ (serde : Serde) where
  abbrev pub starts_with_text_plain : Bytes → Bool
  starts_with_text_plain value = elim (serde.to_str value) [
    | none ↦ false
    | some s ↦ is_some (strip_prefix text_plain s)
  ]

  unfoldable pub insert_or_replace_content_type_header : List Bytes → List Bytes
  insert_or_replace_content_type_header [] = application_json ∷ []
  insert_or_replace_content_type_header (value ∷ values) =
      if starts_with_text_plain value then application_json ∷ [] else value ∷ values

  abbrev pub error_code_of : JsonRpcResponse → Option ErrorCode
  error_code_of r = elim r.error [ none ↦ none | some e ↦ serde.error_code e ]

  module _ {Parts : Type 0} where
    unfoldable pub request_to_json_rpc_2 : HttpRequest Parts → JsonRpcVersion × HttpRequest Parts
    unfolding version into_2
    request_to_json_rpc_2 request = elim (serde.request_from_slice request.body) [
      | none ↦ (unknown, request)
      | some r ↦ elim (version r) [
        | unknown ↦ (unknown, request)
        | v ↦ (v, record request { body = serde.request_to_vec (into_2 r) })
      ]
    ]

    unfoldable pub response_from_json_rpc_2 :
        JsonRpcVersion → HttpResponse Parts → Option (HttpResponse Parts)
    unfolding error_status into_version
    response_from_json_rpc_2 v response = elim (serde.response_from_slice response.body) [
      | none ↦ some response
      | some r ↦ elim (into_version r v) [
        | none ↦ none
        | some r' ↦ some (record response {
          status = error_status v (error_code_of r) response.status;
          body = serde.response_to_vec r';
        })
      ]
    ]

    unfoldable pub call :
        {E : Type 0}
        → (HttpRequest Parts → Result E (HttpResponse Parts))
        → HttpRequest Parts
        → Result (CallError E) (HttpResponse Parts)
    unfolding insert_or_replace_content_type_header request_to_json_rpc_2 response_from_json_rpc_2
    call service request =
        let fixed = record request {
          content_type = insert_or_replace_content_type_header request.content_type;
        } in
        let versioned = request_to_json_rpc_2 fixed in
        map_err service_error (service versioned.1) >>= λ response.
        ok_or (response_from_json_rpc_2 versioned.0 response) panics
