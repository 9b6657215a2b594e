-- ===== src/Server/HttpRequest/Versions.antt =====
-- What a client of each version of JSON-RPC gets (http_request_compatibility.rs).
use zallet.Prelude.{
  true, Option, none, some, Result, ok, ◌≡◌, ◌≢◌, Option-cases, ◌⊎◌, inl, inr, refl, arith,
}
use zallet.Server.HttpRequest.{
  JsonRpcVersion, bitcoind, lightwalletd, two_point_zero, unknown, JsonRpcRequest, version, into_2,
  RawValue, raw_null, JsonRpcResponse, is_2, is_some, or_null, into_version, HttpRequest,
  HttpResponse, Serde, error_status, insert_or_replace_content_type_header, error_code_of,
  request_to_json_rpc_2, response_from_json_rpc_2, call,
}

-- A response with a result or an error, not both.
abbrev pub IsResponse2 : JsonRpcResponse → Type 0
IsResponse2 r = (is_2 r.jsonrpc ≡ true) × ((r.result ≡ none) ⊎ (r.error ≡ none))

-- The shape that each version wants: in 1.x both keys are there, and one of them is null; in 2.0 exactly one
-- is there.
abbrev pub HasBoth : JsonRpcResponse → Type 0
HasBoth r =
    (result : RawValue) × (error : RawValue) × (r.result ≡ some result)
    × (r.error ≡ some error)
    × ((result ≡ raw_null) ⊎ (error ≡ raw_null))

abbrev pub HasOne : JsonRpcResponse → Type 0
HasOne r =
    ((is_some r.result ≡ true) × (r.error ≡ none)) ⊎ ((r.result ≡ none) × (is_some r.error ≡ true))

abbrev pub IsResponse : JsonRpcVersion → JsonRpcResponse → Type 0
IsResponse bitcoind r = (r.jsonrpc ≡ none) × HasBoth r
IsResponse lightwalletd r = (r.jsonrpc ≡ some "1.0") × HasBoth r
IsResponse two_point_zero r = (is_2 r.jsonrpc ≡ true) × HasOne r
IsResponse unknown r = Unit {0}

abbrev pub Keeps : Option RawValue → Option RawValue → Type 0
Keeps none after = Unit {0}
Keeps (some v) after = after ≡ some v

-- The same identifier, and the same result or error.
pub record SameAnswer (before after : JsonRpcResponse) : Type 0 where
  pub id : after.id ≡ before.id
  pub result : Keeps before.result after.result
  pub error : Keeps before.error after.error

or_null-both :
    (result error : Option RawValue)
    → (result ≡ none) ⊎ (error ≡ none)
    → (r : RawValue) × (e : RawValue) × (or_null result ≡ some r)
      × (or_null error ≡ some e)
      × ((r ≡ raw_null) ⊎ (e ≡ raw_null))
or_null-both none none h = (raw_null, raw_null, refl, refl, inl refl)
or_null-both none (some e) h = (raw_null, e, refl, refl, inl refl)
or_null-both (some r) none h = (r, raw_null, refl, refl, inr refl)
or_null-both (some r) (some e) h = ground (arith, h)

or_null-Keeps : (v : Option RawValue) → Keeps v (or_null v)
or_null-Keeps none = tt
or_null-Keeps (some v) = refl

or_null-is_some : (v : Option RawValue) → is_some (or_null v) ≡ true
or_null-is_some none = refl
or_null-is_some (some v) = refl

self-Keeps : (v : Option RawValue) → Keeps v v
self-Keeps none = tt
self-Keeps (some v) = refl

into_version_lem :
    (v : JsonRpcVersion) (r : JsonRpcResponse)
    → IsResponse2 r
    → (r' : JsonRpcResponse) × (into_version r v ≡ some r') × IsResponse v r' × SameAnswer r r'
unfolding into_version
into_version_lem bitcoind r (two, one) = (
  _,
  refl,
  (refl, or_null-both r.result r.error one),
  record { id = refl; result = or_null-Keeps r.result; error = or_null-Keeps r.error },
)
into_version_lem lightwalletd r (two, one) = (
  _,
  refl,
  (refl, or_null-both r.result r.error one),
  record { id = refl; result = or_null-Keeps r.result; error = or_null-Keeps r.error },
)
into_version_lem two_point_zero r (two, one) = elim (Option-cases r.error) [
  | inl e ↦ (
    record r { result = or_null r.result },
    ground (arith, two, e),
    (two, inl (or_null-is_some r.result, e)),
    record { id = refl; result = or_null-Keeps r.result; error = self-Keeps r.error },
  )
  | inr (v, e) ↦
      let no_result : r.result ≡ none = ground (arith, one, e) in
      (
        r,
        ground (arith, two, e, no_result),
        (two, inr (no_result, ground (arith, e))),
        record { id = refl; result = self-Keeps r.result; error = self-Keeps r.error },
      )
]
into_version_lem unknown r h =
    (r, refl, tt, record { id = refl; result = self-Keeps r.result; error = self-Keeps r.error })

module _ (serde : Serde) {Parts E : Type 0}
    (service : HttpRequest Parts → Result E (HttpResponse Parts)) where
  -- The request that the service gets: as 2.0, with the header fixed.
  abbrev pub forwarded : HttpRequest Parts → JsonRpcRequest → HttpRequest Parts
  forwarded request r = record request {
    content_type = insert_or_replace_content_type_header serde request.content_type;
    body = serde.request_to_vec (record r { jsonrpc = some "2.0" });
  }

  request_to_json_rpc_2_lem :
      (request : HttpRequest Parts) (r : JsonRpcRequest)
      → serde.request_from_slice request.body ≡ some r
      → version r ≢ unknown
      → request_to_json_rpc_2 serde request ≡ (
        version r,
        record request { body = serde.request_to_vec (record r { jsonrpc = some "2.0" }) },
      )
  unfolding request_to_json_rpc_2 into_2
  request_to_json_rpc_2_lem request r p n = go (version r) refl n
    where
      go :
          (v : JsonRpcVersion)
          → version r ≡ v
          → v ≢ unknown
          → request_to_json_rpc_2 serde request ≡ (
            version r,
            record request { body = serde.request_to_vec (record r { jsonrpc = some "2.0" }) },
          )
      go bitcoind e h = ground (arith, p, e)
      go lightwalletd e h = ground (arith, p, e)
      go two_point_zero e h = ground (arith, p, e)
      go unknown e h = absurd (h refl)

  response_from_json_rpc_2_lem :
      (v : JsonRpcVersion) (response : HttpResponse Parts) (reply reply' : JsonRpcResponse)
      → serde.response_from_slice response.body ≡ some reply
      → into_version reply v ≡ some reply'
      → response_from_json_rpc_2 serde v response
        ≡ some (record response {
          status = error_status v (error_code_of serde reply) response.status;
          body = serde.response_to_vec reply';
        })
  unfolding response_from_json_rpc_2
  response_from_json_rpc_2_lem v response reply reply' q e = ground (arith, q, e)

  -- For a request of a known version: the service gets it as a 2.0 request with the same method, parameters and
  -- identifier. If its answer is a 2.0 response with no more than one of result and error, then the client
  -- gets a response in the shape of its own version, with the same identifier and the same result or
  -- error, under the status that `zcashd` has for the error code if the version is 1.x.
  pub call-IsResponse :
      (request : HttpRequest Parts) (r : JsonRpcRequest) (response : HttpResponse Parts)
      (reply : JsonRpcResponse)
      → serde.request_from_slice request.body ≡ some r
      → version r ≢ unknown
      → service (forwarded request r) ≡ ok response
      → serde.response_from_slice response.body ≡ some reply
      → IsResponse2 reply
      → (reply' : JsonRpcResponse) × (call serde service request
          ≡ ok (record response {
            status = error_status (version r) (error_code_of serde reply) response.status;
            body = serde.response_to_vec reply';
          }))
        × IsResponse (version r) reply'
        × SameAnswer reply reply'
  unfolding call
  call-IsResponse request r response reply p n served q two =
      let (reply', e, shape, same_answer) = into_version_lem (version r) reply two in
      (
        reply',
        rw
            (
              request_to_json_rpc_2_lem
                  (record request {
                    content_type = insert_or_replace_content_type_header serde request.content_type;
                  })
                  r p n,
              served,
              response_from_json_rpc_2_lem (version r) response reply reply' q e,
            )
            refl,
        shape,
        same_answer,
      )
