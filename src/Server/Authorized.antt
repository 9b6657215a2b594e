-- ===== src/Server/Authorized.antt =====
-- Which requests the authorization layer lets through (authorization.rs).
use zallet.Prelude.{
  Bytes, true, List, [], ◌∷◌, ◌++◌, Option, none, some, ==_iff, same, if◌then◌else◌, ◌≡◌, ◌⊎◌, inl,
  inr, refl, arith, sym, ap, ◌∙◌, Bool-cases, Option-cases,
}
use zallet.Server.{
  Codecs, split_once, strip_prefix, basic, PasswordHash, Users, get, RpcAuthSection, unauthorized,
  served, decoded, is_authorized, check, password_of, collect_users, insert_user, new, call,
}
use zallet.Server.PwHash.{Lacks, split_once-append, split_once_inv}

strip_prefix-append : (prefix rest : Bytes) → strip_prefix prefix (prefix ++ rest) ≡ some rest
unfolding strip_prefix
strip_prefix-append [] rest = refl
strip_prefix-append (c ∷ cs) rest = rw ((==_iff c c).1 refl) (strip_prefix-append cs rest)

strip_prefix_inv : (prefix s rest : Bytes) → strip_prefix prefix s ≡ some rest → s ≡ prefix ++ rest
unfolding strip_prefix
strip_prefix_inv [] s rest h = cc h
strip_prefix_inv (c ∷ cs) [] rest h = cc
strip_prefix_inv (c ∷ cs) (x ∷ xs) rest h = ground (arith, ==_iff x c, strip_prefix_inv cs xs rest)

-- The last section for the user.
abbrev pub section_for : Bytes → List (Bytes × RpcAuthSection) → Option (Bytes × RpcAuthSection)
section_for user [] = none
section_for user (a ∷ auth) =
    let later = section_for user auth in
    elim later [ some b ↦ some b | none ↦ if same a.1.user user then some a else none ]

module _ (codecs : Codecs) where
  abbrev pub section_password : Bytes → List (Bytes × RpcAuthSection) → Option PasswordHash
  section_password user auth = elim (section_for user auth) [
    | none ↦ none
    | some a ↦ password_of codecs a
  ]

  -- The cookie goes before the sections.
  abbrev pub credential :
      Bytes → List (Bytes × RpcAuthSection) → Option (Bytes × PasswordHash) → Option PasswordHash
  credential user auth none = section_password user auth
  credential user auth (some (cookie_user, cookie_hash)) =
      if same cookie_user user then some cookie_hash else section_password user auth

  collect_users-get :
      (user : Bytes) (auth : List (Bytes × RpcAuthSection)) (before users : Users)
      → collect_users codecs auth before ≡ some users
      → get user users
        ≡ elim (section_for user auth) [ none ↦ get user before | some a ↦ password_of codecs a ]
  unfolding collect_users get
  collect_users-get user [] before users h = cc h
  collect_users-get user (a ∷ auth) before users h = elim (Option-cases (password_of codecs a)) [
    | inl q ↦ ground (arith, h, q)
    | inr (p, q) ↦
        ground (arith, h, q, collect_users-get user auth (insert_user a.1.user p before) users)
  ]

  new-get :
      (user : Bytes) (auth : List (Bytes × RpcAuthSection)) (cookie : Option (Bytes × PasswordHash))
      (users : Users)
      → new codecs auth cookie ≡ some users
      → get user users ≡ credential user auth cookie
  unfolding new get
  new-get user auth none users h = elim (Option-cases (collect_users codecs auth [])) [
    | inl q ↦ absurd (ground (arith, h, q))
    | inr (u, q) ↦ ground (arith, h, q, collect_users-get user auth [] u q)
  ]
  new-get user auth (some (cookie_user, cookie_hash)) users h =
      elim (Option-cases (collect_users codecs auth [])) [
        | inl q ↦ absurd (ground (arith, h, q))
        | inr (u, q) ↦ ground (arith, h, q, collect_users-get user auth [] u q)
      ]

  -- The header is "Basic " and the encoding of a user without a colon, a colon, and a password.
  pub record IsBasic (auth_header user pass : Bytes) : Type 0 where
    pub encoded : Bytes
    pub bytes : Bytes
    pub header : codecs.to_str auth_header ≡ some (basic ++ encoded)
    pub decodes : codecs.base64_decode encoded ≡ some bytes
    pub text : codecs.from_utf8 bytes ≡ some (user ++ b':' ∷ pass)
    pub no_colon : Lacks b':' user

  IsBasic-decoded :
      (auth_header user pass : Bytes)
      → IsBasic auth_header user pass
      → decoded codecs auth_header ≡ some (user ++ b':' ∷ pass)
  unfolding decoded
  IsBasic-decoded auth_header user pass b =
      ground (arith, b.header, b.decodes, b.text, strip_prefix-append basic b.encoded)

  decoded-IsBasic :
      (auth_header user pass : Bytes)
      → Lacks b':' user
      → decoded codecs auth_header ≡ some (user ++ b':' ∷ pass)
      → IsBasic auth_header user pass
  unfolding decoded
  decoded-IsBasic auth_header user pass l h = elim (Option-cases (codecs.to_str auth_header)) [
    | inl p ↦ absurd (ground (arith, h, p))
    | inr (s, p) ↦ elim (Option-cases (strip_prefix basic s)) [
      | inl q ↦ absurd (ground (arith, h, p, q))
      | inr (encoded, q) ↦ elim (Option-cases (codecs.base64_decode encoded)) [
        | inl r ↦ absurd (ground (arith, h, p, q, r))
        | inr (bytes, r) ↦ record {
          encoded = encoded;
          bytes = bytes;
          header = p ∙ ap some (strip_prefix_inv basic s encoded q);
          decodes = r;
          text = ground (arith, h, p, q, r);
          no_colon = l;
        }
      ]
    ]
  ]

  -- The request names a user whose password it gives.
  abbrev pub Accepted :
      List (Bytes × RpcAuthSection) → Option (Bytes × PasswordHash) → Option Bytes → Type 0
  Accepted auth cookie authorization =
      (auth_header : Bytes) × (user : Bytes) × (pass : Bytes) × (password : PasswordHash)
      × (authorization ≡ some auth_header)
      × IsBasic auth_header user pass
      × (credential user auth cookie ≡ some password)
      × (check codecs password pass ≡ true)

  Accepted-is_authorized :
      (auth : List (Bytes × RpcAuthSection)) (cookie : Option (Bytes × PasswordHash))
      (users : Users) (auth_header : Bytes)
      → new codecs auth cookie ≡ some users
      → Accepted auth cookie (some auth_header)
      → is_authorized codecs users auth_header ≡ true
  unfolding is_authorized
  Accepted-is_authorized auth cookie users auth_header h
        (header, user, pass, password, e, basic_header, c, k) =
      ground (
        arith,
        e,
        k,
        IsBasic-decoded header user pass basic_header,
        split_once-append b':' user pass basic_header.no_colon,
        new-get user auth cookie users h ∙ c,
      )

  is_authorized-Accepted :
      (auth : List (Bytes × RpcAuthSection)) (cookie : Option (Bytes × PasswordHash))
      (users : Users) (auth_header : Bytes)
      → new codecs auth cookie ≡ some users
      → is_authorized codecs users auth_header ≡ true
      → Accepted auth cookie (some auth_header)
  unfolding is_authorized
  is_authorized-Accepted auth cookie users auth_header h k =
      elim (Option-cases (decoded codecs auth_header)) [
        | inl p ↦ absurd (ground (arith, k, p))
        | inr (user_pass, p) ↦ elim (Option-cases (split_once b':' user_pass)) [
          | inl q ↦ absurd (ground (arith, k, p, q))
          | inr ((user, pass), q) ↦ elim (Option-cases (get user users)) [
            | inl r ↦ absurd (ground (arith, k, p, q, r))
            | inr (password, r) ↦
                let (joined, lacks) = split_once_inv b':' user_pass user pass q in
                (
                  auth_header,
                  user,
                  pass,
                  password,
                  refl,
                  decoded-IsBasic auth_header user pass lacks (p ∙ ap some joined),
                  sym (new-get user auth cookie users h) ∙ r,
                  ground (arith, k, p, q, r),
                )
          ]
        ]
      ]

  -- In front of any service, with the users of an accepted configuration: a request reaches the service exactly
  -- if its `Authorization` header is Basic with a user, a colon and a password that the user's credential
  -- checks; that is the cookie's, or else that of the user's last section. The answer is else 401, at
  -- once if there is no header, and behind a delay if there is one.
  pub call-Accepted :
      {Request R : Type 0} (auth : List (Bytes × RpcAuthSection))
      (cookie : Option (Bytes × PasswordHash)) (users : Users) (service : Request → R)
      (authorization : Option Bytes) (request : Request)
      → new codecs auth cookie ≡ some users
      → ((call codecs users service authorization request ≡ served (service request))
          × Accepted auth cookie authorization)
        ⊎ ((call codecs users service authorization request
              ≡ unauthorized (elim authorization [ none ↦ 0 | some _ ↦ 250 ]))
            × ¬ Accepted auth cookie authorization)
  unfolding call
  call-Accepted auth cookie users service none request h =
      inr (refl, λ (header, user, pass, password, e, b, c, k). cc e)
  call-Accepted auth cookie users service (some auth_header) request h =
      elim (Bool-cases (is_authorized codecs users auth_header)) [
        | inl k ↦ inl (rw k refl, is_authorized-Accepted auth cookie users auth_header h k)
        | inr k ↦
            inr (rw k refl, λ a. cc (Accepted-is_authorized auth cookie users auth_header h a, k))
      ]
