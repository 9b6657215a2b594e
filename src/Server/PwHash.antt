-- ===== src/Server/PwHash.antt =====
-- The texts of password hashes, which an operator puts in the configuration (authorization.rs).
use zallet.Prelude.{
  ℕ, Bytes, true, false, [], ◌∷◌, ◌++◌, length, Option, none, some, ◌==◌, ==_iff, same_iff, ◌≡◌,
  refl, sym, ap, Bool-cases, Option-cases, inl, inr,
}
use zallet.Server.{
  Codecs, split_once, output_size, from_str, to_string, from_bare, check, hash_password,
  password_of,
}

-- A byte that a text does not have.
abbrev pub Lacks : ℕ → Bytes → Type 0
Lacks c [] = Unit {0}
Lacks c (x ∷ xs) = ((x == c) ≡ false) × Lacks c xs

pub split_once-append :
    (c : ℕ) (before after : Bytes)
    → Lacks c before
    → split_once c (before ++ c ∷ after) ≡ some (before, after)
unfolding split_once
split_once-append c [] after l = rw ((==_iff c c).1 refl) refl
split_once-append c (x ∷ before) after (h, l) = rw (h, split_once-append c before after l) refl

pub split_once_inv :
    (c : ℕ) (s before after : Bytes)
    → split_once c s ≡ some (before, after)
    → (s ≡ before ++ c ∷ after) × Lacks c before
unfolding split_once
split_once_inv c [] before after h = cc
split_once_inv c (x ∷ xs) before after h = elim (Bool-cases (x == c)) [
  | inl e ↦
      let h' : ◌≡◌ {A = Option (Bytes × Bytes)} (some ([], xs)) (some (before, after)) =
        rw e at h in
      let b : ◌≡◌ {A = Bytes} [] before = cc h' in
      let a : xs ≡ after = cc h' in (rw (sym b, sym a, (==_iff x c).0 e) refl, rw (sym b) tt)
  | inr e ↦ elim (Option-cases (split_once c xs)) [
    | inl q ↦ absurd (clash (rw (e, q) at h))
    | inr ((b, a), q) ↦
        let h' : ◌≡◌ {A = Option (Bytes × Bytes)} (some (x ∷ b, a)) (some (before, after)) =
          rw (e, q) at h in
        let (same_text, lacks) = split_once_inv c xs b a q in
        let p : ◌≡◌ {A = Bytes} (x ∷ b) before = cc h' in
        let r : a ≡ after = cc h' in
        (rw (sym p, sym r) (ap (λ (t : Bytes). x ∷ t) same_text), rw (sym p) (e, lacks))
  ]
]
  where
    clash : ◌≡◌ {A = Option (Bytes × Bytes)} none (some (before, after)) → ⊥
    clash e = cc e

module _ (codecs : Codecs) where
  -- A hash that `from_bare` makes checks its own password, and as a text it is parsed back to itself, so that a
  -- section with the text is the same as one with the password. The hexadecimal encoding is taken to
  -- be invertible and to have no `$`, and HMAC-SHA-256 to have 32 bytes.
  pub from_bare-from_str :
      (random password user : Bytes)
      → ((b : Bytes) → codecs.hex_decode (codecs.hex_encode b) ≡ some b)
      → ((b : Bytes) → Lacks b'$' (codecs.hex_encode b))
      → ((key message : Bytes) → length (codecs.hmac key message) ≡ output_size)
      → (check codecs (from_bare codecs random password) password ≡ true)
        × (from_str codecs (to_string codecs (from_bare codecs random password))
            ≡ some (from_bare codecs random password))
        × (password_of codecs (
          random,
          record {
            user = user;
            password = none;
            pwhash = some (to_string codecs (from_bare codecs random password));
          },
        )
            ≡ password_of codecs
                (random, record { user = user; password = some password; pwhash = none }))
  unfolding password_of check from_bare hash_password to_string from_str
  from_bare-from_str random password user hex lacks output =
      let salt = codecs.hex_encode random in
      let hash = codecs.hmac salt password in
      let parsed : from_str codecs (to_string codecs (from_bare codecs random password))
          ≡ some (from_bare codecs random password) =
        rw
          (
            split_once-append b'$' salt (codecs.hex_encode hash) (lacks random),
            hex hash,
            (==_iff (length hash) output_size).1 (output salt password),
          )
          refl in
      ((same_iff hash hash).1 refl, parsed, parsed)
