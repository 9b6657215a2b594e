-- ===== src/Privacy/Lattice.antt =====
-- The policies as sets of permitted leaks, and the laws of `meet`.
use zallet.Prelude.{Bool, true, false, ◌||◌, ◌≡◌, refl, ◌↔◌, arith}
use zallet.Privacy.{
  PrivacyPolicy, full_privacy, allow_revealed_amounts, allow_revealed_recipients,
  allow_revealed_senders, allow_fully_transparent, allow_linking_account_addresses, no_privacy,
  meet, is_compatible_with,
}

-- What a transaction can reveal, as the documentation of the policies lists it.
pub data Leak : Type 0 where
  amounts recipients senders linked_addresses : Leak

-- The leaks that a policy allows, with those that it implies.
unfoldable pub permits : PrivacyPolicy → Leak → Bool
permits full_privacy _ = false
permits allow_revealed_amounts amounts = true
permits allow_revealed_amounts _ = false
permits allow_revealed_recipients amounts = true
permits allow_revealed_recipients recipients = true
permits allow_revealed_recipients _ = false
permits allow_revealed_senders amounts = true
permits allow_revealed_senders senders = true
permits allow_revealed_senders _ = false
permits allow_fully_transparent linked_addresses = false
permits allow_fully_transparent _ = true
permits allow_linking_account_addresses recipients = false
permits allow_linking_account_addresses _ = true
permits no_privacy _ = true

pub permits-meet :
    (p q : PrivacyPolicy) (l : Leak) → permits (meet p q) l ≡ (permits p l || permits q l)
unfolding permits meet
permits-meet p q l = ground arith

-- Policies that permit the same leaks are the same.
pub permits_injective : (p q : PrivacyPolicy) → ((l : Leak) → permits p l ≡ permits q l) → p ≡ q
unfolding permits
permits_injective p q h = ground (arith, h amounts, h recipients, h senders, h linked_addresses)

is_compatible_with→meet : (p q : PrivacyPolicy) → is_compatible_with p q ≡ true → p ≡ meet p q
unfolding is_compatible_with
is_compatible_with→meet p q h = ground arith

meet→is_compatible_with : (p q : PrivacyPolicy) → p ≡ meet p q → is_compatible_with p q ≡ true
unfolding is_compatible_with
meet→is_compatible_with p q h = ground arith

pub is_compatible_with_iff :
    (p q : PrivacyPolicy)
    → (is_compatible_with p q ≡ true) ↔ ((l : Leak) → permits q l ≡ true → permits p l ≡ true)
is_compatible_with_iff p q = (
  λ h l e. rw (is_compatible_with→meet p q h) (ground (arith, permits-meet p q l)),
  λ h.
      meet→is_compatible_with p q
        (permits_injective p (meet p q) (λ l. ground (arith, permits-meet p q l, h l))),
)

-- Every policy is compatible with `FullPrivacy`: the assertion of `enforce_privacy_policy` holds.
pub is_compatible_with_full : (p : PrivacyPolicy) → is_compatible_with p full_privacy ≡ true
is_compatible_with_full p = (is_compatible_with_iff p full_privacy).1 (λ l h. unfold permits in cc)

-- The meet of two policies permits exactly the leaks that one of them permits; `meet` is
-- commutative, associative and idempotent, and has `FullPrivacy` as its unit and `NoPrivacy` as its
-- zero. A policy is compatible with another exactly if it permits all the leaks that the other
-- permits.
pub meet_laws :
    (p q r : PrivacyPolicy)
    → ((l : Leak) → permits (meet p q) l ≡ (permits p l || permits q l))
      × (meet p q ≡ meet q p)
      × (meet (meet p q) r ≡ meet p (meet q r))
      × (meet p p ≡ p)
      × (meet full_privacy p ≡ p)
      × (meet no_privacy p ≡ no_privacy)
      × ((is_compatible_with p q ≡ true) ↔ ((l : Leak) → permits q l ≡ true → permits p l ≡ true))
meet_laws p q r = (
  permits-meet p q,
  permits_injective _ _ (λ l. ground (arith, permits-meet p q l, permits-meet q p l)),
  permits_injective _ _ (λ l. ground (
    arith,
    permits-meet (meet p q) r l,
    permits-meet p q l,
    permits-meet p (meet q r) l,
    permits-meet q r l,
  )),
  permits_injective _ _ (λ l. ground (arith, permits-meet p p l)),
  unfold meet in refl,
  unfold meet in refl,
  is_compatible_with_iff p q,
)
