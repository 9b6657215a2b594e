-- ===== src/Payments/Request.antt =====
-- Exactly which lists of amounts become a request, and which request.
use mathlib.Core.Path.{subst}
use zallet.Prelude.{
  false, List, [], ◌∷◌, Option, none, some, Result, ok, err, ok_or, map_err, Eq, contains, insert,
  ◌≡◌, ◌≢◌, ◌↔◌, refl, arith, inl, inr, Bool-cases, Option-cases, Result-cases,
}
use zallet.Rpc.Error.{RpcError}
use zallet.Payments.{
  AmountParameter, Zip321, optional_memo, parse_recipient, insert_recipient, one_payment,
  payments_from, build_request,
}

ok_or-eq-ok :
    {A : Type 0} (o : Option A) (error : RpcError) (a : A) → ok_or o error ≡ ok a → o ≡ some a
ok_or-eq-ok (some b) error a h = ground arith
ok_or-eq-ok none error a h = cc

map_err-eq-ok :
    {E A : Type 0} (f : E → RpcError) (r : Result E A) (a : A) → map_err f r ≡ ok a → r ≡ ok a
map_err-eq-ok f (ok b) a h = ground arith
map_err-eq-ok f (err error) a h = ground arith

module _ {Address Zatoshis Bytes Memo Payment Request : Type 0} ⦃e : Eq Address⦄
    (z : Zip321 Address Zatoshis Bytes Memo Payment Request) where
  -- What one amount stands for.
  pub record Entry : Type 0 where
    pub address : Address
    pub memo : Option Memo
    pub value : Zatoshis
    pub payment : Payment

  abbrev pub EntryOf : AmountParameter → Entry → Type 0
  EntryOf amount entry =
      (z.parse_address amount.address ≡ some entry.address)
      × (optional_memo z amount.memo ≡ ok entry.memo)
      × (z.zatoshis_from_value amount.amount ≡ ok entry.value)
      × (z.new_payment entry.address entry.value entry.memo ≡ ok entry.payment)

  abbrev pub EntriesOf : List AmountParameter → List Entry → Type 0
  EntriesOf [] [] = Unit {0}
  EntriesOf (amount ∷ amounts) (entry ∷ entries) = EntryOf amount entry × EntriesOf amounts entries
  EntriesOf _ _ = ⊥

  -- No address is one of `seen`, or stands twice.
  abbrev pub AreFresh : List Address → List Entry → Type 0
  AreFresh seen [] = Unit {0}
  AreFresh seen (entry ∷ entries) =
      (contains seen entry.address ≡ false) × AreFresh (entry.address ∷ seen) entries

  -- The total of the values stays in range.
  abbrev pub HasTotal : Zatoshis → List Entry → Type 0
  HasTotal total [] = Unit {0}
  HasTotal total (entry ∷ entries) =
      (sum : Zatoshis) × (z.add_values total entry.value ≡ some sum) × HasTotal sum entries

  abbrev payments_of : List Entry → List Payment
  payments_of [] = []
  payments_of (entry ∷ entries) = entry.payment ∷ payments_of entries

  abbrev pub IsBuilt : List Address → Zatoshis → List AmountParameter → List Payment → Type 0
  IsBuilt seen total amounts payments =
      (entries : List Entry) × EntriesOf amounts entries
      × AreFresh seen entries
      × HasTotal total entries
      × (payments ≡ payments_of entries)

  abbrev Pushes :
      List Address → Zatoshis → AmountParameter → List Address × Zatoshis × Payment → Type 0
  Pushes seen total amount (seen', sum, payment) =
      (entry : Entry) × EntryOf amount entry
      × (contains seen entry.address ≡ false)
      × (z.add_values total entry.value ≡ some sum)
      × (seen' ≡ entry.address ∷ seen)
      × (payment ≡ entry.payment)

  one_payment-Pushes :
      (seen : List Address) (total : Zatoshis) (amount : AmountParameter)
      (r : List Address × Zatoshis × Payment)
      → one_payment z seen total amount ≡ ok r
      → Pushes seen total amount r
  unfolding one_payment parse_recipient insert_recipient insert
  one_payment-Pushes seen total amount (seen', sum, payment) h =
      elim (Option-cases (z.parse_address amount.address)) [
        | inl bad ↦ cc (rw bad at h)
        | inr (addr, parsed) ↦ elim (Bool-cases (contains seen addr)) [
          | inl bad ↦ cc (rw (parsed, bad) at h)
          | inr fresh ↦ elim (Result-cases (optional_memo z amount.memo)) [
            | inr (error, bad) ↦ cc (rw (parsed, fresh, bad) at h)
            | inl (memo, memo_ok) ↦ elim (Result-cases (z.zatoshis_from_value amount.amount)) [
              | inr (error, bad) ↦ cc (rw (parsed, fresh, memo_ok, bad) at h)
              | inl (value, value_ok) ↦ elim (Result-cases (z.new_payment addr value memo)) [
                | inr (error, bad) ↦ cc (rw (parsed, fresh, memo_ok, value_ok, bad) at h)
                | inl (made, made_ok) ↦ elim (Option-cases (z.add_values total value)) [
                  | inl bad ↦ cc (rw (parsed, fresh, memo_ok, value_ok, made_ok, bad) at h)
                  | inr (sum', added) ↦
                      let same = rw (parsed, fresh, memo_ok, value_ok, made_ok, added) at h in
                      (
                        record { address = addr; memo = memo; value = value; payment = made },
                        (parsed, memo_ok, value_ok, made_ok),
                        fresh,
                        cc (added, same),
                        cc same,
                        cc same,
                      )
                ]
              ]
            ]
          ]
        ]
      ]

  payments_from-IsBuilt :
      (seen : List Address) (total : Zatoshis) (amounts : List AmountParameter)
      (payments : List Payment)
      → payments_from z seen total amounts ≡ ok payments
      → IsBuilt seen total amounts payments
  unfolding payments_from
  payments_from-IsBuilt seen total [] payments h = ([], tt, tt, tt, cc h)
  payments_from-IsBuilt seen total (amount ∷ amounts) payments h =
      elim (Result-cases (one_payment z seen total amount)) [
        | inr (error, bad) ↦ cc (rw bad at h)
        | inl ((seen', sum, payment), pushed) ↦
            elim (Result-cases (payments_from z seen' sum amounts)) [
              | inr (error, bad) ↦ cc (rw (pushed, bad) at h)
              | inl (rest, later) ↦
                  let same = rw (pushed, later) at h in
                  let (entry, is, fresh, added, grown, made) =
                    one_payment-Pushes seen total amount (seen', sum, payment) pushed in
                  let (entries, are, fresh', sums, these) =
                    payments_from-IsBuilt seen' sum amounts rest later in
                  (
                    entry ∷ entries,
                    (is, are),
                    (fresh, subst (λ l. AreFresh l entries) grown fresh'),
                    (sum, added, sums),
                    cc (same, made, these),
                  )
            ]
      ]

  IsBuilt-payments_from :
      (amounts : List AmountParameter) (entries : List Entry) (seen : List Address)
      (total : Zatoshis)
      → EntriesOf amounts entries
      → AreFresh seen entries
      → HasTotal total entries
      → payments_from z seen total amounts ≡ ok (payments_of entries)
  unfolding payments_from one_payment parse_recipient insert_recipient insert
  IsBuilt-payments_from [] [] seen total is fresh sums = refl
  IsBuilt-payments_from [] (entry ∷ entries) seen total is fresh sums = absurd is
  IsBuilt-payments_from (amount ∷ amounts) [] seen total is fresh sums = absurd is
  IsBuilt-payments_from (amount ∷ amounts) (entry ∷ entries) seen total
        ((parsed, memo_ok, value_ok, made), are) (fresh, later) (sum, added, sums) =
      rw (parsed, fresh)
        (rw (memo_ok, value_ok)
          (rw (made, added)
            (rw (IsBuilt-payments_from amounts entries (entry.address ∷ seen) sum are later sums)
              refl)))

  -- A list of amounts becomes a request exactly if it is not empty, each amount has an address, a memo
  -- and a value that parse and a payment that zip321 accepts, no address stands twice, the total of the
  -- values stays in range at each amount, and zip321 accepts the payments, in the order of the amounts,
  -- as that request.
  pub build_request_iff :
      (amounts : List AmountParameter) (request : Request)
      → (build_request z amounts ≡ ok request) ↔ (
          (amounts ≢ [])
          × (payments : List Payment) × IsBuilt [] z.zero_value amounts payments
          × (z.new_request payments ≡ ok request))
  unfolding build_request
  build_request_iff [] request = (λ h. cc h, λ (nonempty, _, _, _). absurd (nonempty refl))
  build_request_iff (amount ∷ amounts) request = (
    λ h. elim (Result-cases (payments_from z [] z.zero_value (amount ∷ amounts))) [
      | inr (error, bad) ↦ cc (rw bad at h)
      | inl (payments, good) ↦ (
        λ e. cc e,
        payments,
        payments_from-IsBuilt [] z.zero_value (amount ∷ amounts) payments good,
        map_err-eq-ok _ (z.new_request payments) request (rw good at h),
      )
    ],
    λ (_, payments, (entries, is, fresh, sums, these), made).
        rw (IsBuilt-payments_from (amount ∷ amounts) entries [] z.zero_value is fresh sums)
          (rw (← these, made) refl),
  )
