-- ===== src/App/Results.antt =====
-- crates/app/src/error: the errors of the use-cases, and their result type.
use democrachat.Domain.Membership.{Unmet}
use democrachat.Prelude.{
  ◌≡◌, Bool, true, false, ℕ, Option, none, some, List, list_eq, nat_eq, pair_eq, subst, triple_eq,
  inl, inr, refl, ◌⊎◌,
}
use democrachat.Prelude.Std.{Text}

pub data ProposeError : Type 0 where
  no_such_user : Text → ProposeError
  no_such_server : Text → ProposeError
  not_a_citizen not_governed not_allowed_in_phase : ProposeError

pub data VoteError : Type 0 where
  no_such_user : Text → VoteError
  no_such_user_id : ℕ → VoteError
  no_such_proposal : ℕ → VoteError
  not_a_citizen closed : VoteError

pub data RegisterError : Type 0 where
  empty_handle : RegisterError
  handle_taken : Text → RegisterError

pub data EnfranchiseError : Type 0 where
  no_such_user : Text → EnfranchiseError
  no_such_server : Text → EnfranchiseError
  not_a_member : Text → EnfranchiseError
  already_citizen : Text → EnfranchiseError

pub data EnfranchiseOutcome : Type 0 where
  admitted : EnfranchiseOutcome
  not_eligible : List Unmet → EnfranchiseOutcome
  rate_capped : (admitted_this_window : ℕ) → EnfranchiseOutcome

pub data JoinError : Type 0 where
  no_such_user : Text → JoinError
  no_such_server : Text → JoinError
  already_member : Text → JoinError

pub data FoundError : Type 0 where
  no_such_user : Text → FoundError
  slug_taken : Text → FoundError
  empty_name founder_barred : FoundError

pub data InviteError : Type 0 where
  no_such_user : Text → InviteError
  no_such_server : Text → InviteError
  not_member : Text → InviteError
  closed_to : Text → InviteError
  already_member : Text → InviteError
  invalid_code : InviteError

-- `Result<A, E>`.
pub data Result {ℓ κ} (E : Type ℓ) (A : Type κ) : Type (ℓ ⊔ κ) where
  ok : A → Result E A
  err : E → Result E A

infixl 5 ◌>>=◌ ◌>>◌
abbrev pub ◌>>=◌ {ℓ κ ι} :
    {E : Type ℓ} {A : Type κ} {B : Type ι} → Result E A → (A → Result E B) → Result E B
ok a >>= f = f a
err e >>= f = err e

abbrev pub ◌>>◌ {ℓ ι} : {E : Type ℓ} {B : Type ι} → Result E (Unit {0}) → Result E B → Result E B
m >> k = m >>= λ _. k

-- `ok_or`.
abbrev pub ok_or {ℓ κ} : {E : Type ℓ} {A : Type κ} → Option A → E → Result E A
ok_or none e = err e
ok_or (some a) e = ok a

-- An early return of an error where a test holds.
abbrev pub fail_if {ℓ} : {E : Type ℓ} → Bool → E → Result E (Unit {0})
fail_if true e = err e
fail_if false e = ok tt

abbrev result_or {ℓ κ} : {E : Type ℓ} {A : Type κ} → A → Result E A → A
result_or a (ok b) = b
result_or a (err _) = a

pub ok_inj {ℓ κ} : {E : Type ℓ} {A : Type κ} {a b : A} → ◌≡◌ {A = Result E A} (ok a) (ok b) → a ≡ b
ok_inj {a} h = λ i. result_or a (h i)

-- What holds of the value of a use-case that ended well.
abbrev pub Holds {ℓ κ ι} : {E : Type ℓ} {A : Type κ} → (A → Type ι) → Result E A → Type ι
Holds P (ok a) = P a
Holds P (err e) = Unit

pub of_Holds {ℓ κ ι} :
    {E : Type ℓ} {A : Type κ} (P : A → Type ι) (r : Result E A) (a : A) → Holds P r → r ≡ ok a → P a
of_Holds P r a h e = subst (Holds P) e h

pub Result-cases {ℓ κ} :
    {E : Type ℓ} {A : Type κ} (r : Result E A) → ((e : E) × (r ≡ err e)) ⊎ ((a : A) × (r ≡ ok a))
Result-cases (ok a) = inr (a, refl)
Result-cases (err e) = inl (e, refl)
