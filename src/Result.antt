-- ===== src/Result.antt =====
-- Outcomes of code that may raise.
use Prim.Native.Nat.{ℕ}
use opendps.Prelude.{◌≡◌, ◌⊎◌, inl, inr, refl, Bool, true, false, Option, none, some}

-- The exceptions that the models tell apart.
pub data Error : Type 0 where
  key_error value_error type_error zero_division permanent_error temporary_error : Error
  attribute_error connection_error : Error
  -- an `ApiException` of the Kubernetes client, with its HTTP status
  api_error : ℕ → Error

pub data Result {ℓ} (A : Type ℓ) : Type ℓ where
  raise : Error → Result A
  ok : A → Result A

-- `d[k]`
abbrev pub or_raise {ℓ} : {A : Type ℓ} → Error → Option A → Result A
or_raise e none = raise e
or_raise e (some a) = ok a

-- `if failed: raise error`
abbrev pub raise_if : Bool → Error → Result (Unit {0})
raise_if true e = raise e
raise_if false e = ok tt

-- What follows a call, on its value; an exception skips it.
infixl 5 ◌>>=◌
abbrev pub ◌>>=◌ {ℓ κ} : {A : Type ℓ} → {B : Type κ} → Result A → (A → Result B) → Result B
raise e >>= rest = raise e
ok value >>= rest = rest value

infixl 5 ◌>>◌
abbrev pub ◌>>◌ {κ} : {B : Type κ} → Result (Unit {0}) → Result B → Result B
raise e >> rest = raise e
ok _ >> rest = rest

-- A computation that returns did not raise.
pub >>=-eq-ok {ℓ κ} :
    {A : Type ℓ}
    → {B : Type κ} → (call : Result A) (rest : A → Result B) → {result : B}
    → call >>= rest ≡ ok result
    → (value : A) × (call ≡ ok value) × (rest value ≡ ok result)
>>=-eq-ok (raise e) rest h = cc
>>=-eq-ok (ok value) rest h = (value, refl, h)

pub ok-injective {ℓ} : {A : Type ℓ} {a b : A} → ok a ≡ ok b → a ≡ b
ok-injective h = cc

pub raise-ne-ok {ℓ} : {A : Type ℓ} {e : Error} {a : A} → raise e ≡ ok a → ⊥
raise-ne-ok h = cc

pub Result-cases {ℓ} :
    {A : Type ℓ} (r : Result A) → ((e : Error) × (r ≡ raise e)) ⊎ ((a : A) × (r ≡ ok a))
Result-cases (raise e) = inl (e, refl)
Result-cases (ok a) = inr (a, refl)
