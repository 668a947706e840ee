-- ===== src/Outcome.antt =====
-- Errors of the operator and the outcome of a Go function: a value, an error, a panic, or
-- no end within the rounds that the caller of a loop allows.
-- An error is a libvirt error with its code (go-libvirt's libvirt.Error), an error of the Kubernetes
-- API, or one made by errors.New with a message of this repository.
use libvirt_operator.Prelude.{
  List, [], String, Bool, true, false, ◌≡◌, ◌⊎◌, inl, inr, refl, Option, none, some,
}

-- The error numbers of go-libvirt that the source tests for.
pub data Code : Type 0 where
  err_no_domain err_no_storage_pool err_no_storage_vol err_no_network err_no_node_device : Code
  err_other : Code

pub data Error : Type 0 where
  libvirt : Code → String → Error
  not_found : String → Error
  api : String → Error
  message : String → Error

-- err.Error()
abbrev pub error_text : Error → String
error_text (libvirt c m) = m
error_text (not_found m) = m
error_text (api m) = m
error_text (message m) = m

-- The code of a libvirt error, if the error is one.
abbrev pub has_code : Code → Error → Bool
has_code err_no_domain (libvirt err_no_domain m) = true
has_code err_no_storage_pool (libvirt err_no_storage_pool m) = true
has_code err_no_storage_vol (libvirt err_no_storage_vol m) = true
has_code err_no_network (libvirt err_no_network m) = true
has_code err_no_node_device (libvirt err_no_node_device m) = true
has_code _ _ = false

pub data Outcome {ℓ} (A : Type ℓ) : Type ℓ where
  ok : A → Outcome A
  err : Error → Outcome A
  panic : Outcome A
  hang : Outcome A

infixl 5 ◌>>=◌
abbrev pub ◌>>=◌ {ℓ κ} : {A : Type ℓ} {B : Type κ} → Outcome A → (A → Outcome B) → Outcome B
hang >>= next = hang
panic >>= next = panic
err why >>= next = err why
ok value >>= next = next value

infixl 5 ◌>>◌
abbrev pub ◌>>◌ {ℓ} : {B : Type ℓ} → Outcome (Unit {0}) → Outcome B → Outcome B
m >> k = m >>= λ _. k

-- A pointer that is dereferenced.
abbrev pub deref {ℓ} : {A : Type ℓ} → Option A → Outcome A
deref none = panic
deref (some a) = ok a

pub Outcome-cases {ℓ} :
    {A : Type ℓ} (m : Outcome A)
    → ((a : A) × (m ≡ ok a)) ⊎ (((e : Error) × (m ≡ err e)) ⊎ ((m ≡ panic) ⊎ (m ≡ hang)))
Outcome-cases (ok a) = inl (a, refl)
Outcome-cases (err e) = inr (inl (e, refl))
Outcome-cases panic = inr (inr (inl refl))
Outcome-cases hang = inr (inr (inr refl))

-- The list that a call gives, or none.
abbrev pub or_empty {ℓ} : {A : Type ℓ} → Outcome (List A) → List A
or_empty (ok xs) = xs
or_empty _ = []

-- Whether a call returned to its caller, with a value or an error.
abbrev pub Returns {ℓ} : {A : Type ℓ} → Outcome A → Type 0
Returns (ok a) = Unit
Returns (err e) = Unit
Returns panic = ⊥
Returns hang = ⊥

-- A chain of calls that gives a value has a value at its first call.
pub >>=-eq-ok {ℓ κ} :
    {A : Type ℓ} {B : Type κ} (first : Outcome A) (next : A → Outcome B) {result : B}
    → (first >>= next) ≡ ok result
    → (value : A) × (first ≡ ok value) × (next value ≡ ok result)
>>=-eq-ok hang next done = cc
>>=-eq-ok panic next done = cc
>>=-eq-ok (err why) next done = cc
>>=-eq-ok (ok value) next done = (value, refl, done)

pub ok-injective {ℓ} : {A : Type ℓ} {a b : A} → ok a ≡ ok b → a ≡ b
ok-injective h = cc
