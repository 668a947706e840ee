-- ===== src/Host/Monad.antt =====
-- Code that talks to a host: it sees and changes the host's state, and leaves a log of what it
-- changed, newest last. The log also holds the updates of Kubernetes objects, of a type O.
use libvirt_operator.Prelude.{
  List, [], ◌∷◌, ◌++◌, ◌≡◌, ◌≢◌, refl, Bool, true, false, if◌then◌else◌, arith, ◌∙◌,
}
use libvirt_operator.Outcome.{Outcome, Error, ok, err, panic, hang}
use libvirt_operator.Host.{Call}

-- What a run does to the world: a call of the host, an update or a status update of an object.
pub data Event (O : Type 0) : Type 0 where
  host_call : Call → Event O
  update : O → Event O
  status_update : O → Event O

pub record World (S O : Type 0) : Type 0 where
  pub host : S
  pub log : List (Event O)

abbrev pub M : Type 0 → Type 0 → Type 0 → Type 0
M S O A = World S O → Outcome A × World S O

-- What Go code sees of a call whose error it examines; a panic is not seen.
pub data Attempt (A : Type 0) : Type 0 where
  success : A → Attempt A
  failure : Error → Attempt A

module _ {S O A : Type 0} where
  abbrev pub pure : A → M S O A
  pure a w = (ok a, w)

  abbrev pub raise : Error → M S O A
  raise e w = (err e, w)

  abbrev pub lift : Outcome A → M S O A
  lift r w = (r, w)

  abbrev pub query : (S → Outcome A) → M S O A
  query f w = (f w.host, w)

  abbrev pub change : Call → (S → Outcome A × S) → M S O A
  change c f w = let (r, h) = f w.host in (r, record { host = h; log = w.log ++ host_call c ∷ [] })

  abbrev pub attempt : M S O A → M S O (Attempt A)
  attempt m w =
      let (r, w') = m w in
      elim r [
        | ok a ↦ (ok (success a), w')
        | err e ↦ (ok (failure e), w')
        | panic ↦ (panic, w')
        | hang ↦ (hang, w')
      ]

infixl 5 ◌>>=◌ ◌>>◌
abbrev pub ◌>>=◌ : {S O A B : Type 0} → M S O A → (A → M S O B) → M S O B
◌>>=◌ m f w =
    let (r, w') = m w in
    elim r [ ok a ↦ f a w' | err e ↦ (err e, w') | panic ↦ (panic, w') | hang ↦ (hang, w') ]

abbrev pub ◌>>◌ : {S O A B : Type 0} → M S O A → M S O B → M S O B
m >> k = m >>= λ _. k

-- A statement about a run that begins with a call which changes nothing: it holds if it holds after
-- each value and at each way to stop.
pub lift_cases {ℓ} :
    {S O A B : Type 0} (P : Outcome B × World S O → Type ℓ) (r : Outcome A) (k : A → M S O B)
    (w : World S O)
    → ((stop : Outcome B) → ((b : B) → stop ≢ ok b) → P (stop, w))
    → ((a : A) → r ≡ ok a → P (k a w))
    → P ((lift r >>= k) w)
lift_cases P (ok a) k w stop go = go a refl
lift_cases P (err e) k w stop go = stop (err e) (λ b h. cc)
lift_cases P panic k w stop go = stop panic (λ b h. cc)
lift_cases P hang k w stop go = stop hang (λ b h. cc)

-- The same for a call whose error is examined.
pub attempt_cases {ℓ} :
    {S O A B : Type 0} (P : Outcome B × World S O → Type ℓ) (r : Outcome A)
    (k : Attempt A → M S O B) (w : World S O)
    → ((stop : Outcome B) → ((b : B) → stop ≢ ok b) → P (stop, w))
    → ((e : Error) → r ≡ err e → P (k (failure e) w))
    → ((a : A) → r ≡ ok a → P (k (success a) w))
    → P ((attempt (lift r) >>= k) w)
attempt_cases P (ok a) k w stop bad go = go a refl
attempt_cases P (err e) k w stop bad go = bad e refl
attempt_cases P panic k w stop bad go = stop panic (λ b h. cc)
attempt_cases P hang k w stop bad go = stop hang (λ b h. cc)

-- The same for a run that may change the world.
pub bind_cases {ℓ} :
    {S O A B : Type 0} (P : Outcome B × World S O → Type ℓ) (m : M S O A) (k : A → M S O B)
    (w : World S O)
    → ((stop : Outcome B) → ((b : B) → stop ≢ ok b) → P (stop, (m w).1))
    → ((a : A) → (m w).0 ≡ ok a → P (k a (m w).1))
    → P ((m >>= k) w)
bind_cases P m k w stop go = lift_cases P (m w).0 k (m w).1 stop go

-- A run that depends on a test.
pub if_cases {ℓ} :
    {S O A : Type 0} (P : Outcome A × World S O → Type ℓ) (b : Bool) (m n : M S O A) (w : World S O)
    → (b ≡ true → P (m w))
    → (b ≡ false → P (n w))
    → P ((if b then m else n) w)
if_cases P true m n w first second = first refl
if_cases P false m n w first second = second refl

-- A run goes on with the value of its first part.
pub bind_ok :
    {S O A B : Type 0} (m : M S O A) (f : A → M S O B) (w : World S O) (a : A)
    → (m w).0 ≡ ok a
    → (m >>= f) w ≡ f a (m w).1
bind_ok m f w a h = ground (arith, h)

-- What both parts of a run leave as it was, the run leaves so.
pub view-bind {ℓ} :
    {S O A B : Type 0} {X : Type ℓ} (view : World S O → X) (m : M S O A) (k : A → M S O B)
    (w : World S O)
    → view (m w).1 ≡ view w
    → ((a : A) (w' : World S O) → view (k a w').1 ≡ view w')
    → view ((m >>= k) w).1 ≡ view w
view-bind view m k w first rest =
    bind_cases (λ p. view p.1 ≡ view w) m k w (λ stop _. first) (λ a _. rest a (m w).1 ∙ first)
