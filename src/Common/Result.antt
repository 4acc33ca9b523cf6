-- ===== src/Common/Result.antt =====
-- What a function returns that may raise: a value, or the error.
use mathlib.Core.Path.{◌≡◌, refl, ap, ◌∙◌}

pub data Result {ℓ κ} (E : Type ℓ) (A : Type κ) : Type (ℓ ⊔ κ) where
  ok : A → Result E A
  err : E → Result E A

infixl 10 ◌>>=◌ ◌>>◌
abbrev pub ◌>>=◌ {ℓ κ μ} :
    {E : Type ℓ} {A : Type κ} {B : Type μ} → Result E A → (A → Result E B) → Result E B
ok a >>= f = f a
err e >>= f = err e

abbrev pub ◌>>◌ {ℓ κ μ} :
    {E : Type ℓ} {A : Type κ} {B : Type μ} → Result E A → Result E B → Result E B
m >> k = m >>= λ _. k

pub ok_injective {ℓ κ} :
    {E : Type ℓ} {A : Type κ} {a b : A} → ◌≡◌ {A = Result E A} (ok a) (ok b) → a ≡ b
ok_injective h = cc

-- A chain that succeeds has a first part that does, and the rest succeeds on what that gives.
pub >>=-ok {ℓ κ μ} :
    {E : Type ℓ} {A : Type κ} {B : Type μ} {rest : A → Result E B} {last : B}
    → (first : Result E A) → (first >>= rest) ≡ ok last
    → (mid : A) × (rest mid ≡ ok last) × (first ≡ ok mid)
>>=-ok (ok mid) done = (mid, done, refl)
>>=-ok (err why) done = cc

-- The converse: the parts succeed, so the chain does.
pub ok->>= {ℓ κ μ} :
    {E : Type ℓ} {A : Type κ} {B : Type μ} {mid : A} {last : B} (first : Result E A)
    (rest : A → Result E B)
    → first ≡ ok mid
    → rest mid ≡ ok last
    → (first >>= rest) ≡ ok last
ok->>= first rest begun done = ap (λ m. m >>= rest) begun ∙ done
