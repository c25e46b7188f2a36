-- ===== src/Base/Results.antt =====
-- `anyhow::Result`: a value, or an error with the outermost message. The arguments that a message
-- interpolates are left out of it.
use mathlib.Core.Path.{◌≡◌, refl}
use mathlib.Core.Logic.{◌⊎◌, inl, inr}
use mathlib.Core.Bool.{Bool, true, false}
use mathlib.Core.Option.{Option, none, some}
use Prim.Native.String.{String}

pub data Result {ℓ} (A : Type ℓ) : Type ℓ where
  ok : A → Result A
  err : String → Result A

module _ {ℓ κ} {A : Type ℓ} {B : Type κ} where
  infixl 5 ◌>>=◌
  -- `?` hands an error on.
  abbrev pub ◌>>=◌ : Result A → (A → Result B) → Result B
  err message >>= next = err message
  ok value >>= next = next value

  -- Where the whole returned a value, so did the first part.
  pub >>=-eq-ok :
      (first : Result A) (next : A → Result B) {end : B}
      → first >>= next ≡ ok end
      → (value : A) × (first ≡ ok value) × (next value ≡ ok end)
  >>=-eq-ok (err message) next e = cc
  >>=-eq-ok (ok value) next e = (value, refl, e)

infixl 5 ◌>>◌
abbrev pub ◌>>◌ {ℓ} : {B : Type ℓ} → Result (Unit {0}) → Result B → Result B
first >> then_ = first >>= λ done_. then_

-- `.context(…)` on a result, and on an `Option`.
abbrev pub context {ℓ} : {A : Type ℓ} → String → Result A → Result A
context message (ok a) = ok a
context message (err e) = err message

abbrev pub expect_some {ℓ} : {A : Type ℓ} → String → Option A → Result A
expect_some message (some a) = ok a
expect_some message none = err message

-- `if … { bail!(…) }`
abbrev pub bail_if : Bool → String → Result (Unit {0})
bail_if true message = err message
bail_if false message = ok tt

abbrev pub is_ok {ℓ} : {A : Type ℓ} → Result A → Bool
is_ok (ok a) = true
is_ok (err e) = false

pub Result-cases {ℓ} :
    {A : Type ℓ} (r : Result A) → ((a : A) × (r ≡ ok a)) ⊎ ((e : String) × (r ≡ err e))
Result-cases (ok a) = inl (a, refl)
Result-cases (err e) = inr (e, refl)
