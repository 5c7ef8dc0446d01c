-- ===== src/Prelude/Ending.antt =====
-- A computation ends, without a fault, with a value that has a property.
use mathlib.Core.Path.{◌≡◌, refl}
use mathlib.Core.Bool.{Bool, true, false}
use mathlib.Core.Option.{Option, some}
use lmdb_js.Prelude.Tests.{if◌then◌else◌, ◌>>=◌}

pub data Ends {ℓ} {A : Type ℓ} (P : A → Type 0) : Option A → Type ℓ where
  ends : {a : A} → P a → Ends P (some a)

module _ {ℓ} {A : Type ℓ} {P : A → Type 0} where
  pub Ends-bind {κ} :
      {B : Type κ} {Q : B → Type 0} {o : Option A} {f : A → Option B}
      → Ends P o
      → ((a : A) → P a → Ends Q (f a))
      → Ends Q (o >>= f)
  Ends-bind (ends p) k = k _ p

  pub Ends-map : {Q : A → Type 0} {o : Option A} → Ends P o → ((a : A) → P a → Q a) → Ends Q o
  Ends-map (ends p) k = ends (k _ p)

  pub Ends-if :
      {x y : Option A} (b : Bool)
      → (b ≡ true → Ends P x)
      → (b ≡ false → Ends P y)
      → Ends P (if b then x else y)
  Ends-if true p q = p refl
  Ends-if false p q = q refl

  pub Ends-inv : {o : Option A} → Ends P o → (a : A) × (o ≡ some a) × P a
  Ends-inv (ends p) = (_, refl, p)
