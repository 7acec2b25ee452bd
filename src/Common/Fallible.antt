-- ===== src/Common/Fallible.antt =====
-- `do` blocks of functions that may raise and have no state.
use razor_trust.Common.{if◌then◌else◌, Bool}
use razor_trust.Common.Exec.{Exception, Result, ok, err}

infixl 5 ◌>>=◌ ◌>>◌
abbrev pub ◌>>=◌ {ℓ κ} : {A : Type ℓ} {B : Type κ} → Result A → (A → Result B) → Result B
ok a >>= f = f a
err x >>= f = err x

abbrev pub ◌>>◌ {ℓ} : {B : Type ℓ} → Result (Unit {0}) → Result B → Result B
m >> k = m >>= λ _. k

-- `if b: raise x`
abbrev pub refuse_if : Bool → Exception → Result (Unit {0})
refuse_if b x = if b then err x else ok tt
