-- ===== src/Run.antt =====
-- How a call ends: a value, a fault (a read or write outside an array, a failed `assert` or an
-- `abort`), or the end of the fuel of a loop; and the rules for calls that end well.
use zeek_snippets.Prelude.{◌≡◌, refl, Bool, true, false, Option, none, some, if◌then◌else◌}

-- `out_of_bounds`: undefined behaviour by an index; `aborted`: `assert` or `abort`.
pub data Fault : Type 0 where
  out_of_bounds aborted : Fault

pub data Run {ℓ} (A : Type ℓ) : Type ℓ where
  ok : A → Run A
  fault : Fault → Run A
  out_of_fuel : Run A

infixl 5 ◌>>=◌ ◌>>◌
abbrev pub ◌>>=◌ {ℓ κ} : {A : Type ℓ} {B : Type κ} → Run A → (A → Run B) → Run B
ok a >>= f = f a
fault e >>= f = fault e
out_of_fuel >>= f = out_of_fuel

abbrev pub ◌>>◌ {ℓ} : {B : Type ℓ} → Run (Unit {0}) → Run B → Run B
m >> k = m >>= λ _. k

-- The value of a cell that must be there.
abbrev pub cell {ℓ} : {A : Type ℓ} → Option A → Run A
cell (some a) = ok a
cell none = fault out_of_bounds

-- `assert(b)`.
abbrev pub ensure : Bool → Run (Unit {0})
ensure true = ok tt
ensure false = fault aborted

-- The run ends with a value that satisfies `P`.
pub data Returns {ℓ κ} {A : Type ℓ} (P : A → Type κ) : Run A → Type (ℓ ⊔ κ) where
  returns : {value : A} → P value → Returns P (ok value)

module _ {ℓ κ} {A : Type ℓ} {P : A → Type κ} where
  pub Returns-inv : {m : Run A} → Returns P m → (a : A) × (m ≡ ok a) × P a
  Returns-inv (returns {value} p) = (value, refl, p)

  -- A run that branches, with what each test says.
  pub Returns-if :
      {m n : Run A} (test : Bool)
      → (test ≡ true → Returns P m)
      → (test ≡ false → Returns P n)
      → Returns P (if test then m else n)
  Returns-if false on off = off refl
  Returns-if true on off = on refl

  pub Returns-map {μ} :
      {Q : A → Type μ} {m : Run A} → Returns P m → ((value : A) → P value → Q value) → Returns Q m
  Returns-map (returns {value} p) weaken = returns (weaken value p)

  pub Returns-bind {μ ν} :
      {B : Type μ} {Q : B → Type ν} {m : Run A} {next : A → Run B}
      → Returns P m
      → ((value : A) → P value → Returns Q (next value))
      → Returns Q (m >>= next)
  Returns-bind (returns {value} p) then_ = then_ value p

-- A run that ends with a value of which two things are known.
pub Returns-both {ℓ κ μ} :
    {A : Type ℓ} {P : A → Type κ} {Q : A → Type μ} {m : Run A}
    → Returns P m
    → Returns Q m
    → Returns (λ value. P value × Q value) m
Returns-both (returns p) (returns q) = returns (p, q)

-- Where a bind ends with a value, both of its parts do.
pub >>=-eq-ok {ℓ κ} :
    {A : Type ℓ} {B : Type κ} (first : Run A) (next : A → Run B) {b : B}
    → (first >>= next) ≡ ok b
    → (value : A) × (first ≡ ok value) × (next value ≡ ok b)
>>=-eq-ok out_of_fuel next run = cc
>>=-eq-ok (fault e) next run = cc
>>=-eq-ok (ok value) next run = (value, refl, run)
