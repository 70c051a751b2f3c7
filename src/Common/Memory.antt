-- ===== src/Common/Memory.antt =====
-- Memory that C leaves uninitialised, and outcomes that C leaves undefined.
use Prim.Native.Nat.{ℕ}
use mathlib.Core.Path.{◌≡◌, refl, subst}
use mathlib.Core.List.{List}
use mathlib.Core.Bool.{Bool, true, false}
use hyper_beam.Common.Tests.{if◌then◌else◌}

abbrev pub Bytes : Type 0
Bytes = List ℕ

-- A variable or a field: `junk` until something is stored in it.
pub data Cell {ℓ} (A : Type ℓ) : Type ℓ where
  junk : Cell A
  stored : A → Cell A

abbrev pub is_stored {ℓ} : {A : Type ℓ} → Cell A → Bool
is_stored junk = false
is_stored (stored a) = true

-- `fault` is undefined behaviour: a read of uninitialised memory, an access out of bounds, a
-- dereference of `NULL`.
pub data Outcome {ℓ} (A : Type ℓ) : Type ℓ where
  done : A → Outcome A
  fault : Outcome A

infixl 5 ◌>>=◌
abbrev pub ◌>>=◌ {ℓ κ} : {A : Type ℓ} {B : Type κ} → Outcome A → (A → Outcome B) → Outcome B
done a >>= f = f a
fault >>= f = fault

-- What the program reads from a cell.
abbrev pub fetch {ℓ} : {A : Type ℓ} → Cell A → Outcome A
fetch junk = fault
fetch (stored a) = done a

-- A successful chain has a successful first part.
pub >>=-eq-done {ℓ κ} :
    {A : Type ℓ} {B : Type κ} (o : Outcome A) (f : A → Outcome B) {b : B}
    → (o >>= f) ≡ done b
    → (a : A) × (o ≡ done a) × (f a ≡ done b)
>>=-eq-done (done a) f h = (a, refl, h)
>>=-eq-done fault f h = cc

pub >>=-fault {ℓ κ} :
    {A : Type ℓ} {B : Type κ} (o : Outcome A) (f : A → Outcome B)
    → ((a : A) → o ≡ done a → f a ≡ fault)
    → (o >>= f) ≡ fault
>>=-fault (done a) f h = h a refl
>>=-fault fault f h = refl

pub done-injective {ℓ} : {A : Type ℓ} {a b : A} → done a ≡ done b → a ≡ b
done-injective e = cc

-- What every defined outcome satisfies, by the form of the program.
abbrev pub Ensures {ℓ κ} : {A : Type ℓ} → (A → Type κ) → Outcome A → Type κ
Ensures P (done a) = P a
Ensures P fault = Unit

pub Ensures-bind {ℓ κ μ} :
    {A : Type ℓ} {B : Type κ} (P : B → Type μ) (o : Outcome A) (f : A → Outcome B)
    → ((a : A) → Ensures P (f a))
    → Ensures P (o >>= f)
Ensures-bind P (done a) f h = h a
Ensures-bind P fault f h = tt

-- The same, with the first part's value known.
pub Ensures-bind_eq {ℓ κ μ} :
    {A : Type ℓ} {B : Type κ} (P : B → Type μ) (o : Outcome A) (f : A → Outcome B)
    → ((a : A) → o ≡ done a → Ensures P (f a))
    → Ensures P (o >>= f)
Ensures-bind_eq P (done a) f h = h a refl
Ensures-bind_eq P fault f h = tt

-- The same, with what is known of that value.
pub Ensures-bind_use {ℓ κ μ ν} :
    {A : Type ℓ} {B : Type κ} {Q : A → Type ν} (P : B → Type μ) (o : Outcome A) (f : A → Outcome B)
    → Ensures Q o
    → ((a : A) → Q a → Ensures P (f a))
    → Ensures P (o >>= f)
Ensures-bind_use P (done a) f q h = h a q
Ensures-bind_use P fault f q h = tt

pub Ensures-mono {ℓ κ μ} :
    {A : Type ℓ} (P : A → Type κ) (Q : A → Type μ) (o : Outcome A)
    → ((a : A) → P a → Q a)
    → Ensures P o
    → Ensures Q o
Ensures-mono P Q (done a) h p = h a p
Ensures-mono P Q fault h p = tt

pub fetch-eq-done {ℓ} : {A : Type ℓ} (c : Cell A) {a : A} → fetch c ≡ done a → c ≡ stored a
fetch-eq-done junk h = cc
fetch-eq-done (stored a) h = cc

pub Ensures-if {ℓ κ} :
    {A : Type ℓ} (P : A → Type κ) (b : Bool) (x y : Outcome A)
    → Ensures P x
    → Ensures P y
    → Ensures P (if b then x else y)
Ensures-if P true x y hx hy = hx
Ensures-if P false x y hx hy = hy

-- The same, with the test known.
pub Ensures-if_eq {ℓ κ} :
    {A : Type ℓ} (P : A → Type κ) (b : Bool) (x y : Outcome A)
    → (b ≡ true → Ensures P x)
    → (b ≡ false → Ensures P y)
    → Ensures P (if b then x else y)
Ensures-if_eq P true x y hx hy = hx refl
Ensures-if_eq P false x y hx hy = hy refl

pub ensures_done {ℓ κ} :
    {A : Type ℓ} (P : A → Type κ) (o : Outcome A) {a : A} → Ensures P o → o ≡ done a → P a
ensures_done P (done b) h e = subst P (done-injective e) h
ensures_done P fault h e = cc

-- The program comes to a value.
abbrev pub Defined {ℓ} : {A : Type ℓ} → Outcome A → Type 0
Defined (done a) = Unit
Defined fault = ⊥

pub Defined-bind {ℓ κ} :
    {A : Type ℓ} {B : Type κ} (o : Outcome A) (f : A → Outcome B)
    → Defined o
    → ((a : A) → o ≡ done a → Defined (f a))
    → Defined (o >>= f)
Defined-bind (done a) f d h = h a refl
Defined-bind fault f d h = absurd d

pub Defined-value {ℓ} : {A : Type ℓ} (o : Outcome A) → Defined o → (a : A) × (o ≡ done a)
Defined-value (done a) d = (a, refl)
Defined-value fault d = absurd d

pub Defined-if {ℓ} :
    {A : Type ℓ} (b : Bool) (x y : Outcome A)
    → (b ≡ true → Defined x)
    → (b ≡ false → Defined y)
    → Defined (if b then x else y)
Defined-if true x y hx hy = hx refl
Defined-if false x y hx hy = hy refl
