-- ===== src/Common/Lists.antt =====
-- Lists measured and indexed by native numbers, under the library's names.
use Prim.Native.Nat.{ℕ, zero, suc, ◌+◌, ◌-◌, ◌≤◌, ◌<◌, min}
use mathlib.Core.Path.{◌≡◌, refl, ap}
use mathlib.Core.List.{List, [], ◌∷◌, ◌++◌}
use mathlib.Core.Option.{Option, none, some}
use native.Mathlib.Omega.{arith}
use hyper_beam.Common.Tests.{ltb, if◌then◌else◌}

module _ {ℓ} {A : Type ℓ} where
  abbrev pub length : List A → ℕ
  length [] = 0
  length (x ∷ xs) = suc (length xs)

  abbrev pub get_elem? : List A → ℕ → Option A
  get_elem? [] i = none
  get_elem? (x ∷ xs) zero = some x
  get_elem? (x ∷ xs) (suc i) = get_elem? xs i

  -- A write out of bounds changes nothing.
  abbrev pub set : List A → ℕ → A → List A
  set [] i v = []
  set (x ∷ xs) zero v = v ∷ xs
  set (x ∷ xs) (suc i) v = x ∷ set xs i v

  abbrev pub take : ℕ → List A → List A
  take zero xs = []
  take (suc n) [] = []
  take (suc n) (x ∷ xs) = x ∷ take n xs

  abbrev pub drop : ℕ → List A → List A
  drop zero xs = xs
  drop (suc n) [] = []
  drop (suc n) (x ∷ xs) = drop n xs

  abbrev pub replicate : ℕ → A → List A
  replicate zero a = []
  replicate (suc n) a = a ∷ replicate n a

  pub length-append : (xs ys : List A) → length (xs ++ ys) ≡ length xs + length ys
  length-append [] ys = omega arith
  length-append (x ∷ xs) ys = omega (arith, length-append xs ys)

  pub length-take : (n : ℕ) (xs : List A) → length (take n xs) ≡ min n (length xs)
  length-take zero xs = omega arith
  length-take (suc n) [] = omega arith
  length-take (suc n) (x ∷ xs) = omega (arith, length-take n xs)

  pub length-drop : (n : ℕ) (xs : List A) → length (drop n xs) ≡ length xs - n
  length-drop zero xs = omega arith
  length-drop (suc n) [] = omega arith
  length-drop (suc n) (x ∷ xs) = omega (arith, length-drop n xs)

  pub length-set : (xs : List A) (i : ℕ) (v : A) → length (set xs i v) ≡ length xs
  length-set [] i v = refl
  length-set (x ∷ xs) zero v = refl
  length-set (x ∷ xs) (suc i) v = ap suc (length-set xs i v)

  pub length-replicate : (n : ℕ) (a : A) → length (replicate n a) ≡ n
  length-replicate zero a = refl
  length-replicate (suc n) a = ap suc (length-replicate n a)

  pub get_elem?-set_self :
      (xs : List A) (i : ℕ) (v : A) → i < length xs → get_elem? (set xs i v) i ≡ some v
  get_elem?-set_self [] i v h = elim h [ ]
  get_elem?-set_self (x ∷ xs) zero v h = refl
  get_elem?-set_self (x ∷ xs) (suc i) v h = get_elem?-set_self xs i v (omega arith)

  pub take-append : (xs ys : List A) → take (length xs) (xs ++ ys) ≡ xs
  take-append [] ys = refl
  take-append (x ∷ xs) ys = rw (take-append xs ys)

  pub drop-append : (xs ys : List A) → drop (length xs) (xs ++ ys) ≡ ys
  drop-append [] ys = refl
  drop-append (x ∷ xs) ys = drop-append xs ys

  pub drop-take-append : (n : ℕ) (xs ys : List A) → n ≤ length xs → drop n (take n xs ++ ys) ≡ ys
  drop-take-append zero xs ys h = refl
  drop-take-append (suc n) [] ys h = absurd (omega arith)
  drop-take-append (suc n) (x ∷ xs) ys h = drop-take-append n xs ys (omega arith)

  pub take-length : (xs : List A) → take (length xs) xs ≡ xs
  take-length [] = refl
  take-length (x ∷ xs) = rw (take-length xs)

  pub set-set_self : (xs : List A) (i : ℕ) (v w : A) → set (set xs i v) i w ≡ set xs i w
  set-set_self [] i v w = refl
  set-set_self (x ∷ xs) zero v w = refl
  set-set_self (x ∷ xs) (suc i) v w = rw (set-set_self xs i v w)

-- Where an element stands in a part of a list.
module _ {ℓ} {A : Type ℓ} where
  pub get_elem?-append :
      (xs ys : List A) (i : ℕ)
      → get_elem? (xs ++ ys) i
        ≡ (if ltb i (length xs) then get_elem? xs i else get_elem? ys (i - length xs))
  get_elem?-append [] ys i = ground arith
  get_elem?-append (x ∷ xs) ys zero = ground arith
  get_elem?-append (x ∷ xs) ys (suc i) = ground (arith, get_elem?-append xs ys i)

  pub get_elem?-take :
      (n : ℕ) (xs : List A) (i : ℕ)
      → get_elem? (take n xs) i ≡ (if ltb i n then get_elem? xs i else none)
  get_elem?-take zero xs i = ground arith
  get_elem?-take (suc n) [] i = ground arith
  get_elem?-take (suc n) (x ∷ xs) zero = ground arith
  get_elem?-take (suc n) (x ∷ xs) (suc i) = ground (arith, get_elem?-take n xs i)

  pub get_elem?-drop :
      (n : ℕ) (xs : List A) (i : ℕ) → get_elem? (drop n xs) i ≡ get_elem? xs (n + i)
  get_elem?-drop zero xs i = ground arith
  get_elem?-drop (suc n) [] i = refl
  get_elem?-drop (suc n) (x ∷ xs) i = ground (arith, get_elem?-drop n xs i)
