-- ===== src/Core/Objects/Deletion.antt =====
-- Deletions of the runtime's objects.
use hyper_beam.Common.{
  ℕ, ◌<◌, ◌≤◌, ◌≡◌, refl, false, List, [], ◌∷◌, done, fault, arith, ◌==◌, Ensures, Ensures-bind_use,
  Ensures-if,
}
use hyper_beam.Core.Objects.{Objects, remove, delete}

pub remove-here : (p x : ℕ) (xs : List ℕ) → x ≡ p → remove p (x ∷ xs) ≡ done xs
unfolding remove
remove-here p x xs e = ground (arith, e)

-- Every object that is live was handed out before.
abbrev pub Below : ℕ → List ℕ → Type 0
Below n [] = Unit
Below n (x ∷ xs) = (x < n) × Below n xs

remove-Below : (n p : ℕ) (xs : List ℕ) → Below n xs → Ensures (Below n) (remove p xs)
unfolding remove
remove-Below n p [] b = tt
remove-Below n p (x ∷ xs) (lt, b) =
    Ensures-if (Below n) (x == p) _ _ b
      (Ensures-bind_use (Below n) (remove p xs) _ (remove-Below n p xs b) λ xs' b'. (lt, b'))

pub remove-fault : (n p : ℕ) (xs : List ℕ) → Below n xs → n ≤ p → remove p xs ≡ fault
unfolding remove
remove-fault n p [] b le = refl
remove-fault n p (x ∷ xs) (lt, b) le = let rest = remove-fault n p xs b le in ground (arith, rest)

pub delete-Below :
    (n p : ℕ) (o : Objects) → Below n o.live → Ensures (λ o'. Below n o'.live) (delete p o)
delete-Below n p o b =
    Ensures-bind_use (λ o'. Below n o'.live) (remove p o.live) _ (remove-Below n p o.live b)
      λ live b'. b'

pub remove-next : (p x : ℕ) (xs : List ℕ) → (x == p) ≡ false → remove p (x ∷ p ∷ xs) ≡ done (x ∷ xs)
unfolding remove
remove-next p x xs e = rw (e, remove-here p p xs refl) refl
