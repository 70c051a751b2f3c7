-- ===== src/Helpers/Exports/Search.antt =====
-- `get_exported_function`: which export it finds.
use hyper_beam.Common.{
  ℕ, zero, suc, ◌+◌, ◌≤◌, ◌<◌, ◌≡◌, refl, ap, ◌≢◌, inl, inr, ◌∙◌, subst, true, Bytes, List, [], ◌∷◌,
  ◌++◌, Option, none, some, done, arith, length, get_elem?, stored, length-append, Bool-cases,
  ==_refl,
}
use hyper_beam.Core.Runtime.{Func, Extern, ExportType, Instance, Module}
use hyper_beam.Core.Process.{Proc}
use hyper_beam.Helpers.Strings.{c_string, strlen, strncmp_eq}
use hyper_beam.Helpers.Exports.{export_matches, find_function, get_exported_function}

-- A text with no NUL in it.
abbrev pub NoNul : Bytes → Type 0
NoNul [] = Unit
NoNul (x ∷ xs) = (x ≢ 0) × NoNul xs

-- Each export has a name that ends in a NUL.
abbrev pub Named : List ExportType → Type 0
Named [] = Unit
Named (t ∷ ts) = ((n : Bytes) × (t.name ≡ some (n ++ (0 ∷ [])))) × Named ts

strlen_lem : (s : Bytes) → NoNul s → strlen s ≡ length s
unfolding strlen c_string
strlen_lem [] h = refl
strlen_lem (x ∷ xs) h = ground (arith, strlen_lem xs h.1)

strncmp_self : (s rest : Bytes) → strncmp_eq (length s) (s ++ rest) s ≡ true
unfolding strncmp_eq
strncmp_self [] rest = refl
strncmp_self (x ∷ xs) rest = rw (==_refl x) (ground (arith, strncmp_self xs rest))

strncmp-eq :
    (n s rest : Bytes)
    → NoNul s
    → length n ≡ length s
    → strncmp_eq (length n) (n ++ rest) s ≡ true
    → n ≡ s
unfolding strncmp_eq
strncmp-eq [] [] rest h e c = refl
strncmp-eq [] (y ∷ s) rest h e c = absurd (omega arith)
strncmp-eq (x ∷ n) [] rest h e c = absurd (omega arith)
strncmp-eq (x ∷ n) (y ∷ s) rest h e c = ground (arith, strncmp-eq n s rest h.1)

module _ (target : Bytes) where
  -- The export at an index is the function `f`, and bears the name.
  abbrev pub IsAt : List Extern → List ExportType → ℕ → Func → Type 0
  IsAt es ts i f =
      (get_elem? es i ≡ some (Extern.func f))
      × ((t : ExportType) × (get_elem? ts i ≡ some t) × (t.name ≡ some (target ++ (0 ∷ []))))

  -- `f` is the first exported function of that name.
  abbrev pub IsFirst : List Extern → List ExportType → Func → Type 0
  IsFirst es ts f = (i : ℕ) × IsAt es ts i f × ((j : ℕ) (g : Func) → j < i → IsAt es ts j g → ⊥)

  abbrev pub IsMissing : List Extern → List ExportType → Type 0
  IsMissing es ts = (j : ℕ) (g : Func) → IsAt es ts j g → ⊥

  abbrev pub Searched : List Extern → List ExportType → Option Func → Type 0
  Searched es ts none = IsMissing es ts
  Searched es ts (some f) = IsFirst es ts f

module _ (target : Bytes) (plain : NoNul target) where
  -- The test on a name is a comparison of texts.
  matches-eq : (n : Bytes) → export_matches target (some (n ++ (0 ∷ []))) ≡ true → n ≡ target
  unfolding export_matches
  matches-eq n h =
      let l : length (n ++ (0 ∷ [])) ≡ length n + 1 = omega (arith, length-append {0} n (0 ∷ [])) in
      ground (arith, l, strlen_lem target plain, strncmp-eq n target (0 ∷ []) plain)

  matches_self : export_matches target (some (target ++ (0 ∷ []))) ≡ true
  unfolding export_matches
  matches_self =
      let l : length (target ++ (0 ∷ [])) ≡ length target + 1 =
        omega (arith, length-append {0} target (0 ∷ [])) in
      ground (arith, l, strlen_lem target plain, strncmp_self target (0 ∷ []))

  -- An entry in front that is no match leaves the outcome of the search as it is.
  module _ (e : Extern) (es : List Extern) (t : ExportType) (ts : List ExportType)
      (miss : (g : Func) → IsAt target (e ∷ es) (t ∷ ts) 0 g → ⊥) where
    missing-cons : IsMissing target es ts → IsMissing target (e ∷ es) (t ∷ ts)
    missing-cons s zero g h = miss g h
    missing-cons s (suc j) g h = s j g h

    IsFirst-cons : (f : Func) → IsFirst target es ts f → IsFirst target (e ∷ es) (t ∷ ts) f
    IsFirst-cons f (i, here, first) = (suc i, here, before)
      where
        before : (j : ℕ) (g : Func) → j < suc i → IsAt target (e ∷ es) (t ∷ ts) j g → ⊥
        before zero g lt h = miss g h
        before (suc j) g lt h = first j g (omega arith) h

    Searched-cons :
        (o : Option Func) → Searched target es ts o → Searched target (e ∷ es) (t ∷ ts) o
    Searched-cons none s = missing-cons s
    Searched-cons (some f) s = IsFirst-cons f s

  -- A function in front: it is found if its name matches.
  front_function :
      (f : Func) (es : List Extern) (t : ExportType) (ts : List ExportType)
      → ((n : Bytes) × (t.name ≡ some (n ++ (0 ∷ []))))
      → ((o : Option Func) × (find_function target es ts ≡ done o) × Searched target es ts o)
      → (o : Option Func) × (find_function target (Extern.func f ∷ es) (t ∷ ts) ≡ done o)
        × Searched target (Extern.func f ∷ es) (t ∷ ts) o
  unfolding find_function
  front_function f es t ts (n, named) (o, eq, s) =
      elim (Bool-cases (export_matches target t.name)) [
        | inl hit ↦
            let same : n ≡ target =
              matches-eq n (subst (λ name. export_matches target name ≡ true) named hit) in
            (
              some f,
              rw hit,
              (
                0,
                (refl, (t, refl, named ∙ ap (λ b. some (b ++ (0 ∷ []))) same)),
                λ j g lt h. absurd (omega arith),
              ),
            )
        | inr miss ↦
            (o, rw miss eq, Searched-cons (Extern.func f) es t ts (λ g h. cc matches_self) o s)
      ]

  find_function_lem :
      (es : List Extern) (ts : List ExportType)
      → length es ≤ length ts
      → Named ts
      → (o : Option Func) × (find_function target es ts ≡ done o) × Searched target es ts o
  unfolding find_function
  find_function_lem [] ts le n = (none, refl, λ j g h. cc)
  find_function_lem (e ∷ es) [] le n = absurd (omega arith)
  find_function_lem (Extern.func f ∷ es) (t ∷ ts) le n =
      front_function f es t ts n.0 (find_function_lem es ts (omega arith) n.1)
  find_function_lem (e ∷ es) (t ∷ ts) le n =
      let (o, eq, s) = find_function_lem es ts (omega arith) n.1 in
      (o, eq, Searched-cons _ es t ts (λ g h. cc) o s)

  -- In an instance whose exports are all described by the module's export types, by names that end
  -- in a NUL, the function found for a text without a NUL is the first exported function of that
  -- name; nothing is found only if no function bears it.
  pub get_exported_function_lem :
      (p : Proc) (exports : Instance) (m : Module)
      → p.instance_ ≡ stored (some exports)
      → p.module_ ≡ stored (some m)
      → length exports ≤ length m.exports
      → Named m.exports
      → (o : Option Func) × (get_exported_function p target ≡ done o)
        × Searched target exports m.exports o
  unfolding get_exported_function
  get_exported_function_lem p exports m hi hm le n =
      rw (hi, hm) (find_function_lem exports m.exports le n)
