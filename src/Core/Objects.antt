-- ===== src/Core/Objects.antt =====
-- Objects of the WebAssembly runtime that its C interface hands out as pointers: engines, stores,
-- byte vectors, modules and instances. Each is to be deleted once.
pub mod Deletion
use hyper_beam.Common.{
  ℕ, ◌+◌, List, [], ◌∷◌, Option, none, some, Outcome, done, fault, ◌>>=◌, ◌==◌, if◌then◌else◌,
}

-- The objects that have not been deleted, the latest first, and the next pointer.
pub record Objects : Type 0 where
  pub next : ℕ
  pub live : List ℕ

abbrev pub create : Objects → Objects
create o = record { next = o.next + 1; live = o.next ∷ o.live }

unfoldable pub remove : ℕ → List ℕ → Outcome (List ℕ)
remove p [] = fault
remove p (x ∷ xs) =
    let rest = remove p xs >>= λ xs'. done (x ∷ xs') in if x == p then done xs else rest

-- The deletion of an object that was never made, or is already deleted, is undefined.
abbrev pub delete : ℕ → Objects → Outcome Objects
delete p o = remove p o.live >>= λ live. done (record o { live = live })

-- The deletion of `NULL` does nothing.
abbrev pub delete_any : Option ℕ → Objects → Outcome Objects
delete_any none o = done o
delete_any (some p) o = delete p o
