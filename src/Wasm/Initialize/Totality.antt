-- ===== src/Wasm/Initialize/Totality.antt =====
-- Modules whose imports and exports the initialization can handle.
use hyper_beam.Common.{
  ℕ, zero, suc, ◌+◌, ◌≤◌, ◌<◌, ◌≡◌, refl, inl, inr, Option-cases, Bytes, List, [], ◌∷◌, some, arith,
  length, get_elem?, Defined, Defined-bind, Defined-if,
}
use hyper_beam.Core.Message.{codes}
use hyper_beam.Core.Runtime.{ExternType, ImportType, ExportType, Instance}
use hyper_beam.Core.Process.{Proc}
use hyper_beam.Helpers.Exports.{deref}
use hyper_beam.Helpers.Signature.{get_function_sig}
use hyper_beam.Helpers.Strings.{strcmp_eq}
use hyper_beam.Wasm.Initialize.{
  Loader, checked_sig, process_import, process_imports, note_table, export_sig, process_exports,
}

-- The signature, if there is one, fits its buffer.
abbrev pub ShortSig : ExternType → Type 0
ShortSig t = (sig : Bytes) → get_function_sig t ≡ some sig → length sig ≤ 256

abbrev pub ShortImports : List ImportType → Type 0
ShortImports [] = Unit
ShortImports (t ∷ ts) = ShortSig t.type × ShortImports ts

-- Every export has a name, and a signature that fits.
abbrev pub NamedExports : List ExportType → Type 0
NamedExports [] = Unit
NamedExports (t ∷ ts) = ((name : Bytes) × (t.name ≡ some name)) × ShortSig t.type × NamedExports ts

checked_sig-Defined : (sig : Bytes) → length sig ≤ 256 → Defined (checked_sig sig)
checked_sig-Defined sig h = ground (arith, h)

process_import-Defined_at :
    (loader : Loader) (t : ImportType) (type : ExternType)
    → t.type ≡ type
    → ShortSig type
    → Defined (process_import loader t)
unfolding process_import
process_import-Defined_at loader t (ExternType.func type) e short =
    elim (Option-cases (get_function_sig (ExternType.func type))) [
      | inl missing ↦ rw (process_import, e, missing) tt
      | inr (sig, is) ↦
          rw (process_import, e, is)
            (Defined-bind (checked_sig sig) _ (checked_sig-Defined sig (short sig is)) (λ s h. tt))
    ]
process_import-Defined_at loader t ExternType.global e short = rw e tt
process_import-Defined_at loader t ExternType.table e short = rw e tt
process_import-Defined_at loader t ExternType.memory e short = rw e tt
process_import-Defined_at loader t ExternType.other e short = rw e tt

pub process_imports-Defined :
    (loader : Loader) (ts : List ImportType) → ShortImports ts → Defined (process_imports loader ts)
unfolding process_imports
process_imports-Defined loader [] short = tt
process_imports-Defined loader (t ∷ ts) (h, short) =
    Defined-bind (process_import loader t) _ (process_import-Defined_at loader t t.type refl h)
      λ a e.
        Defined-bind (process_imports loader ts) _ (process_imports-Defined loader ts short)
          λ b e'. tt

get_elem?-Defined : (xs : Instance) (i : ℕ) → i < length xs → Defined (deref (get_elem? xs i))
get_elem?-Defined [] i h = absurd (omega arith)
get_elem?-Defined (x ∷ xs) zero h = tt
get_elem?-Defined (x ∷ xs) (suc i) h = get_elem?-Defined xs i (omega arith)

note_table-Defined :
    (i : ℕ) (name : Bytes) (exports : Instance) (p : Proc)
    → i < length exports
    → Defined (note_table i name exports p)
unfolding note_table
note_table-Defined i name exports p h =
    Defined-if (strcmp_eq name (codes "__indirect_function_table")) _ _
      (λ e.
        Defined-bind (deref (get_elem? exports i)) _ (get_elem?-Defined exports i h) (λ x e'. tt))
      (λ e. tt)

export_sig-Defined :
    (leftover : Bytes) (type : ExternType) → ShortSig type → Defined (export_sig leftover type)
unfolding export_sig
export_sig-Defined leftover type short = elim (Option-cases (get_function_sig type)) [
  | inl missing ↦ rw (export_sig, missing) tt
  | inr (sig, is) ↦ rw (export_sig, is) (checked_sig-Defined sig (short sig is))
]

pub process_exports-Defined :
    (leftover : ℕ → Bytes) (i : ℕ) (ts : List ExportType) (exports : Instance) (p : Proc)
    → NamedExports ts
    → i + length ts ≤ length exports
    → Defined (process_exports leftover i ts exports p)
unfolding process_exports
process_exports-Defined leftover i [] exports p named h = tt
process_exports-Defined leftover i (t ∷ ts) exports p ((name, is), short, named) h = rw is (
    Defined-bind (note_table i name exports p) _
      (note_table-Defined i name exports p (omega (arith, h)))
      λ p' e.
        Defined-bind (export_sig (leftover i) t.type) _
          (export_sig-Defined (leftover i) t.type short)
          λ sig e'.
            Defined-bind (process_exports leftover (i + 1) ts exports p') _
              (process_exports-Defined leftover (i + 1) ts exports p' named (omega (arith, h)))
              λ r e''. tt)
