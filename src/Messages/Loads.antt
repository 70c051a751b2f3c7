-- ===== src/Messages/Loads.antt =====
-- What the message of `wasm_initialize_runtime` says of a loaded module.
use hyper_beam.Common.{
  ℕ, suc, ◌+◌, ◌-◌, ◌≡◌, refl, ap, ◌∙◌, Bytes, List, [], ◌∷◌, ◌++◌, none, some, Cell, done, arith,
  take, length, >>=-eq-done, done-injective, sym,
}
use mathlib.Core.List.{append_assoc}
use hyper_beam.Core.Message.{codes, Message}
use hyper_beam.Core.Runtime.{ExternType, ImportType, ExportType, Instance, Module}
use hyper_beam.Core.Process.{ImportHook, Proc}
use hyper_beam.Helpers.Convert.{wasm_externtype_to_kind_string}
use hyper_beam.Helpers.Exports.{deref}
use hyper_beam.Helpers.Signature.{get_function_sig}
use hyper_beam.Helpers.Strings.{strlen}
use hyper_beam.Wasm.Initialize.{
  Loader, import_entry, process_import, process_imports, export_entry, export_sig, note_table,
  process_exports, init_message,
}
use hyper_beam.Messages.Terms.{ErlTerm, atom, text, nil, tuple, erl_list, pushed, TermBuilder}
use hyper_beam.Messages.Denote.{strlen-le}

-- A name without its last byte, the NUL.
abbrev pub name_text : Bytes → ErlTerm
name_text name = text (take (length name - 1) name)

-- The text before the NUL of a signature.
abbrev pub sig_text : Bytes → ErlTerm
sig_text sig = text (take (strlen sig) sig)

-- `{func, Module, Name, Signature}`
abbrev pub import_term : ImportType → Bytes → ErlTerm
import_term t sig = tuple (
    erl_list (atom (codes "func") ∷ name_text t.module_name ∷ name_text t.name ∷ sig_text sig ∷ []))

-- The terms of imports that are functions, each with a signature; any other import has none.
abbrev pub import_terms : List ImportType → List ErlTerm
import_terms [] = []
import_terms (t ∷ ts) = elim (get_function_sig t.type) [
  | none ↦ import_terms ts
  | some sig ↦ import_term t sig ∷ import_terms ts
]

abbrev pub AllFunctions : List ImportType → Type 0
AllFunctions [] = Unit
AllFunctions (t ∷ ts) = ((sig : Bytes) × (get_function_sig t.type ≡ some sig)) × AllFunctions ts

-- `{Kind, Name, Signature}`, where the signature of an export that is no function is the text that
-- its buffer held by chance.
abbrev pub export_term : Bytes → ExportType → ErlTerm
export_term leftover t = tuple (
    erl_list (
      atom (wasm_externtype_to_kind_string t.type)
      ∷ (elim t.name [ none ↦ nil | some name ↦ name_text name ])
      ∷ (elim (get_function_sig t.type) [ none ↦ sig_text leftover | some sig ↦ sig_text sig ])
      ∷ []))

abbrev pub export_terms : (ℕ → Bytes) → ℕ → List ExportType → List ErlTerm
export_terms leftover i [] = []
export_terms leftover i (t ∷ ts) = export_term (leftover i) t ∷ export_terms leftover (i + 1) ts

length-import_terms :
    (ts : List ImportType) → AllFunctions ts → length (import_terms ts) ≡ length ts
length-import_terms [] f = refl
length-import_terms (t ∷ ts) f = ground (arith, f.0.1, length-import_terms ts f.1)

length-export_terms :
    (leftover : ℕ → Bytes) (i : ℕ) (ts : List ExportType)
    → length (export_terms leftover i ts) ≡ length ts
length-export_terms leftover i [] = refl
length-export_terms leftover i (t ∷ ts) = ap suc (length-export_terms leftover (i + 1) ts)

-- The slots of an import with a signature.
process_import-entry :
    (loader : Loader) (t : ImportType) (sig : Bytes) {r : Message × Cell ImportHook}
    → get_function_sig t.type ≡ some sig
    → process_import loader t ≡ done r
    → r.0 ≡ import_entry t sig
unfolding process_import get_function_sig
process_import-entry loader t sig e h = ground arith

-- What has a signature is a function.
sig-kind :
    (type : ExternType) {sig : Bytes}
    → get_function_sig type ≡ some sig
    → wasm_externtype_to_kind_string type ≡ codes "func"
unfolding get_function_sig wasm_externtype_to_kind_string
sig-kind type e = ground arith

import_terms-cons :
    (t : ImportType) (ts : List ImportType) {sig : Bytes}
    → get_function_sig t.type ≡ some sig
    → import_terms (t ∷ ts) ≡ (import_term t sig ∷ import_terms ts)
import_terms-cons t ts e = ground (arith, e)

export_term-eq :
    (leftover : Bytes) (t : ExportType) (name sig : Bytes)
    → deref t.name ≡ done name
    → export_sig leftover t.type ≡ done sig
    → tuple (
        erl_list
          (atom (wasm_externtype_to_kind_string t.type) ∷ name_text name ∷ sig_text sig ∷ []))
      ≡ export_term leftover t
unfolding export_sig
export_term-eq leftover t name sig en es = ground (arith, en, es)

module _ (erts : TermBuilder) where
  open erts use {build, build_end, build_atom, build_string, build_list, build_tuple}

  build_import :
      (t : ImportType) (sig : Bytes) (m : Message) (st : List ErlTerm)
      → wasm_externtype_to_kind_string t.type ≡ codes "func"
      → build (import_entry t sig ++ m) st ≡ build m (import_term t sig ∷ st)
  unfolding import_entry
  build_import t sig m st kind =
      build_atom _ _ st
      ∙ rw kind (
          build_string t.module_name _ _ _ (omega arith)
          ∙ build_string t.name _ _ _ (omega arith)
          ∙ build_string sig _ _ _ (strlen-le sig)
          ∙ build_tuple (_ ∷ _ ∷ _ ∷ _ ∷ []) 4 m st refl)

  build_export :
      (name : Bytes) (type : ExternType) (sig : Bytes) (m : Message) (st : List ErlTerm)
      → build (export_entry name type sig ++ m) st
        ≡ build m (
            tuple (
              erl_list
                (atom (wasm_externtype_to_kind_string type) ∷ name_text name ∷ sig_text sig ∷ []))
            ∷ st)
  unfolding export_entry
  build_export name type sig m st =
      build_atom _ _ st
      ∙ build_string name _ _ _ (omega arith)
      ∙ build_string sig _ _ _ (strlen-le sig)
      ∙ build_tuple (_ ∷ _ ∷ _ ∷ []) 3 m st refl

  build_imports :
      (loader : Loader) (ts : List ImportType) (m : Message) (st : List ErlTerm)
      {r : Message × List (Cell ImportHook)}
      → AllFunctions ts
      → process_imports loader ts ≡ done r
      → build (r.0 ++ m) st ≡ build m (pushed (import_terms ts) st)
  unfolding process_imports
  build_imports loader [] m st f h =
      ap (λ (r : Message × List (Cell ImportHook)). build (r.0 ++ m) st) (sym (done-injective h))
  build_imports loader (t ∷ ts) m st f h =
      let (a, ea, h') = >>=-eq-done (process_import loader t) _ h in
      let (b, eb, h'') = >>=-eq-done (process_imports loader ts) _ h' in
      let entry = process_import-entry loader t f.0.0 f.0.1 ea in
      ap (λ (r : Message × List (Cell ImportHook)). build (r.0 ++ m) st) (sym (done-injective h''))
      ∙ ap (λ s. build s st) (append_assoc a.0 b.0 m)
      ∙ ap (λ e. build (e ++ (b.0 ++ m)) st) entry
      ∙ build_import t f.0.0 (b.0 ++ m) st (sig-kind t.type f.0.1)
      ∙ build_imports loader ts m (import_term t f.0.0 ∷ st) f.1 eb
      ∙ ap (λ l. build m (pushed l st)) (sym (import_terms-cons t ts f.0.1))

  build_exports :
      (leftover : ℕ → Bytes) (i : ℕ) (ts : List ExportType) (es : Instance) (p : Proc) (m : Message)
      (st : List ErlTerm) {r : Message × Proc}
      → process_exports leftover i ts es p ≡ done r
      → build (r.0 ++ m) st ≡ build m (pushed (export_terms leftover i ts) st)
  unfolding process_exports
  build_exports leftover i [] es p m st h =
      ap (λ (r : Message × Proc). build (r.0 ++ m) st) (sym (done-injective h))
  build_exports leftover i (t ∷ ts) es p m st h =
      let (name, en, h₁) = >>=-eq-done (deref t.name) _ h in
      let (p', ep, h₂) = >>=-eq-done (note_table i name es p) _ h₁ in
      let (sig, es', h₃) = >>=-eq-done (export_sig (leftover i) t.type) _ h₂ in
      let (b, eb, h₄) = >>=-eq-done (process_exports leftover (i + 1) ts es p') _ h₃ in
      ap (λ (r : Message × Proc). build (r.0 ++ m) st) (sym (done-injective h₄))
      ∙ ap (λ s. build s st) (append_assoc (export_entry name t.type sig) b.0 m)
      ∙ build_export name t.type sig (b.0 ++ m) st
      ∙ build_exports leftover (i + 1) ts es p' m _ eb
      ∙ ap (λ x. build m (pushed (x ∷ export_terms leftover (i + 1) ts) st))
          (export_term-eq (leftover i) t name sig en es')

  -- The message about a loaded module, all of whose imports are functions with a signature, denotes
  -- `{execution_result, [{func, Module, Name, Signature}, ...], [{Kind, Name, Signature}, ...]}`,
  -- with the imports and the exports in the module's order. The signature of an export that is no
  -- function is whatever text its buffer held.
  pub init_message-denotes :
      (loader : Loader) (leftover : ℕ → Bytes) (mod_ : Module) (es : Instance) (p : Proc)
      {imports : Message × List (Cell ImportHook)} {exports : Message × Proc}
      → AllFunctions mod_.imports
      → process_imports loader mod_.imports ≡ done imports
      → process_exports leftover 0 mod_.exports es p ≡ done exports
      → build (init_message mod_ imports.0 exports.0) []
        ≡ some (
            tuple (
              erl_list (
                atom (codes "execution_result")
                ∷ erl_list (import_terms mod_.imports)
                ∷ erl_list (export_terms leftover 0 mod_.exports)
                ∷ []))
            ∷ [])
  unfolding init_message
  init_message-denotes loader leftover mod_ es p f hi he =
      build_atom _ _ []
      ∙ build_imports loader mod_.imports _ _ f hi
      ∙ build_list (import_terms mod_.imports) _ _ _
          (omega (arith, length-import_terms mod_.imports f))
      ∙ build_exports leftover 0 mod_.exports es p _ _ he
      ∙ build_list (export_terms leftover 0 mod_.exports) _ _ _
          (omega (arith, length-export_terms leftover 0 mod_.exports))
      ∙ build_tuple (_ ∷ _ ∷ _ ∷ []) 3 [] [] refl
      ∙ build_end _
