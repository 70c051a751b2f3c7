-- ===== src/Wasm/Import/Protocol.antt =====
-- A host call from its request to its reply, with what the driver's thread does in between.
use hyper_beam.Common.{
  ℕ, zero, suc, inl, inr, Option-cases, ◌<◌, ◌≡◌, refl, Bytes, List, [], ◌∷◌, ◌++◌, none, some,
  Cell, stored, done, fault, ℤ, pos_part, arith, length,
}
use hyper_beam.Core.Values.{ValKind, WasmVal, EiTerm}
use hyper_beam.Core.Message.{codes}
use hyper_beam.Core.Process.{Terms, ImportHook, Proc, Driver}
use hyper_beam.Helpers.Convert.Loop.{Numbers, Converted, cells, terms_suffice}
use hyper_beam.Helpers.Terms.{Ei, decode_list}
use hyper_beam.Beamr.Output.{import_response_command, answer_import, respond}
use hyper_beam.Beamr.Lifecycle.{stop_signal, fail_import}
use hyper_beam.Wasm.Import.{
  new_response, set_kinds, clear_import, after_terms, after_error, import_reply,
}

-- A port whose host call waits: its response holds `leftover` in the field that nothing assigns.
abbrev pub Waits : Driver → ℤ → Type 0
Waits d leftover = d.proc.current_import ≡ stored (some (new_response leftover))

-- The rest of a port's state is as it was.
abbrev pub settled : Driver → Driver
settled d = record d { proc = record d.proc { current_import = stored none } }

-- The response of a host call that waits has been answered with some terms.
abbrev pub replied : Terms → ℤ → Driver → Driver
replied terms leftover d = record d {
  proc = record d.proc { current_import = stored (some (respond terms (new_response leftover))) };
}

pub response_taken :
    (ei : Ei) (caller : ℕ) (buff : Bytes) (index end : ℕ) (leftover : ℤ) (terms : Terms)
    (d : Driver)
    → Waits d leftover
    → decode_list ei buff index ≡ done (terms, end)
    → import_response_command ei caller buff index d ≡ done (replied terms leftover d)
unfolding import_response_command answer_import
response_taken ei caller buff index end leftover terms d waits decodes = rw (waits, decodes)

module _ (narrow : ℕ → ℕ) (hook : ImportHook) {types : List ValKind}
    (typed : hook.stub_func.type.results ≡ some types) where
  pub reply_goes_on :
      (leftover : ℤ) (results : List WasmVal) (ts : List EiTerm) (extra : List (Cell EiTerm))
      (d : Driver)
      → pos_part leftover ≡ 0
      → Numbers results
      → length results ≡ length ts
      → (results' : List WasmVal) × (import_reply narrow hook results
            (replied (some (cells ts ++ extra)) leftover d)
          ≡ done (settled d, record { trap = none; results = results' }))
        × Converted narrow results ts results'
  unfolding respond new_response import_reply after_error after_terms clear_import set_kinds
  reply_goes_on leftover results ts extra d zero_length n e =
      let (results', converts, conv) = terms_suffice narrow results ts extra n e in
      (results', rw (typed, zero_length, converts), conv)

  -- An import response answers a host call that waits: it returns without a trap and with the
  -- response's terms converted to its results, and no import is pending any more. This is so if
  -- the unassigned length in the response is not positive, the results have number kinds already,
  -- and the response has a decoded term for each of them.
  pub response_answers :
      (ei : Ei) (caller : ℕ) (buff : Bytes) (index end : ℕ) (leftover : ℤ) (results : List WasmVal)
      (ts : List EiTerm) (extra : List (Cell EiTerm)) (d : Driver)
      → Waits d leftover
      → pos_part leftover ≡ 0
      → decode_list ei buff index ≡ done (some (cells ts ++ extra), end)
      → Numbers results
      → length results ≡ length ts
      → (d' : Driver) × (results' : List WasmVal) × (import_response_command ei caller buff index d
          ≡ done d')
        × (import_reply narrow hook results d'
            ≡ done (settled d, record { trap = none; results = results' }))
        × Converted narrow results ts results'
  response_answers ei caller buff index end leftover results ts extra d waits zero_length decodes n
        e =
      let terms : Terms = some (cells ts ++ extra) in
      let (results', goes_on, conv) = reply_goes_on leftover results ts extra d zero_length n e in
      (
        replied terms leftover d,
        results',
        response_taken ei caller buff index end leftover terms d waits decodes,
        goes_on,
        conv,
      )

  -- The stop of the port ends a host call that waits with a trap, which says so; the results are as
  -- the runtime passed them.
  pub stop_answers :
      (leftover : ℤ) (results : List WasmVal) (d : Driver)
      → Waits d leftover
      → (p : Proc) × (stop_signal d.proc ≡ done p)
        × (import_reply narrow hook results (record d { proc = p })
            ≡ done (
              settled d,
              record {
                trap = some (codes "WASM driver unloaded during import response");
                results = results;
              },
            ))
  unfolding stop_signal fail_import new_response import_reply after_error clear_import
  stop_answers leftover results d waits = (
    record d.proc { current_import = stored (some (fail_import (new_response leftover))) },
    rw waits,
    refl,
  )

-- A response length that the allocation left larger than the number of results makes a reply
-- without error write past the end of the results.
set_kinds_overrun :
    (n : ℕ) (ks : List ValKind) (vs : List WasmVal) → length vs < n → set_kinds n ks vs ≡ fault
unfolding set_kinds
set_kinds_overrun zero ks vs h = absurd (omega arith)
set_kinds_overrun (suc n) [] [] h = refl
set_kinds_overrun (suc n) [] (v ∷ vs) h = refl
set_kinds_overrun (suc n) (k ∷ ks) [] h = refl
set_kinds_overrun (suc n) (k ∷ ks) (v ∷ vs) h = rw (set_kinds_overrun n ks vs (omega arith))

-- Where the memory of a response held a number larger than that of the results in the field that
-- nothing assigns, every import response makes the host call write past the end of its results.
pub leftover_length_faults :
    (narrow : ℕ → ℕ) (hook : ImportHook) (terms : Terms) (leftover : ℤ) (results : List WasmVal)
    (d : Driver)
    → d.proc.current_import ≡ stored (some (respond terms (new_response leftover)))
    → length results < pos_part leftover
    → import_reply narrow hook results d ≡ fault
unfolding respond new_response import_reply after_error
leftover_length_faults narrow hook terms leftover results d pending large =
    elim (Option-cases hook.stub_func.type.results) [
      | inl untyped ↦ rw (pending, untyped)
      | inr (types, typed) ↦
          rw (pending, typed, set_kinds_overrun (pos_part leftover) types results large)
    ]
