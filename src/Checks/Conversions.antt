-- ===== src/Checks/Conversions.antt =====
-- Terms, values, signatures, names and messages.
use hyper_beam.Common.{
  true, map, ℕ, ◌-◌, ◌+◌, ◌≡◌, refl, inl, Bytes, List, [], ◌∷◌, ◌++◌, Option, some, done, fault,
  arith, length, pos, take,
}
use hyper_beam.Core.Values.{ValKind, WasmVal, is_finite}
use hyper_beam.Core.Message.{codes}
use hyper_beam.Core.Runtime.{Func}
use hyper_beam.Core.Process.{ImportHook}
use hyper_beam.Helpers.Convert.{erl_term_to_wasm_val, wasm_val_to_erl_term}
use hyper_beam.Helpers.Convert.Loop.{cells}
use hyper_beam.Helpers.Convert.Echo.{val}
use hyper_beam.Helpers.Exports.{get_exported_function}
use hyper_beam.Helpers.Exports.Search.{Searched, get_exported_function_lem}
use hyper_beam.Helpers.Signature.{get_function_sig}
use hyper_beam.Helpers.Signature.Parse.{func_type, parse_sig, parse-get_function_sig}
use hyper_beam.Helpers.Strings.{strlen}
use hyper_beam.Wasm.Import.{import_message, import_room, import_request}
use hyper_beam.Wasm.Execute.{execute_message}
use hyper_beam.Messages.Terms.{int, atom, text, tuple, erl_list}
use hyper_beam.Messages.Denote.{terms_of, execute_message-denotes, import_message-denotes}
use hyper_beam.Messages.Echo.{echo_lem}
use hyper_beam.Messages.Room.{import_request_overflows}
use hyper_beam.Helpers.Terms.{Ei, erl_string_ext, decode_list}
use hyper_beam.Helpers.Terms.Encodings.{
  no_more, one_term, byte_term, as_list, as_string, decode_list_lem,
}
use hyper_beam.Checks.Data.{example_ei, five, add, exports, loaded_module, proc, driver}
use hyper_beam.Checks.Machine.{machine}

abbrev truncate : ℕ → ℕ
truncate x = 0

abbrev two_vals : List WasmVal
two_vals = val ValKind.i32 0 ∷ val ValKind.f64 9 ∷ []

two_vals-finite : is_finite 9 ≡ true
unfolding is_finite
two_vals-finite = refl

abbrev ref_val : WasmVal
ref_val = val ValKind.funcref 1

echo_lem_example :
    machine.build
      (wasm_val_to_erl_term (erl_term_to_wasm_val truncate (val ValKind.i32 77) five).0)
      []
    ≡ some (int 5 ∷ [])
echo_lem_example = echo_lem machine truncate ValKind.i32 77 five (refl, inl (omega arith))

get_exported_function_lem_example :
    (o : Option Func) × (get_exported_function proc (codes "add") ≡ done o)
    × Searched (codes "add") exports loaded_module.exports o
get_exported_function_lem_example =
    get_exported_function_lem (codes "add") (omega arith) proc exports loaded_module refl refl
      (omega arith) ((codes "memory", refl), ((codes "add", refl), tt))

parse-get_function_sig_example :
    (s : Bytes) × (get_function_sig (func_type (ValKind.i32 ∷ ValKind.i64 ∷ []) (ValKind.f64 ∷ []))
      ≡ some s)
    × (parse_sig s ≡ some (ValKind.i32 ∷ ValKind.i64 ∷ [], ValKind.f64 ∷ []))
parse-get_function_sig_example =
    parse-get_function_sig (ValKind.i32 ∷ ValKind.i64 ∷ []) (ValKind.f64 ∷ []) (refl, (refl, tt))
      (refl, tt)

abbrev hook : ImportHook
hook = record {
  module_name = codes "env" ++ (0 ∷ []);
  field_name = codes "get" ++ (0 ∷ []);
  signature = codes "(iF)I" ++ (0 ∷ []);
  stub_func = add;
}

execute_message-denotes_example :
    machine.build (execute_message two_vals) []
    ≡ some (
        tuple (erl_list (atom (codes "execution_result") ∷ erl_list (terms_of two_vals) ∷ [])) ∷ [])
execute_message-denotes_example =
    execute_message-denotes machine two_vals (refl, (two_vals-finite, tt))

import_message-denotes_example :
    machine.build (import_message hook two_vals) []
    ≡ some (
        tuple (
          erl_list (
            atom (codes "import")
            ∷ text (take (strlen hook.module_name) hook.module_name)
            ∷ text (take (strlen hook.field_name) hook.field_name)
            ∷ erl_list (terms_of two_vals)
            ∷ text (take (strlen hook.signature - 1) hook.signature)
            ∷ []))
        ∷ [])
import_message-denotes_example =
    import_message-denotes machine hook two_vals (refl, (two_vals-finite, tt))

import_request_overflows_example :
    (import_request (pos 0) hook two_vals [] driver ≡ fault)
    × (length (import_message hook two_vals) ≡ import_room 2 0 + 2)
import_request_overflows_example =
    import_request_overflows (pos 0) hook two_vals driver (refl, (refl, tt))

-- Decoders for a buffer that holds a list as a string.
abbrev string_ei : Ei
string_ei = record (example_ei []) {
  get_type = λ b i. some (erl_string_ext, 3);
  decode_string = λ b i. (some (1 ∷ 2 ∷ 3 ∷ []), 9);
}

decode_list_lem_example :
    decode_list string_ei [] 0 ≡ done (some (cells (map byte_term (1 ∷ 2 ∷ 3 ∷ []))), 9)
decode_list_lem_example = decode_list_lem string_ei [] (as_string (1 ∷ 2 ∷ 3 ∷ []) refl refl)

-- The same for a list of terms.
decode_list_terms : decode_list (example_ei []) [] 0 ≡ done (some (cells (five ∷ five ∷ [])), 0)
decode_list_terms =
    decode_list_lem (example_ei []) [] (as_list refl refl (one_term refl (one_term refl no_more)))
