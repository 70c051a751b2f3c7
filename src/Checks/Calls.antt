-- ===== src/Checks/Calls.antt =====
-- Calls by clients.
use hyper_beam.Common.{ℕ, ◌+◌, ◌<◌, ◌≡◌, refl, List, [], ◌∷◌, arith, pos}
use hyper_beam.Core.Values.{ValKind, WasmVal}
use hyper_beam.Core.Message.{codes}
use hyper_beam.Helpers.Convert.Echo.{val}
use hyper_beam.Helpers.Convert.Loop.{Converted}
use hyper_beam.Helpers.Exports.{find_function, get_exported_function}
use hyper_beam.Wasm.Import.{is_invoke}
use hyper_beam.Wasm.Execute.{fresh_vals}
use hyper_beam.Messages.Terms.{erl_list}
use hyper_beam.Messages.Denote.{terms_of}
use hyper_beam.Client.Session.{
  Value, integer, is_valid_arg_list, are_decodable, Session, value, pure,
}
use hyper_beam.Client.Call.{answers, ImportFun, ok, named, call}
use hyper_beam.Client.Call.Conversation.{Idle}
use hyper_beam.Client.Call.Dialogue.{imported, Suits, Serves, Dialogue, works, asks, returns}
use hyper_beam.Client.Call.Laws.{Calls, call_answers}
use hyper_beam.Checks.Codec.{ei_terms}
use hyper_beam.Checks.Clients.{system, text_page, text_driver, session, session-Ready}
use hyper_beam.Checks.Data.{add, proc, page}
use hyper_beam.Checks.Ports.{truncate, hook, one_result}
use hyper_beam.Checks.System.{asks_once, goes_on}

-- An import function that answers five and counts.
abbrev pub counts : ImportFun ℕ
counts st i = pure (answers (integer (pos 5) ∷ []) (st + 1))

abbrev two : List Value
two = integer (pos 5) ∷ integer (pos 5) ∷ []

session-Idle : Idle system counts proc.instance_ proc.indirect_func_table session (text_page ∷ [])
session-Idle = record {
  ready = session-Ready;
  at_rest = refl;
  free = refl;
  fits = record {
    memories_are = refl;
    instance_is = refl;
    table_is = refl;
    no_jobs = refl;
    on = refl;
  };
}

add-Calls :
    Calls system text_driver
      (codes "add")
      two
      add
      (ValKind.i32 ∷ ValKind.i64 ∷ [])
      (ValKind.i64 ∷ [])
unfolding is_valid_arg_list are_decodable find_function get_exported_function ei_terms
add-Calls = record {
  name_is_text = refl;
  name_fits = omega arith;
  some_args = λ e. cc;
  valid = refl;
  decodable = refl;
  callable = record {
    found = refl;
    params_are = refl;
    results_are = refl;
    numbers = (refl, (refl, tt));
    enough = refl;
  };
}

abbrev given : List WasmVal
given = val ValKind.i32 5 ∷ val ValKind.i64 5 ∷ []

given-Converted :
    Converted truncate (fresh_vals truncate 0 (ValKind.i32 ∷ ValKind.i64 ∷ [])) (ei_terms two) given
unfolding ei_terms fresh_vals
given-Converted = (refl, (refl, refl), (refl, refl, refl))

answered_five : List WasmVal
answered_five = val ValKind.i64 5 ∷ []

five-Suits : Suits hook one_result (fresh_vals truncate 0 (ValKind.i64 ∷ [])) (integer (pos 5) ∷ [])
unfolding fresh_vals is_invoke is_valid_arg_list are_decodable
five-Suits = record {
  other = refl;
  types = ValKind.i64 ∷ [];
  typed = refl;
  args_are = (refl, tt);
  results_are = (refl, tt);
  some_result = omega arith;
  enough = refl;
  valid = refl;
  decodable = refl;
}

counts-Serves :
    Serves system counts proc.instance_ proc.indirect_func_table 3
      (imported hook one_result)
      (page ∷ text_page ∷ [])
      (integer (pos 5) ∷ [])
      4
      (page ∷ text_page ∷ [])
counts-Serves = record {
  serve = λ s ready m i. (
    s,
    refl,
    record {
      ready = ready;
      same_proc = refl;
      same_jobs = refl;
      same_worker = refl;
      memories_are = m;
    },
  );
}

add-Dialogue :
    Dialogue system counts proc.instance_ proc.indirect_func_table 3
      (text_page ∷ [])
      (asks_once add given (fresh_vals truncate 0 (ValKind.i64 ∷ [])))
      (ok (erl_list (terms_of answered_five)) 4)
      (page ∷ text_page ∷ [])
unfolding answered_five ei_terms fresh_vals
add-Dialogue =
    works 3 (text_page ∷ []) _ (λ ms. page ∷ ms) _ _
      (asks 3 4 (page ∷ text_page ∷ []) (page ∷ text_page ∷ []) (page ∷ text_page ∷ []) hook
        one_result (fresh_vals truncate 0 (ValKind.i64 ∷ [])) answered_five goes_on
        (integer (pos 5) ∷ []) _ five-Suits counts-Serves (refl, refl, refl)
        (returns 4 (page ∷ text_page ∷ []) answered_five (refl, tt)))

call_answers_example :
    (bound : ℕ) × (s' : Session) × ((fuel : ℕ)
      → bound < fuel
      → call system counts fuel (named (codes "add")) two 3 session
        ≡ value (ok (erl_list (terms_of answered_five)) 4) s')
    × Idle system counts proc.instance_ proc.indirect_func_table s' (page ∷ text_page ∷ [])
call_answers_example =
    call_answers system counts (codes "add") two add (ValKind.i32 ∷ ValKind.i64 ∷ [])
      (ValKind.i64 ∷ []) given session 3 (text_page ∷ []) (page ∷ text_page ∷ [])
      (ok (erl_list (terms_of answered_five)) 4) refl session-Idle add-Calls given-Converted
      add-Dialogue
