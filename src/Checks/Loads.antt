-- ===== src/Checks/Loads.antt =====
-- The initialization of a port.
use hyper_beam.Common.{◌≡◌, ℕ, refl, Bytes, [], ◌∷◌, ◌++◌, some, stored, junk}
use hyper_beam.Core.Message.{codes}
use hyper_beam.Core.Runtime.{ExternType, Module}
use hyper_beam.Core.Process.{LoadWasmReq, Driver}
use hyper_beam.Wasm.Initialize.{Loader, wasm_initialize_runtime}
use hyper_beam.Wasm.Initialize.Loads.{Ends, wasm_initialize_runtime-Ends}
use hyper_beam.Wasm.Initialize.Accounts.{Accounts}
use hyper_beam.Helpers.Signature.{get_function_sig}
use hyper_beam.Helpers.Strings.{strlen}
use hyper_beam.Messages.Terms.{atom, text, tuple, erl_list}
use hyper_beam.Messages.Loads.{import_terms}
use hyper_beam.Checks.Data.{add, add_type, exports, loaded_module, driver}
use hyper_beam.Checks.Ports.{value_or, fresh_port}

abbrev pub env_module : Module
env_module = record loaded_module {
  imports =
      record {
        module_name = codes "env" ++ (0 ∷ []);
        name = codes "get" ++ (0 ∷ []);
        type = ExternType.func add_type;
      }
      ∷ record {
        module_name = codes "env" ++ (0 ∷ []);
        name = codes "memory" ++ (0 ∷ []);
        type = ExternType.memory;
      }
      ∷ [];
}

abbrev pub loader : Loader
loader = record {
  module_new = λ b n. some env_module;
  func_new = λ t. add;
  instance_new = λ m stubs memories. (some exports, memories);
}

abbrev pub leftover : ℕ → Bytes
leftover i = []

abbrev pub request : LoadWasmReq
request = record { binary = stored (0 ∷ []); size = 1; mode = junk }

abbrev after_init : Driver
after_init = value_or (wasm_initialize_runtime loader leftover request fresh_port) driver

wasm_initialize_runtime-Ends_example : Ends fresh_port after_init
unfolding wasm_initialize_runtime
wasm_initialize_runtime-Ends_example =
    wasm_initialize_runtime-Ends loader leftover request fresh_port refl

-- The same module without the memory among its imports.
abbrev pub func_module : Module
func_module = record env_module {
  imports =
      record {
        module_name = codes "env" ++ (0 ∷ []);
        name = codes "get" ++ (0 ∷ []);
        type = ExternType.func add_type;
      }
      ∷ [];
}

-- What the import is announced as.
import_terms_get : import_terms func_module.imports ≡ (
    tuple (
      erl_list
        (atom (codes "func") ∷ text (codes "env") ∷ text (codes "get") ∷ text (codes "(iI)I") ∷ []))
    ∷ [])
unfolding get_function_sig strlen
import_terms_get = refl
