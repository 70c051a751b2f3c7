-- ===== src/Checks/Loading.antt =====
-- A port that is loaded.
use hyper_beam.Common.{◌+◌, ◌≡◌, refl, false, [], ◌∷◌, ◌++◌, some, stored, arith}
use hyper_beam.Core.Message.{codes, Message}
use hyper_beam.Core.Process.{Driver}
use hyper_beam.Helpers.Signature.{get_function_sig}
use hyper_beam.Wasm.Initialize.Loads.{IsReady}
use hyper_beam.Wasm.Initialize.Ready.{Loadable, Announces}
use hyper_beam.Wasm.Execute.{idle}
use hyper_beam.Port.{new_port, Reach, start}
use hyper_beam.Port.Transcript.{at}
use hyper_beam.Port.Loading.{SendsInit, load_request, init_converses}
use hyper_beam.Checks.Data.{exports, page}
use hyper_beam.Checks.Loads.{loader, leftover, env_module}
use hyper_beam.Checks.Ports.{truncate}
use hyper_beam.Checks.System.{speaking, started}
use hyper_beam.Beamr.Lifecycle.{wasm_driver_start}

init-SendsInit : SendsInit speaking (codes "init") (0 ∷ 97 ∷ []) (codes "init") 4
init-SendsInit = record {
  index = 3;
  sends = record { version = 131; behind_version = 1; version_is = refl; command_is = refl };
  type = 108;
  binary_size = refl;
  behind_binary = 5;
  binary_is = refl;
  binary_fits = omega arith;
  mode_type = 108;
  mode_size = 4;
  mode_size_is = refl;
  mode_is = refl;
  mode_fits = omega arith;
}

abbrev started_driver : Driver
started_driver = started.driver

started-Loadable : Loadable loader (load_request (0 ∷ 97 ∷ []) (codes "init") 4) started_driver
unfolding get_function_sig
started-Loadable = record {
  m = env_module;
  loads = refl;
  short = (λ sig e. ground (arith, e), (λ sig e. cc, tt));
  named = ((_, refl), λ sig e. cc, ((_, refl), λ sig e. ground (arith, e), tt));
  instance = λ stubs. exports;
  links = λ stubs. (refl, omega arith);
}

init_converses_example :
    (d' : Driver) × (msg : Message) × Reach speaking truncate (0 + 1) (at (d', idle))
    × IsReady d'.proc
    × (d'.proc.module_ ≡ stored (some env_module))
    × (d'.proc.locked ≡ false)
    × (d'.jobs ≡ [])
    × Announces loader leftover env_module msg
    × (d'.sent ≡ started_driver.sent ++ (msg ∷ []))
unfolding new_port started-Loadable wasm_driver_start
init_converses_example =
    init_converses loader leftover 2 (codes "init") (0 ∷ 97 ∷ []) (codes "init") 4 0 started_driver
      (start 1 3 (page ∷ [])) refl init-SendsInit started-Loadable
