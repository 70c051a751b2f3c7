-- ===== src/Checks/Starting.antt =====
-- A port that is started by a client.
use hyper_beam.Common.{◌≡◌, refl, [], ◌∷◌, some, none, Bytes, arith}
use hyper_beam.Core.Message.{codes}
use hyper_beam.Helpers.Signature.{get_function_sig}
use hyper_beam.Port.Loading.{SendsInit}
use hyper_beam.Wasm.Initialize.{Loader}
use hyper_beam.Client.Session.{System, Session, undefined}
use hyper_beam.Client.Call.{spawned, start}
use hyper_beam.Client.Call.Starting.{Startable, start_undefined}
use hyper_beam.Checks.Codec.{plain_ei, binary_of, type_at, atom_at}
use hyper_beam.Checks.Clients.{system}
use hyper_beam.Checks.Data.{exports, page}
use hyper_beam.Checks.Loads.{loader, func_module}

abbrev linkable : Loader
linkable = record loader { module_new = λ b n. some func_module }

abbrev refusing : Loader
refusing = record loader { module_new = λ b n. none }

abbrev good_system : System
good_system = record system { loader = linkable }

abbrev bad_system : System
bad_system = record system { loader = refusing }

abbrev image : Bytes
image = 4 ∷ 97 ∷ 115 ∷ 109 ∷ []

image-SendsInit : SendsInit plain_ei (0 ∷ image) image (codes "init") 4
unfolding type_at atom_at
image-SendsInit = record {
  index = 1;
  sends = record { version = 131; behind_version = 1; version_is = refl; command_is = refl };
  type = 108;
  binary_size = refl;
  behind_binary = 1;
  binary_is = refl;
  binary_fits = omega arith;
  mode_type = 108;
  mode_size = 4;
  mode_size_is = refl;
  mode_is = refl;
  mode_fits = omega arith;
}

image-Startable : Startable good_system 1 3 (page ∷ []) image (codes "init") 4
unfolding get_function_sig binary_of
image-Startable = record {
  sends = image-SendsInit;
  can = record {
    m = func_module;
    loads = refl;
    short = (λ sig e. ground (arith, e), tt);
    named = ((_, refl), λ sig e. cc, ((_, refl), λ sig e. ground (arith, e), tt));
    instance = λ stubs. exports;
    links = λ stubs. (refl, omega arith);
  };
  functions = ((_, refl), tt);
}

start_undefined_example :
    start bad_system image (codes "init") (spawned bad_system 1 3 (page ∷ [])) ≡ undefined
unfolding binary_of
start_undefined_example =
    start_undefined bad_system 1 3 (page ∷ []) image (codes "init") 4 image-SendsInit refl
