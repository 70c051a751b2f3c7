-- ===== src/Checks/Data.antt =====
-- A port with a module, an instance and one page of memory, and decoders that stand for `ei`.
use hyper_beam.Common.{
  ◌++◌, ℕ, ◌≡◌, refl, true, false, Bytes, [], ◌∷◌, none, some, junk, stored, length, replicate,
  length-replicate, pos,
}
use hyper_beam.Core.Values.{ValKind, EiTerm}
use hyper_beam.Core.Message.{codes}
use hyper_beam.Core.Runtime.{FuncType, ExternType, Func, Extern, Instance, Module, Memory}
use hyper_beam.Core.Process.{Proc, Driver}
use hyper_beam.Helpers.Exports.{first_memory}
use hyper_beam.Helpers.Terms.{Ei, erl_list_ext}
use hyper_beam.Beamr.Memory.Bounds.{HasMemory}

-- One page of zeros. The number of bytes is a parameter of `zeros`, which stays shut.
unfoldable pub zeros : ℕ → Bytes
zeros n = replicate n 0

pub length-zeros : (n : ℕ) → length (zeros n) ≡ n
unfolding zeros
length-zeros n = length-replicate n 0

abbrev pub page : Memory
page = record { pages = 1; bytes = zeros 65536 }

abbrev pub add_type : FuncType
add_type = record {
  params = some (ValKind.i32 ∷ ValKind.i64 ∷ []);
  results = some (ValKind.i64 ∷ []);
}

abbrev pub add : Func
add = record { type = add_type; func_comm_rt = 7 }

-- It exports its memory and a function `add`.
abbrev pub exports : Instance
exports = Extern.memory 0 ∷ Extern.func add ∷ []

abbrev pub loaded_module : Module
loaded_module = record {
  imports = [];
  exports =
      record { name = some (codes "memory" ++ (0 ∷ [])); type = ExternType.memory }
      ∷ record { name = some (codes "add" ++ (0 ∷ [])); type = ExternType.func add_type }
      ∷ [];
}

abbrev pub proc : Proc
proc = record {
  port = 1;
  pid = stored 2;
  start_time = 3;
  engine = stored 0;
  store = stored 1;
  instance_object = stored (some 4);
  module_object = stored (some 3);
  instance_ = stored (some exports);
  module_ = stored (some loaded_module);
  current_function = junk;
  current_args = junk;
  current_import = stored none;
  indirect_func_table_ix = junk;
  indirect_func_table = junk;
  is_initialized = true;
  locked = false;
}

abbrev pub driver : Driver
driver = record {
  proc = proc;
  memories = page ∷ [];
  objects = record { next = 5; live = 4 ∷ 3 ∷ 2 ∷ 1 ∷ 0 ∷ [] };
  sent = [];
  jobs = [];
}

pub driver-HasMemory : HasMemory driver exports 0 page
unfolding first_memory
driver-HasMemory = record {
  instance_is = refl;
  first_is = refl;
  held = refl;
  sized = length-zeros 65536;
}

abbrev pub five : EiTerm
five = record { ei_type = b'b'; value = 5 }

-- Decoders that read the same from every buffer, a command and a list of two numbers; a text is the
-- buffer itself.
abbrev pub example_ei : Bytes → Ei
example_ei command = record {
  decode_version = λ b i. (some 131, 1);
  decode_tuple_header = λ b i. (some 2, 2);
  decode_list_header = λ b i. (some 2, i);
  decode_atom = λ b i. (some command, 3);
  decode_string = λ b i. (some b, 4);
  decode_binary = λ b i. (some (0 ∷ 97 ∷ []), 5);
  decode_bitstring = λ b i. ((some (1 ∷ 2 ∷ [], 16)), 6);
  decode_long = λ b i. (some (pos 8), i);
  decode_ei_term = λ b i. (some five, i);
  get_type = λ b i. some (erl_list_ext, 2);
}
