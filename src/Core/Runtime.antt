-- ===== src/Core/Runtime.antt =====
-- What the driver sees of the WebAssembly runtime: types, externals, instances and memories.
use hyper_beam.Common.{ℕ, Bytes, List, Option}
use hyper_beam.Core.Values.{ValKind}

-- `wasm_functype_t`: a parameter or result vector may be `NULL`.
pub record FuncType : Type 0 where
  pub params : Option (List ValKind)
  pub results : Option (List ValKind)

-- `wasm_externtype_t`, with `other` for a kind that the driver does not name.
pub data ExternType : Type 0 where
  func : FuncType → ExternType
  global table memory other : ExternType

-- `wasm_func_t`: its type, and the runtime's handle for its code.
pub record Func : Type 0 where
  pub type : FuncType
  pub func_comm_rt : ℕ

-- `wasm_extern_t`; a table and a memory are references into the runtime's store.
pub data Extern : Type 0 where
  func : Func → Extern
  global : Extern
  table : ℕ → Extern
  memory : ℕ → Extern

-- `wasm_name_t`: `size` bytes, the last of them the NUL.
abbrev pub WasmName : Type 0
WasmName = Bytes

pub record ExportType : Type 0 where
  pub name : Option WasmName
  pub type : ExternType

pub record ImportType : Type 0 where
  pub module_name : WasmName
  pub name : WasmName
  pub type : ExternType

pub record Module : Type 0 where
  pub imports : List ImportType
  pub exports : List ExportType

-- `wasm_instance_t`: its exports, in the order of the module's export types.
abbrev pub Instance : Type 0
Instance = List Extern

-- A linear memory: its size in pages, and the bytes behind `wasm_memory_data`.
pub record Memory : Type 0 where
  pub pages : ℕ
  pub bytes : Bytes
