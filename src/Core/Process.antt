-- ===== src/Core/Process.antt =====
-- hb_core.h: the process structure of a port, the pending import, and the state around them.
use hyper_beam.Common.{ℕ, Bool, Bytes, Cell, List, Option, ℤ}
use hyper_beam.Core.Values.{EiTerm}
use hyper_beam.Core.Message.{Message}
use hyper_beam.Core.Objects.{Objects}
use hyper_beam.Core.Runtime.{Func, Instance, Module, Memory}

-- What `decode_list` returns: an array whose elements may have stayed uninitialised, or `NULL`.
abbrev pub Terms : Type 0
Terms = Option (List (Cell EiTerm))

-- Nothing in the driver assigns `result_length`: it is what the allocated memory held.
pub record ImportResponse : Type 0 where
  pub ready : Bool
  pub error_message : Cell (Option Bytes)
  pub result_terms : Cell Terms
  pub result_length : ℤ

pub record LoadWasmReq : Type 0 where
  pub binary : Cell Bytes
  pub size : ℕ
  pub mode : Cell Bytes

-- Engine, store, module and instance are pointers to objects; what the driver reads of a module and
-- an instance is in `module_` and `instance_`. `exec_env` is the runtime's own and has no field here;
-- `locked` is the state of the mutex `is_running`.
pub record Proc : Type 0 where
  pub port : ℕ
  pub pid : Cell ℕ
  pub start_time : ℕ
  pub engine : Cell ℕ
  pub store : Cell ℕ
  pub instance_object : Cell (Option ℕ)
  pub module_object : Cell (Option ℕ)
  pub instance_ : Cell (Option Instance)
  pub module_ : Cell (Option Module)
  pub current_function : Cell (Cell Bytes)
  pub current_args : Cell Terms
  pub current_import : Cell (Option ImportResponse)
  pub indirect_func_table_ix : Cell ℕ
  pub indirect_func_table : Cell (Option ℕ)
  pub is_initialized : Bool
  pub locked : Bool

-- The environment of a host function: the texts are C strings.
pub record ImportHook : Type 0 where
  pub module_name : Bytes
  pub field_name : Bytes
  pub signature : Bytes
  pub stub_func : Func

-- What `driver_async` has been handed.
pub data Job : Type 0 where
  initialize_runtime : LoadWasmReq → Job
  execute_function : Job

-- A port's state: its process, the memories of the runtime's store, its objects, the messages sent to Erlang
-- and the jobs queued, both oldest first.
pub record Driver : Type 0 where
  pub proc : Proc
  pub memories : List Memory
  pub objects : Objects
  pub sent : List Message
  pub jobs : List Job
