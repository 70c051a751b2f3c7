-- ===== src/Wasm/Initialize/Ready.antt =====
-- Initializations that come to their end, with the message that is sent.
use hyper_beam.Common.{
  ℕ, ◌≤◌, ◌≡◌, refl, ap, true, false, Bytes, List, [], ◌∷◌, ◌++◌, none, some, Cell, stored, done,
  arith, length, ensures_done, Defined-value,
}
use hyper_beam.Core.Message.{Message}
use hyper_beam.Core.Runtime.{Instance, Module, Memory}
use hyper_beam.Core.Process.{LoadWasmReq, ImportHook, Proc, Driver}
use hyper_beam.Wasm.Initialize.{
  Loader, process_imports, process_exports, init_message, announce, after_link, after_load,
  create_store, create_object, lock, unlock, set_initialized, wasm_initialize_runtime,
}
use hyper_beam.Wasm.Initialize.Loads.{IsReady, process_exports-OnlyTable}
use hyper_beam.Logging.{output_term}
use hyper_beam.Messages.Room.{init_message_fits}
use hyper_beam.Wasm.Initialize.Totality.{
  ShortImports, NamedExports, process_imports-Defined, process_exports-Defined,
}

-- A binary that is a module, can be linked to an instance with an external for each export, and has
-- names and signatures that the driver can handle.
pub record Loadable (loader : Loader) (request : LoadWasmReq) (d : Driver) : Type 0 where
  pub m : Module
  pub loads : loader.module_new request.binary request.size ≡ some m
  pub short : ShortImports m.imports
  pub named : NamedExports m.exports
  pub instance : List (Cell ImportHook) → Instance
  pub links :
      (stubs : List (Cell ImportHook))
      → ((loader.instance_new m stubs d.memories).0 ≡ some (instance stubs))
        × (length m.exports ≤ length (instance stubs))

-- The message is that of the module's imports and exports.
pub record Announces (loader : Loader) (leftover : ℕ → Bytes) (m : Module) (msg : Message)
    : Type 0 where
  pub instance : Instance
  pub p : Proc
  pub imports : Message × List (Cell ImportHook)
  pub exports : Message × Proc
  pub imports_are : process_imports loader m.imports ≡ done imports
  pub exports_are : process_exports leftover 0 m.exports instance p ≡ done exports
  pub message_is : msg ≡ init_message m imports.0 exports.0

-- The port once it is ready.
abbrev announced : Module → Message → Message × Proc → Driver → Driver
announced m imports exports d = unlock (
    output_term (init_message m imports exports.0) (record d {
      proc = record exports.1 { current_import = stored none; is_initialized = true };
    }))

announce-eq :
    (loader : Loader) (leftover : ℕ → Bytes) (m : Module) (instance : Instance) (d : Driver)
    {imports : Message × List (Cell ImportHook)} {exports : Message × Proc}
    → process_imports loader m.imports ≡ done imports
    → process_exports leftover 0 m.exports instance
        (record d.proc { instance_ = stored (some instance) })
      ≡ done exports
    → announce leftover m imports.0 instance d ≡ done (announced m imports.0 exports d)
unfolding announce
announce-eq loader leftover m instance d hi he =
    let fits =
      init_message_fits loader leftover m instance
        (record d.proc { instance_ = stored (some instance) }) hi he in
    rw he (ground (arith, fits))

-- The port with its module and the pointer of its instance.
abbrev linked : Module → List Memory → Driver → Driver
linked m memories d =
    let d₁ = create_store (lock d) in
    let d₂ = create_object (record d₁ {
      proc = record d₁.proc {
        module_ = stored (some m);
        module_object = stored (some d₁.objects.next);
      };
      memories = memories;
    }) in
    create_object
      (record d₂ { proc = record d₂.proc { instance_object = stored (some d₂.objects.next) } })

load-eq :
    (loader : Loader) (leftover : ℕ → Bytes) (request : LoadWasmReq) (d : Driver) (m : Module)
    (instance : Instance) (imports : Message × List (Cell ImportHook)) (exports : Message × Proc)
    → let d₁ = linked m (loader.instance_new m imports.1 d.memories).1 d in
      loader.module_new request.binary request.size ≡ some m
      → process_imports loader m.imports ≡ done imports
      → (loader.instance_new m imports.1 d.memories).0 ≡ some instance
      → process_exports leftover 0 m.exports instance
          (record d₁.proc { instance_ = stored (some instance) })
        ≡ done exports
      → wasm_initialize_runtime loader leftover request d ≡ done (announced m imports.0 exports d₁)
unfolding wasm_initialize_runtime after_load after_link create_store
load-eq loader leftover request d m instance imports exports loads hi links he =
    rw
      (
        loads,
        hi,
        links,
        announce-eq loader leftover m instance
            (linked m (loader.instance_new m imports.1 d.memories).1 d) hi he,
      )
      refl

-- An initialization with a loadable binary comes to its end: the port has the module, an instance
-- and no pending import, and the one message that is sent is that of the module's imports and
-- exports. When the message has been sent, `is_initialized` is as it was before; the job sets it then.
pub wasm_initialize_runtime-loads :
    (loader : Loader) (leftover : ℕ → Bytes) (request : LoadWasmReq) (d : Driver)
    (can : Loadable loader request d)
    → (d' : Driver) × (msg : Message) × (wasm_initialize_runtime loader leftover request d
        ≡ done d')
      × Announces loader leftover can.m msg
      × (d'.sent ≡ d.sent ++ (msg ∷ []))
      × (d'.jobs ≡ d.jobs)
      × IsReady d'.proc
      × (d'.proc.module_ ≡ stored (some can.m))
      × (d'.proc.locked ≡ false)
      × ((before : Driver) × (d' ≡ unlock (set_initialized before))
          × (before.proc.is_initialized ≡ d.proc.is_initialized)
          × (before.sent ≡ d'.sent))
unfolding create_store
wasm_initialize_runtime-loads loader leftover request d can =
    let m = can.m in
    let (imports, hi) =
      Defined-value (process_imports loader m.imports)
        (process_imports-Defined loader m.imports can.short) in
    let instance = can.instance imports.1 in
    let d₁ = linked m (loader.instance_new m imports.1 d.memories).1 d in
    let p = record d₁.proc { instance_ = stored (some instance) } in
    let (exports, he) = Defined-value (process_exports leftover 0 m.exports instance p) (
      process_exports-Defined leftover 0 m.exports instance p can.named
        (omega (arith, (can.links imports.1).1))) in
    let (ix, table, same) =
      ensures_done _ (process_exports leftover 0 m.exports instance p)
        (process_exports-OnlyTable leftover 0 m.exports instance p) he in
    (
      announced m imports.0 exports d₁,
      init_message m imports.0 exports.0,
      load-eq loader leftover request d m instance imports exports can.loads hi
          (can.links imports.1).0 he,
      record {
        instance = instance;
        p = p;
        imports = imports;
        exports = exports;
        imports_are = hi;
        exports_are = he;
        message_is = refl;
      },
      refl,
      refl,
      record {
        m = m;
        module_is = ap (λ (q : Proc). q.module_) same;
        i = instance;
        instance_is = ap (λ (q : Proc). q.instance_) same;
        no_import = refl;
        initialized = refl;
      },
      ap (λ (q : Proc). q.module_) same,
      refl,
      (
        output_term (init_message m imports.0 exports.0) (record d₁ { proc = exports.1 }),
        refl,
        ap (λ (q : Proc). q.is_initialized) same,
        refl,
      ),
    )
