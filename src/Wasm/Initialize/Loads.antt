-- ===== src/Wasm/Initialize/Loads.antt =====
-- How the initialization of a port ends.
use hyper_beam.Common.{
  ℕ, ◌+◌, ◌≡◌, refl, ap, Cell, true, false, Bytes, List, [], ◌∷◌, ◌++◌, Option, none, some, stored,
  is_stored, done, Ensures, ◌>>=◌, fetch, subst, sym, Ensures-bind, Ensures-bind_use, ensures_done,
  Ensures-mono, Ensures-if, length, get_elem?, ◌∙◌,
}
use hyper_beam.Core.Objects.{Objects, delete}
use hyper_beam.Core.Message.{codes, Message}
use hyper_beam.Core.Runtime.{ExportType, Instance, Module}
use hyper_beam.Core.Process.{LoadWasmReq, Proc, Driver}
use hyper_beam.Helpers.Exports.{deref}
use hyper_beam.Helpers.Strings.{strcmp_eq}
use hyper_beam.Logging.{send_error, error_message}
use hyper_beam.Wasm.Import.{fits_in}
use hyper_beam.Wasm.Initialize.{
  Loader, process_imports, note_table, export_sig, process_exports, init_room, init_message, lock,
  unlock, create_store, create_object, delete_store, announce, after_link, after_load,
  wasm_initialize_runtime,
}

-- The port can run functions: it has a module and an instance, and no import is pending.
pub record IsReady (p : Proc) : Type 0 where
  pub m : Module
  pub module_is : p.module_ ≡ stored (some m)
  pub i : Instance
  pub instance_is : p.instance_ ≡ stored (some i)
  pub no_import : p.current_import ≡ stored none
  pub initialized : p.is_initialized ≡ true

-- Module and instance that were assigned, if only `NULL`, are so again.
abbrev pub Assigns : Proc → Proc → Type 0
Assigns p p' =
    (is_stored p.module_ ≡ true → is_stored p'.module_ ≡ true)
    × (is_stored p.instance_ ≡ true → is_stored p'.instance_ ≡ true)

-- The initialization has succeeded, or it has failed and sent an error message.
pub data Loaded (d d' : Driver) : Type 0 where
  loaded : IsReady d'.proc → Loaded d d'
  failed :
      (text : Bytes)
      → d'.sent ≡ d.sent ++ (error_message text ∷ [])
      → d'.proc.is_initialized ≡ d.proc.is_initialized
      → d'.proc.current_import ≡ d.proc.current_import
      → Assigns d.proc d'.proc
      → Loaded d d'

abbrev pub Ends : Driver → Driver → Type 0
Ends d d' =
    ((m : Message) × (d'.sent ≡ d.sent ++ (m ∷ [])))
    × (d'.jobs ≡ d.jobs)
    × (d'.proc.locked ≡ false)
    × Loaded d d'

-- A process in which at most the function table has been noted.
abbrev pub OnlyTable : Proc → Proc → Type 0
OnlyTable p p' =
    (ix : Cell ℕ) × (table : Cell (Option ℕ)) × (p'
      ≡ record p { indirect_func_table_ix = ix; indirect_func_table = table })

note_table-OnlyTable :
    (i : ℕ) (name : Bytes) (exports : Instance) (p : Proc)
    → Ensures (OnlyTable p) (note_table i name exports p)
unfolding note_table
note_table-OnlyTable i name exports p =
    Ensures-if (OnlyTable p) (strcmp_eq name (codes "__indirect_function_table")) _ _
      (Ensures-bind (OnlyTable p) (deref (get_elem? exports i)) _ (λ e. (_, _, refl))) (_, _, refl)

pub process_exports-OnlyTable :
    (leftover : ℕ → Bytes) (i : ℕ) (ts : List ExportType) (exports : Instance) (p : Proc)
    → Ensures (λ (r : Message × Proc). OnlyTable p r.1) (process_exports leftover i ts exports p)
unfolding process_exports
process_exports-OnlyTable leftover i [] exports p = (_, _, refl)
process_exports-OnlyTable leftover i (t ∷ ts) exports p =
    let P = λ (r : Message × Proc). OnlyTable p r.1 in
    Ensures-bind P (deref t.name) _ λ name.
      Ensures-bind_use P (note_table i name exports p) _ (note_table-OnlyTable i name exports p)
        λ p' (ix, table, e). Ensures-bind P (export_sig (leftover i) t.type) _ λ sig.
          Ensures-bind_use P (process_exports leftover (i + 1) ts exports p') _
            (process_exports-OnlyTable leftover (i + 1) ts exports p')
            λ r (ix', table', e'). (
              ix',
              table',
              e'
                  ∙ ap {B = Proc}
                      (λ (q : Proc). record q {
                        indirect_func_table_ix = ix';
                        indirect_func_table = table';
                      })
                      e,
            )

announce-Ends :
    (leftover : ℕ → Bytes) (m : Module) (imports : Message) (instance : Instance) (d : Driver)
    → d.proc.module_ ≡ stored (some m)
    → Ensures (Ends d) (announce leftover m imports instance d)
unfolding announce
announce-Ends leftover m imports instance d has =
    let p = record d.proc { instance_ = stored (some instance) } in
    Ensures-bind_use (Ends d) (process_exports leftover 0 m.exports instance p) _
      (process_exports-OnlyTable leftover 0 m.exports instance p)
      λ (exports, p') (ix, table, same).
        Ensures-bind (Ends d)
          (fits_in (init_room (length m.imports) (length m.exports))
            (init_message m imports exports))
          _
          λ msg. (
            (_, refl),
            refl,
            refl,
            loaded (record {
              m = m;
              module_is = ap (λ q. q.module_) same ∙ has;
              i = instance;
              instance_is = ap (λ q. q.instance_) same;
              no_import = refl;
              initialized = refl;
            }),
          )

Ends-lift :
    (d d₁ d' : Driver)
    → d₁.sent ≡ d.sent
    → d₁.jobs ≡ d.jobs
    → d₁.proc.is_initialized ≡ d.proc.is_initialized
    → d₁.proc.current_import ≡ d.proc.current_import
    → Assigns d.proc d₁.proc
    → Ends d₁ d'
    → Ends d d'
Ends-lift d d₁ d' s j i c (am, ai) ((m, e), e₁, l, loaded r) =
    ((m, rw (← s) e), e₁ ∙ j, l, loaded r)
Ends-lift d d₁ d' s j i c (am, ai) ((m, e), e₁, l, failed t f f₁ f₂ (bm, bi)) = (
  (m, rw (← s) e),
  e₁ ∙ j,
  l,
  failed t (rw (← s) f) (f₁ ∙ i) (f₂ ∙ c) (λ h. bm (am h), λ h. bi (ai h)),
)

after_link-Ends :
    (leftover : ℕ → Bytes) (m : Module) (imports : Message) (d : Driver) (made : Option Instance)
    → d.proc.module_ ≡ stored (some m)
    → Ensures (Ends d) (after_link leftover m imports d made)
unfolding after_link send_error
after_link-Ends leftover m imports d none has =
    let text = codes "Failed to create WASM instance (although module was created)." in
    ((_, refl), refl, refl, failed text refl refl refl (λ h. h, λ h. refl))
after_link-Ends leftover m imports d (some instance) has =
    let d₁ =
      create_object
        (record d { proc = record d.proc { instance_object = stored (some d.objects.next) } }) in
    Ensures-mono (Ends d₁) (Ends d) (announce leftover m imports instance d₁)
      (λ d'. Ends-lift d d₁ d' refl refl refl refl (λ h. h, λ h. h))
      (announce-Ends leftover m imports instance d₁ has)

-- What the failure of `after_load` deletes leaves the rest of the port as it is.
delete_store-objects :
    (binary : ℕ) (d : Driver)
    → Ensures (λ d'. (o : Objects) × (d' ≡ record d { objects = o })) (delete_store binary d)
unfolding delete_store
delete_store-objects binary d =
    let P = λ (d' : Driver). (o : Objects) × (d' ≡ record d { objects = o }) in
    Ensures-bind P (delete binary d.objects) _ λ o. Ensures-bind P (fetch d.proc.store) _ λ store.
      Ensures-bind P (delete store o) _ λ o.
        Ensures-bind P (fetch d.proc.engine) _
          λ engine. Ensures-bind P (delete engine o) _ λ o. (o, refl)

delete_store-Ends :
    (binary : ℕ) (d₀ d : Driver) (text : Bytes)
    → d.sent ≡ d₀.sent ++ (error_message text ∷ [])
    → d.jobs ≡ d₀.jobs
    → d.proc.is_initialized ≡ d₀.proc.is_initialized
    → d.proc.current_import ≡ d₀.proc.current_import
    → Assigns d₀.proc d.proc
    → Ensures (Ends d₀) (delete_store binary d >>= λ d'. done (unlock d'))
delete_store-Ends binary d₀ d text s j i c a =
    Ensures-bind_use (Ends d₀) (delete_store binary d) _ (delete_store-objects binary d)
      λ d' (o, e). subst (λ x. Ends d₀ (unlock x)) (sym e) ((_, s), j, refl, failed text s i c a)

after_load-Ends :
    (loader : Loader) (leftover : ℕ → Bytes) (binary : ℕ) (d : Driver) (made : Option Module)
    → Ensures (Ends d) (after_load loader leftover binary d made)
unfolding after_load send_error
after_load-Ends loader leftover binary d none =
    delete_store-Ends binary d
      (send_error (codes "Failed to create module.")
        (record d { proc = record d.proc { module_ = stored none; module_object = stored none } }))
      (codes "Failed to create module.") refl refl refl refl (λ h. refl, λ h. h)
after_load-Ends loader leftover binary d (some m) =
    Ensures-bind (Ends d) (process_imports loader m.imports) _ λ (imports, stubs).
      let (made, memories) = loader.instance_new m stubs d.memories in
      let d₁ = create_object (record d {
        proc = record d.proc {
          module_ = stored (some m);
          module_object = stored (some d.objects.next);
        };
        memories = memories;
      }) in
      Ensures-mono (Ends d₁) (Ends d) (after_link leftover m imports d₁ made)
        (λ d'. Ends-lift d d₁ d' refl refl refl refl (λ h. refl, λ h. h))
        (after_link-Ends leftover m imports d₁ made refl)

-- An initialization that comes to its end has sent exactly one message, queued nothing and given the
-- mutex `is_running` back. Either the port is ready, with a module, an
-- instance and no pending import, or the message is an error, and neither `is_initialized` nor
-- `current_import` has changed; a module and an instance that had been assigned still are, if only to
-- `NULL`.
pub wasm_initialize_runtime-Ends :
    (loader : Loader) (leftover : ℕ → Bytes) (request : LoadWasmReq) (d : Driver) {d' : Driver}
    → wasm_initialize_runtime loader leftover request d ≡ done d'
    → Ends d d'
unfolding wasm_initialize_runtime create_store
wasm_initialize_runtime-Ends loader leftover request d {d'} h =
    let d₁ = create_store (lock d) in
    Ends-lift d d₁ d' refl refl refl refl (λ h. h, λ h. h)
      (ensures_done (Ends d₁) _
        (after_load-Ends loader leftover (d.objects.next + 2) d₁
          (loader.module_new request.binary request.size))
        h)
