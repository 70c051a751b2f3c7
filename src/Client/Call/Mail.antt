-- ===== src/Client/Call/Mail.antt =====
-- src/hb_beamr.erl: what a client finds in its mail during a call.
use hyper_beam.Common.{◌≡◌, refl, subst, ◌∙◌, List, [], ◌∷◌, some}
use hyper_beam.Core.Values.{WasmVal}
use hyper_beam.Core.Process.{ImportHook, Driver}
use hyper_beam.Wasm.Import.{import_message}
use hyper_beam.Wasm.Execute.{Worker}
use hyper_beam.Messages.Terms.{ErlTerm}
use hyper_beam.Messages.Denote.{Sendable, import_message-denotes}
use hyper_beam.Client.Session.{System, Session, tagged, bytes_eq, list_elements}
use hyper_beam.Client.Io.{error_reason}
use hyper_beam.Client.Call.{import, event}
use hyper_beam.Client.Call.Dialogue.{imported}
use hyper_beam.Client.Call.Turns.{Turned}

module _ (sys : System) where
  pub Turned-is :
      {z : Session} {d d₁ d₂ : Driver} {w₁ w₂ : Worker}
      → Turned sys z d d₁ w₁
      → ◌≡◌ {A = Driver × Worker} (d₁, w₁) (d₂, w₂)
      → Turned sys z d d₂ w₂
  Turned-is {z} {d} t e = subst (λ (o : Driver × Worker). Turned sys z d o.0 o.1) e t

  pub Turned-from :
      {z : Session} {d d₀ d₁ : Driver} {w₁ : Worker}
      → Turned sys z d d₁ w₁
      → d₀.sent ≡ d.sent
      → Turned sys z d₀ d₁ w₁
  Turned-from t e = record {
    lives = t.lives;
    driver_is = t.driver_is;
    worker_is = t.worker_is;
    in_step = t.in_step;
    mail = t.mail ∙ rw e refl;
  }

  pub import_event :
      (hook : ImportHook) (args : List WasmVal)
      → Sendable args
      → (t : ErlTerm) × (sys.erts.build (import_message hook args) [] ≡ some (t ∷ []))
        × (event t
            ≡ some (
                import
                  (imported hook args).module_name
                  (imported hook args).func
                  (imported hook args).args
                  (imported hook args).func_sig))
  unfolding event tagged bytes_eq list_elements error_reason
  import_event hook args numbers = (_, import_message-denotes sys.erts hook args numbers, refl)
