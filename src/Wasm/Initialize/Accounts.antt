-- ===== src/Wasm/Initialize/Accounts.antt =====
-- The objects of the runtime over an initialization and the stop of a port: which are made, which
-- are deleted, and which are left.
use hyper_beam.Common.{ℕ, ◌≡◌, true, List, ◌∷◌, some, stored, done, fault}
use hyper_beam.Core.Objects.{Objects}
use hyper_beam.Core.Objects.Deletion.{Below}
use hyper_beam.Core.Message.{Message}
use hyper_beam.Core.Process.{Driver}
use hyper_beam.Core.Runtime.{Module, Memory}
use hyper_beam.Beamr.Lifecycle.{stop_objects}
use hyper_beam.Wasm.Initialize.{lock, create_store, create_object}

-- What an initialization has done with the runtime's objects.
pub data Accounts (d d' : Driver) : Type 0 where
  no_module :
      d'.objects.live ≡ d.objects.live
      → d'.proc.is_initialized ≡ d.proc.is_initialized
      → (Below d.objects.next d.objects.live
          → d'.proc.is_initialized ≡ true
          → stop_objects d'.proc d'.objects ≡ fault)
      → Accounts d d'
  no_instance :
      (engine store binary module_ : ℕ)
      → d'.objects.live ≡ module_ ∷ binary ∷ store ∷ engine ∷ d.objects.live
      → d'.proc.is_initialized ≡ d.proc.is_initialized
      → (d'.proc.is_initialized ≡ true
          → (o : Objects) × (stop_objects d'.proc d'.objects ≡ done o)
            × (o.live ≡ binary ∷ engine ∷ d.objects.live))
      → Accounts d d'
  ready :
      (engine store binary module_ instance : ℕ)
      → d'.objects.live ≡ instance ∷ module_ ∷ binary ∷ store ∷ engine ∷ d.objects.live
      → d'.proc.is_initialized ≡ true
      → ((o : Objects) × (stop_objects d'.proc d'.objects ≡ done o)
          × (o.live ≡ binary ∷ engine ∷ d.objects.live))
      → Accounts d d'

-- The port with engine, store and byte vector, with the module, and with the memories that are there
-- once it is linked.
abbrev with_module : Module → List Memory → Driver → Driver
with_module m memories d =
    let d₁ = create_store (lock d) in
    create_object (record d₁ {
      proc = record d₁.proc {
        module_ = stored (some m);
        module_object = stored (some d₁.objects.next);
      };
      memories = memories;
    })
