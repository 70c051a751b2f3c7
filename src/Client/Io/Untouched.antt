-- ===== src/Client/Io/Untouched.antt =====
-- src/hb_beamr_io.erl: what the operations on a memory leave as it was.
use hyper_beam.Common.{ℕ, ◌≡◌, refl, ◌∙◌, ap, List, get_elem?}
use hyper_beam.Core.Runtime.{Memory, Instance}
use hyper_beam.Core.Message.{Message}
use hyper_beam.Core.Process.{Proc}
use hyper_beam.Beamr.Memory.Bounds.{HasMemory}
use hyper_beam.Client.Session.{Session}
use hyper_beam.Client.Worker.Exchange.{Ready, took, Rests-keeps}

-- What an exchange of messages leaves as it was.
pub record Untouched (s s' : Session) : Type 0 where
  pub ready : Ready s'
  pub same_proc : s'.port.driver.proc ≡ s.port.driver.proc
  pub same_memories : s'.port.driver.memories ≡ s.port.driver.memories
  pub same_jobs : s'.port.driver.jobs ≡ s.port.driver.jobs
  pub same_worker : s'.port.worker ≡ s.port.worker

pub took-Untouched : {s : Session} (m : Message) → Ready s → Untouched s (took m s.port.driver s)
took-Untouched m ready = record {
  ready = record {
    lives = ready.lives;
    in_step = refl;
    no_mail = refl;
    rests = Rests-keeps ready.rests refl refl;
  };
  same_proc = refl;
  same_memories = refl;
  same_jobs = refl;
  same_worker = refl;
}

pub Untouched-trans : {s t u : Session} → Untouched s t → Untouched t u → Untouched s u
Untouched-trans a b = record {
  ready = b.ready;
  same_proc = b.same_proc ∙ a.same_proc;
  same_memories = b.same_memories ∙ a.same_memories;
  same_jobs = b.same_jobs ∙ a.same_jobs;
  same_worker = b.same_worker ∙ a.same_worker;
}

pub Untouched-HasMemory :
    {s s' : Session} {exports : Instance} {a : ℕ} {m : Memory}
    → Untouched s s'
    → HasMemory s.port.driver exports a m
    → HasMemory s'.port.driver exports a m
Untouched-HasMemory {a} u has = record {
  instance_is = ap (λ (p : Proc). p.instance_) u.same_proc ∙ has.instance_is;
  first_is = has.first_is;
  held = ap (λ (ms : List Memory). get_elem? ms a) u.same_memories ∙ has.held;
  sized = has.sized;
}
