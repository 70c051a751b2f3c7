-- ===== src/Client/Call/Conversation.antt =====
-- src/hb_beamr.erl: `call` and `monitor_call` from end to end.
use hyper_beam.Common.{
  ℕ, zero, suc, ◌<◌, ◌≤◌, ◌≡◌, refl, sym, ap, subst, ◌∙◌, false, List, [], ◌∷◌, ◌++◌, Option, some,
  none, Cell, done, done-injective, pos_part, arith, length, drop-append,
}
use hyper_beam.Core.Values.{WasmVal}
use hyper_beam.Core.Message.{Message}
use hyper_beam.Core.Runtime.{Memory, Instance}
use hyper_beam.Core.Process.{ImportHook, Proc, Driver}
use hyper_beam.Logging.{output_term, send_error, error_message}
use hyper_beam.Helpers.Convert.Loop.{Converted}
use hyper_beam.Wasm.Import.{import_message, new_response, Reply}
use hyper_beam.Wasm.Import.Protocol.{settled}
use hyper_beam.Wasm.Initialize.{unlock}
use hyper_beam.Wasm.Execute.{execute_message, execute_trapped, Run, Worker, idle, waiting, advance}
use hyper_beam.Wasm.Execute.Runs.{requested}
use hyper_beam.Messages.Terms.{ErlTerm}
use hyper_beam.Messages.Denote.{execute_message-denotes, error_message-denotes}
use hyper_beam.Client.Session.{
  Value, System, Session, Flow, value, ◌>>=◌, receive, tagged, bytes_eq, list_elements,
}
use hyper_beam.Client.Session.Laws.{bind-value, receive-first}
use hyper_beam.Client.Worker.Exchange.{Ready, no_job, asks, passed_on-one}
use hyper_beam.Client.Io.{error_reason}
use hyper_beam.Client.Call.{
  Event, event, ImportFun, CallResult, dispatch_response, after_import, import_failed, catch-value,
  on_event, monitor_call,
}
use hyper_beam.Client.Call.Carries.{
  Fits, Fits-memories, Fits-same, returned-eq, computes-eq, invokes-eq, Dialogue-advances,
}
use hyper_beam.Client.Call.Dialogue.{
  imported, Suits, Serves, Dialogue, returns, traps, works, invokes,
}
use hyper_beam.Client.Call.Turns.{Turned, request-eq, answer_turns}
use hyper_beam.Client.Call.Mail.{Turned-is, Turned-from, import_event}

module _ (sys : System) {St : Type 0} (import_fun : ImportFun St) (inst : Cell (Option Instance))
    (table : Cell (Option ℕ)) where
  -- A port at which a call can be made, with some memories.
  pub record Idle (s : Session) (mem : List Memory) : Type 0 where
    pub ready : Ready s
    pub at_rest : s.port.worker ≡ idle
    pub free : s.port.driver.proc.locked ≡ false
    pub fits : Fits inst table s.port.driver mem

  -- The client's side of a call comes to an end, with any fuel that is enough.
  pub record Ends (z : Session) (st : St) (r : CallResult St) (mem : List Memory) : Type 0 where
    pub fuel : ℕ
    pub last : Session
    pub comes : (n : ℕ) → fuel < n → monitor_call sys import_fun n st z ≡ value r last
    pub idle_again : Idle last mem

  -- Fuel for one message more.
  one_more :
      (b n : ℕ) (z : Session) (st : St) {x : Flow (CallResult St)}
      → b < n
      → ((k : ℕ) → b ≤ k → monitor_call sys import_fun (suc k) st z ≡ x)
      → monitor_call sys import_fun n st z ≡ x
  one_more b zero z st h f = absurd (omega arith)
  one_more b (suc k) z st h f = f k (omega arith)

  -- The first message of the mail is handled.
  monitor-first :
      (k : ℕ) (z : Session) (st : St) (t : ErlTerm) (e : Event) {x : Flow (CallResult St)}
      → z.inbox ≡ t ∷ []
      → event t ≡ some e
      → on_event sys import_fun
          (λ st'. monitor_call sys import_fun k st')
          st
          e
          (record z { inbox = [] })
        ≡ x
      → monitor_call sys import_fun (suc k) st z ≡ x
  unfolding monitor_call
  monitor-first k z st t e mail is_event h =
      bind-value (receive event)
        (on_event sys import_fun (λ st'. monitor_call sys import_fun k st') st) z
        (receive-first event z t [] mail is_event) h

  -- The turn that ends a call: one message, which the client takes for the result.
  last_turn :
      (z : Session) (st : St) (r : CallResult St) (mem : List Memory) (d d' : Driver) (m : Message)
      (t : ErlTerm) (e : Event)
      → Turned sys z d d' idle
      → d'.sent ≡ d.sent ++ (m ∷ [])
      → d'.proc.locked ≡ false
      → Fits inst table d' mem
      → sys.erts.build m [] ≡ some (t ∷ [])
      → event t ≡ some e
      → ((n : ℕ) (s : Session)
          → on_event sys import_fun (λ st'. monitor_call sys import_fun n st') st e s ≡ value r s)
      → Ends z st r mem
  last_turn z st r mem d d' m t e turned sent free fits built is_event handled =
      let z₁ : Session = record z { inbox = [] } in
      let mail : z.inbox ≡ t ∷ [] =
        turned.mail ∙ rw (sent, drop-append d.sent (m ∷ [])) (passed_on-one sys m built) in
      record {
        fuel = 0;
        last = z₁;
        comes = λ n h.
            one_more 0 n z st h (λ k _. monitor-first k z st t e mail is_event (handled k z₁));
        idle_again = record {
          ready = record {
            lives = turned.lives;
            in_step = turned.in_step ∙ ap (λ (x : Driver). length x.sent) (sym turned.driver_is);
            no_mail = refl;
            rests =
                no_job turned.worker_is
                  (ap (λ (x : Driver). x.jobs) turned.driver_is ∙ fits.no_jobs);
          };
          at_rest = turned.worker_is;
          free = ap (λ (x : Driver). x.proc.locked) turned.driver_is ∙ free;
          fits = subst (λ x. Fits inst table x mem) (sym turned.driver_is) fits;
        };
      }

  -- The turn up to a host call, and from the import function's answer on.
  asks-Ends :
      (st st' : St) (mem mem₁ mem' : List Memory) (hook : ImportHook)
      (args results results' : List WasmVal) (k : Reply → Run) (vs : List Value) (r : CallResult St)
      (z : Session) (d : Driver)
      → pos_part sys.leftover ≡ 0
      → Fits inst table d mem
      → Turned sys z d (requested sys.leftover hook args d) (waiting hook results k)
      → Suits hook args results vs
      → Serves sys import_fun inst table st (imported hook args) mem vs st' mem₁
      → Converted sys.narrow results (sys.codec.terms vs) results'
      → ((d₂ : Driver)
          → Fits inst table d₂ mem₁
          → (o : Driver × Worker) × (advance sys.api sys.leftover
                (k (record { trap = none; results = results' }))
                d₂
              ≡ done o)
            × ((z' : Session) → Turned sys z' d₂ o.0 o.1 → Ends z' st' r mem'))
      → Ends z st r mem'
  unfolding on_event after_import new_response
  asks-Ends st st' mem mem₁ mem' hook args results results' k vs r z d l f t a serves conv next =
      let (tm, built, is_event) = import_event sys hook args a.args_are in
      let mail : z.inbox ≡ tm ∷ [] =
        t.mail
        ∙ rw (drop-append d.sent (import_message hook args ∷ []))
            (passed_on-one sys (import_message hook args) built) in
      let z₁ : Session = record z { inbox = [] } in
      let same : z₁.port.driver ≡ requested sys.leftover hook args d = t.driver_is in
      let ready : Ready z₁ = record {
        lives = t.lives;
        in_step = t.in_step ∙ ap (λ (x : Driver). length x.sent) (sym same);
        no_mail = refl;
        rests =
            asks hook results k (new_response sys.leftover) t.worker_is
              (ap (λ (x : Driver). x.proc.current_import) same) refl;
      } in
      let (s₂, given, served) =
        serves.serve z₁ ready (ap (λ (x : Driver). x.memories) same ∙ f.memories_are)
          (ap (λ (x : Driver). x.proc.instance_) same ∙ f.instance_is) in
      let proc_is : s₂.port.driver.proc ≡ (requested sys.leftover hook args d).proc =
        served.same_proc ∙ ap (λ (x : Driver). x.proc) same in
      let f₂ : Fits inst table (settled s₂.port.driver) mem₁ = record {
        memories_are = served.memories_are;
        instance_is = ap (λ (p : Proc). p.instance_) proc_is ∙ f.instance_is;
        table_is = ap (λ (p : Proc). p.indirect_func_table) proc_is ∙ f.table_is;
        no_jobs = served.same_jobs ∙ ap (λ (x : Driver). x.jobs) same ∙ f.no_jobs;
        on = ap (λ (p : Proc). p.is_initialized) proc_is ∙ f.on;
      } in
      let (o, advances, rest) = next (settled s₂.port.driver) f₂ in
      let (z₃, sent, turned) =
        answer_turns sys s₂ hook args results results' k vs o.0 o.1 l served.ready
          (served.same_worker ∙ t.worker_is) (ap (λ (p : Proc). p.current_import) proc_is) a conv
          advances in
      let ends = rest z₃ turned in
      record {
        fuel = suc ends.fuel;
        last = ends.last;
        comes = λ n h. one_more (suc ends.fuel) n z st h λ b le.
            monitor-first b z st tm _ mail is_event (
              catch-value
                (import_fun st (imported hook args)
                  >>= after_import sys import_fun (λ st'. monitor_call sys import_fun b st'))
                (import_failed sys import_fun st) z₁
                (bind-value (import_fun st (imported hook args)) _ z₁ given
                  (bind-value (dispatch_response sys vs) _ s₂ sent (ends.comes b le))));
        idle_again = ends.idle_again;
      }

  -- The driver and `monitor_call` carry a dialogue out.
  pub Dialogue-Ends :
      {st : St} {mem mem' : List Memory} {run : Run} {r : CallResult St}
      → pos_part sys.leftover ≡ 0
      → Dialogue sys import_fun inst table st mem run r mem'
      → (z : Session) (d d' : Driver) (w' : Worker) → Fits inst table d mem
      → advance sys.api sys.leftover run d ≡ done (d', w')
      → Turned sys z d d' w'
      → Ends z st r mem'
  unfolding advance execute_trapped send_error event tagged bytes_eq list_elements error_reason
      on_event
  Dialogue-Ends l (returns st mem rs numbers) z d d' w' f e t =
      let d₁ = unlock (settled (output_term (execute_message rs) d)) in
      last_turn z st _ mem d d₁ (execute_message rs) _ _
        (Turned-is sys t (done-injective (sym e ∙ returned-eq sys rs d))) refl refl
        (Fits-same d₁ f refl refl refl refl refl) (execute_message-denotes sys.erts rs numbers) refl
        (λ n s. refl)
  Dialogue-Ends l (traps st mem message) z d d' w' f e t =
      last_turn z st _ mem d _ (error_message message) _ _
        (Turned-is sys t (done-injective (sym e))) refl refl
        (Fits-same _ f refl refl refl refl refl) (error_message-denotes sys.erts message) refl
        (λ n s. refl)
  Dialogue-Ends l (works st mem mem' g k r next) z d d' w' f e t =
      Dialogue-Ends l next z (record d { memories = g mem }) d' w' (Fits-memories (g mem) f)
        (sym (computes-eq sys g k d f.memories_are) ∙ e) (Turned-from sys t refl)
  Dialogue-Ends l
        (Dialogue.asks st st' mem mem₁ mem' hook args results results' k vs r a serves conv next) z
        d d' w' f e t =
      asks-Ends st st' mem mem₁ mem' hook args results results' k vs r z d l f
        (Turned-is sys t (done-injective (sym e ∙ request-eq sys d hook args results k vs a))) a
        serves conv
        λ d₂ f₂.
          let (o, advances) = Dialogue-advances sys next d₂ f₂ in
          (o, advances, λ z' t'. Dialogue-Ends l next z' d₂ o.0 o.1 f₂ advances t')
  Dialogue-Ends l (invokes st mem mem₁ mem' hook args results k status r named calls next) z d d' w'
        f e t =
      Dialogue-Ends l next z (record d { memories = mem₁ }) d' w' (Fits-memories mem₁ f)
        (sym (invokes-eq sys hook args results k status mem mem₁ d f named calls) ∙ e)
        (Turned-from sys t refl)
