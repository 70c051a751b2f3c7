-- ===== src/Client/Call/Turns.antt =====
-- src/hb_beamr.erl: the turns of a call: what the driver's thread sends after a command, and the
-- answer to a host call.
use hyper_beam.Common.{
  ℕ, ◌≡◌, ◌≢◌, refl, sym, ap, subst, ◌∙◌, true, List, [], ◌∷◌, some, none, Cell, done, pos_part,
  arith, length, drop,
}
use mathlib.Core.List.{append-nil}
use hyper_beam.Core.Values.{ValKind, WasmVal, EiTerm}
use hyper_beam.Core.Message.{codes}
use hyper_beam.Core.Process.{ImportHook, Driver}
use hyper_beam.Helpers.Convert.Loop.{Bits, Converted, cells}
use hyper_beam.Helpers.Strings.{strcmp_eq}
use hyper_beam.Helpers.Terms.Encodings.{decode_list_lem}
use hyper_beam.Beamr.Entry.{wasm_driver_entry}
use hyper_beam.Beamr.Output.{dispatch, respond}
use hyper_beam.Beamr.Output.Headers.{output-dispatch}
use hyper_beam.Wasm.Import.{import_reply, Reply}
use hyper_beam.Wasm.Import.Protocol.{Waits, settled, replied, response_taken, reply_goes_on}
use hyper_beam.Wasm.Execute.{Run, host_call, Worker, waiting, advance, resume}
use hyper_beam.Wasm.Execute.Runs.{requested}
use hyper_beam.Messages.Room.{import_request_sends}
use hyper_beam.Port.{Port}
use hyper_beam.Messages.Denote.{Sendable-Numbers}
use hyper_beam.Client.Session.{
  Value, are_decodable, Request, import_response, System, Session, value,
}
use hyper_beam.Client.Worker.{port_command, proceed, wake_thread, listen, wasm_send, passed_on}
use hyper_beam.Client.Worker.Exchange.{Ready, wasm_send-eq}
use hyper_beam.Client.Call.{dispatch_response}
use hyper_beam.Client.Call.Dialogue.{Suits}

-- The bits of a converted value leave no choice.
Bits-unique :
    (narrow : ℕ → ℕ) (k : ValKind) (old t a b : ℕ)
    → Bits narrow k old t a
    → Bits narrow k old t b
    → a ≡ b
Bits-unique narrow ValKind.i32 old t a b x y = omega arith
Bits-unique narrow ValKind.i64 old t a b x y = x ∙ sym y
Bits-unique narrow ValKind.f32 old t a b x y = omega arith
Bits-unique narrow ValKind.f64 old t a b x y = x ∙ sym y
Bits-unique narrow _ old t a b x y = absurd x

pub Converted-unique :
    (narrow : ℕ → ℕ) (vs : List WasmVal) (ts : List EiTerm) (us ws : List WasmVal)
    → Converted narrow vs ts us
    → Converted narrow vs ts ws
    → us ≡ ws
Converted-unique narrow [] ts us ws x y = x ∙ sym y
Converted-unique narrow (v ∷ vs) [] us ws x y = absurd x
Converted-unique narrow (v ∷ vs) (t ∷ ts) [] ws x y = absurd x
Converted-unique narrow (v ∷ vs) (t ∷ ts) (a ∷ us) [] x y = absurd y
Converted-unique narrow (v ∷ vs) (t ∷ ts) (a ∷ us) (b ∷ ws) x y = ground (
  arith,
  Bits-unique narrow v.kind v.of t.value a.of b.of x.1 y.1,
  Converted-unique narrow vs ts us ws x.2 y.2,
)

module _ (sys : System) where
  -- A session after the thread has had a turn that led from `d` to `d'`: the client has the mail of
  -- this turn.
  pub record Turned (z : Session) (d d' : Driver) (w' : Worker) : Type 0 where
    pub lives : z.alive ≡ true
    pub driver_is : z.port.driver ≡ d'
    pub worker_is : z.port.worker ≡ w'
    pub in_step : z.taken ≡ length d'.sent
    pub mail : z.inbox ≡ passed_on sys (drop (length d.sent) d'.sent)

  -- A command that gives the thread a turn.
  pub command_turns :
      (request : Request) (s : Session) (d d' : Driver) (w' : Worker)
      → s.alive ≡ true
      → s.taken ≡ length d.sent
      → s.inbox ≡ []
      → port_command sys request s.port ≡ done (record s.port { driver = d'; worker = w' })
      → (z : Session) × (wasm_send sys request s ≡ value tt z) × Turned z d d' w'
  command_turns request s d d' w' lives in_step no_mail e =
      let p : Port = record s.port { driver = d'; worker = w' } in
      (
        listen sys p s,
        wasm_send-eq sys request s lives e,
        record {
          lives = lives;
          driver_is = refl;
          worker_is = refl;
          in_step = refl;
          mail = rw (no_mail, in_step) refl;
        },
      )

  pub request-eq :
      (d : Driver) (hook : ImportHook) (args results : List WasmVal) (k : Reply → Run)
      (vs : List Value)
      → Suits hook args results vs
      → advance sys.api sys.leftover (host_call hook args results k) d
        ≡ done (requested sys.leftover hook args d, waiting hook results k)
  unfolding advance
  request-eq d hook args results k vs a =
      rw
        (
          a.other,
          import_request_sends sys.leftover hook args results d (Sendable-Numbers args a.args_are)
              a.some_result,
        )
        refl

  -- The thread goes on with the terms of an answer, in a port in which the import waits.
  resume-eq :
      (d : Driver) (hook : ImportHook) (args results results' : List WasmVal) (k : Reply → Run)
      (vs : List Value)
      → pos_part sys.leftover ≡ 0
      → Suits hook args results vs
      → Converted sys.narrow results (sys.codec.terms vs) results'
      → resume sys.narrow sys.api sys.leftover hook results k
          (replied (some (cells (sys.codec.terms vs))) sys.leftover d)
        ≡ advance sys.api sys.leftover (k (record { trap = none; results = results' })) (settled d)
  unfolding resume
  resume-eq d hook args results results' k vs zero_length a conv =
      let ts = sys.codec.terms vs in
      let (rs, goes_on, conv') =
        reply_goes_on sys.narrow hook a.typed sys.leftover results ts [] d zero_length a.results_are
          (a.enough ∙ sym (sys.codec.length-terms vs)) in
      let same = Converted-unique sys.narrow results ts rs results' conv' conv in
      let goes_on' : import_reply sys.narrow hook results (replied (some (cells ts)) sys.leftover d)
          ≡ done (settled d, record { trap = none; results = results' }) =
        rw (← same) (
          subst
            (λ (cs : List (Cell EiTerm)).
              import_reply sys.narrow hook results (replied (some cs) sys.leftover d)
              ≡ done (settled d, record { trap = none; results = rs }))
            (append-nil (cells ts)) goes_on) in
      rw goes_on' refl

  -- The answer is taken as a command, while the import waits.
  answer_taken :
      (d : Driver) (vs : List Value)
      → Waits d sys.leftover
      → vs ≢ []
      → are_decodable vs ≡ true
      → wasm_driver_entry.output sys.ei sys.caller (sys.codec.term_to_binary (import_response vs)) d
        ≡ done (replied (some (cells (sys.codec.terms vs))) sys.leftover d)
  unfolding dispatch strcmp_eq
  answer_taken d vs waits some_value valid =
      output-dispatch sys.ei sys.caller _ (codes "import_response") _ d
        (sys.codec.sends (import_response vs))
      ∙ response_taken sys.ei sys.caller _ _ _ sys.leftover (some (cells (sys.codec.terms vs))) d
          waits (decode_list_lem sys.ei _ (sys.codec.terms_answered vs some_value valid))

  -- The thread's turn after the answer.
  answer-command :
      (p : Port) (hook : ImportHook) (args results results' : List WasmVal) (k : Reply → Run)
      (vs : List Value) (d' : Driver) (w' : Worker)
      → pos_part sys.leftover ≡ 0
      → p.worker ≡ waiting hook results k
      → Waits p.driver sys.leftover
      → vs ≢ []
      → Suits hook args results vs
      → Converted sys.narrow results (sys.codec.terms vs) results'
      → advance sys.api sys.leftover
          (k (record { trap = none; results = results' }))
          (settled p.driver)
        ≡ done (d', w')
      → port_command sys (import_response vs) p ≡ done (record p { driver = d'; worker = w' })
  unfolding port_command proceed wake_thread respond
  answer-command p hook args results results' k vs d' w' zero_length w waits some_value a conv e =
      rw (answer_taken p.driver vs waits some_value a.decodable, w)
        (rw (resume-eq p.driver hook args results results' k vs zero_length a conv ∙ e) refl)

  pub some_answer :
      (hook : ImportHook) (args results : List WasmVal) (vs : List Value)
      → Suits hook args results vs
      → vs ≢ []
  some_answer hook args results vs a = λ e. omega (arith, a.some_result, a.enough, ap length e)

  -- An answer of the import function gives the thread its next turn.
  pub answer_turns :
      (s : Session) (hook : ImportHook) (args results results' : List WasmVal) (k : Reply → Run)
      (vs : List Value) (d' : Driver) (w' : Worker)
      → pos_part sys.leftover ≡ 0
      → Ready s
      → s.port.worker ≡ waiting hook results k
      → Waits s.port.driver sys.leftover
      → Suits hook args results vs
      → Converted sys.narrow results (sys.codec.terms vs) results'
      → advance sys.api sys.leftover
          (k (record { trap = none; results = results' }))
          (settled s.port.driver)
        ≡ done (d', w')
      → (z : Session) × (dispatch_response sys vs s ≡ value tt z)
        × Turned z (settled s.port.driver) d' w'
  unfolding dispatch_response
  answer_turns s hook args results results' k vs d' w' zero_length ready w waits a conv e =
      let taken =
        answer-command s.port hook args results results' k vs d' w' zero_length w waits
          (some_answer hook args results vs a) a conv e in
      let (z, sent, turned) =
        command_turns (import_response vs) s (settled s.port.driver) d' w' ready.lives ready.in_step
          ready.no_mail taken in
      (z, rw a.valid sent, turned)
