-- ===== src/Beamr/Output/Calls.antt =====
-- The `call` command: what it needs, and what it leaves for the job that it queues.
use hyper_beam.Common.{
  ℕ, ◌≡◌, refl, true, Bytes, [], ◌∷◌, ◌++◌, some, stored, done, arith, length, ◌<◌,
}
use mathlib.Core.List.{append_assoc}
use hyper_beam.Core.Process.{Terms, execute_function, Driver}
use hyper_beam.Helpers.Terms.{Ei, decode_list}
use hyper_beam.Beamr.Output.{max_atom_len, into_buffer, async, call_command}

-- A `call` whose function name is `name`, which fits its buffer, and whose argument list decodes to
-- `args`.
pub record DecodesCall (ei : Ei) (buff : Bytes) (index : ℕ) (name : Bytes) (args : Terms)
    : Type 0 where
  pub name_is : (ei.decode_string buff index).0 ≡ some name
  pub name_fits : length name < max_atom_len
  pub end : ℕ
  pub args_are : decode_list ei buff (ei.decode_string buff index).1 ≡ done (args, end)

-- The state that a call leaves behind.
abbrev pub called : Bytes → Terms → Driver → Driver
called name args d = async execute_function (record d {
  proc = record d.proc { current_function = stored (stored name); current_args = stored args };
})

module _ (ei : Ei) (caller : ℕ) (buff : Bytes) (index : ℕ) where
  -- Once the module is initialized, a call that decodes queues one job and leaves its name and its
  -- arguments for it.
  pub call-queues :
      (d : Driver) (name : Bytes) (args : Terms)
      → d.proc.is_initialized ≡ true
      → DecodesCall ei buff index name args
      → call_command ei caller buff index d ≡ done (called name args d)
  unfolding call_command into_buffer
  call-queues d name args on decodes =
      ground (arith, on, decodes.name_is, decodes.name_fits, decodes.args_are)

-- Two calls that decode, with names of at most 255 bytes, and arrive at an initialized port before
-- the first one's job has run leave two jobs, and both jobs find the name and the arguments of the
-- second call: the first call is lost and the second runs twice.
pub second_call_wins :
    (ei : Ei) (caller : ℕ) (buff buff' : Bytes) (index index' : ℕ) (name name' : Bytes)
    (args args' : Terms) (d : Driver)
    → d.proc.is_initialized ≡ true
    → DecodesCall ei buff index name args
    → DecodesCall ei buff' index' name' args'
    → (d' d'' : Driver) × (call_command ei caller buff index d ≡ done d')
      × (call_command ei caller buff' index' d' ≡ done d'')
      × (d''.jobs ≡ d.jobs ++ (execute_function ∷ execute_function ∷ []))
      × (d''.proc.current_function ≡ stored (stored name'))
      × (d''.proc.current_args ≡ stored args')
second_call_wins ei caller buff buff' index index' name name' args args' d on first second = (
  called name args d,
  called name' args' (called name args d),
  call-queues ei caller buff index d name args on first,
  call-queues ei caller buff' index' (called name args d) name' args' on second,
  append_assoc d.jobs (execute_function ∷ []) (execute_function ∷ []),
  refl,
  refl,
)
