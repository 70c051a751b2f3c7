-- ===== src/Helpers/Convert/Echo.antt =====
-- A value on its way from an Erlang term into WebAssembly and back into a message.
use hyper_beam.Common.{ℕ, ◌-◌, ◌^◌, ◌≤◌, ◌<◌, ◌≡◌, refl, ◌≢◌, ◌⊎◌, [], ◌∷◌, arith}
use hyper_beam.Core.Values.{ValKind, WasmVal, EiTerm, low32}
use hyper_beam.Core.Message.{Message, drv_int, drv_int64, drv_float, value_at, word}
use hyper_beam.Helpers.Convert.{erl_term_to_wasm_val, wasm_val_to_erl_term}

abbrev pub val : ValKind → ℕ → WasmVal
val k bits = record { kind = k; of = bits }

-- The 64-bit patterns of the `long`s that an `int` holds too.
abbrev pub FitsInt : ℕ → Type 0
FitsInt x = (x < 2 ^ 31) ⊎ ((2 ^ 64 - 2 ^ 31 ≤ x) × (x < 2 ^ 64))

-- The bits that a value of a kind can hold; the short floats are left out.
abbrev pub Holds : ValKind → ℕ → Type 0
Holds ValKind.i32 x = FitsInt x
Holds ValKind.i64 x = Unit
Holds ValKind.f64 x = Unit
Holds _ x = ⊥

-- The message that carries given bits as a number or a float.
abbrev pub carrier : ValKind → ℕ → Message
carrier ValKind.i32 x = drv_int ∷ word x ∷ []
carrier ValKind.i64 x = drv_int64 ∷ value_at x ∷ []
carrier ValKind.f64 x = drv_float ∷ value_at x ∷ []
carrier _ x = []

-- The bits of a term that are put into a value are sent back as they were, as a number or a float by
-- the value's kind: always for the kinds of 64 bits, and for `i32` if the number is one that an `int`
-- holds. What the value held before plays no part.
pub echo_bits :
    (narrow : ℕ → ℕ) (k : ValKind) (old : ℕ) (t : EiTerm)
    → Holds k t.value
    → wasm_val_to_erl_term (erl_term_to_wasm_val narrow (val k old) t).0 ≡ carrier k t.value
unfolding erl_term_to_wasm_val wasm_val_to_erl_term
echo_bits narrow ValKind.i32 old t fits = ground arith
echo_bits narrow ValKind.i64 old t fits = refl
echo_bits narrow ValKind.f64 old t fits = refl
echo_bits narrow _ old t fits = absurd fits

-- The message for a 32-bit float depends on the four bytes of the union behind it: two values that
-- hold the same float, with different bytes there, give different messages.
pub float_leaks :
    (a b : ℕ)
    → low32 a ≡ low32 b
    → a ≢ b
    → wasm_val_to_erl_term (val ValKind.f32 a) ≢ wasm_val_to_erl_term (val ValKind.f32 b)
unfolding wasm_val_to_erl_term
float_leaks a b same ne h = ground arith
