-- ===== src/Core/Values.antt =====
-- The values that cross the boundary between WebAssembly and Erlang: `wasm_val_t` of wasm_c_api.h
-- and `ei_term` of ei.h, as the driver's code reads and writes them.
use hyper_beam.Common.{Bool, ℕ, ◌+◌, ◌-◌, ◌*◌, ◌/◌, ◌%◌, ◌^◌, ltb, if◌then◌else◌}

-- `wasm_valkind_t`. It is a byte, and `other` is any value that the driver names nowhere.
pub data ValKind : Type 0 where
  i32 i64 f32 f64 v128 externref funcref : ValKind
  other : ℕ → ValKind

-- `wasm_val_t`. `of` holds the eight bytes of the union as one little-endian number: `of.i32` and
-- `of.f32` are its low half.
pub record WasmVal : Type 0 where
  pub kind : ValKind
  pub of : ℕ

-- `ei_term`. `value` holds the first eight bytes of its union, which `value.i_val` reads as a
-- `long` and `value.d_val` as a `double`.
pub record EiTerm : Type 0 where
  pub ei_type : ℕ
  pub value : ℕ

-- The low half of the union, and a write to it, which leaves the high half alone.
abbrev pub low32 : ℕ → ℕ
low32 w = w % 2 ^ 32

abbrev pub put_low32 : ℕ → ℕ → ℕ
put_low32 of w = of / 2 ^ 32 * 2 ^ 32 + w % 2 ^ 32

-- The conversion of an `int` to the unsigned 64-bit `ErlDrvTermData`: it extends the sign.
abbrev pub sign_extend : ℕ → ℕ
sign_extend w = if ltb w (2 ^ 31) then w else w + (2 ^ 64 - 2 ^ 32)

-- The bits of a double that is neither infinite nor a NaN.
unfoldable pub is_finite : ℕ → Bool
is_finite w = ltb (w / 2 ^ 52 % 2 ^ 11) 2047
