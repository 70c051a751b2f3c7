-- ===== src/Client/Io/Chunks.antt =====
-- src/hb_beamr_io.erl: the chunks in which `read_string` meets a text.
use hyper_beam.Common.{
  ℕ, zero, suc, ◌+◌, ◌≤◌, ◌<◌, ◌≡◌, refl, sym, ◌∙◌, true, false, Bytes, [], ◌∷◌, ◌++◌, Bool-cases,
  inl, inr, ◌==◌, arith, length, take, drop,
}
use hyper_beam.Helpers.Strings.{c_string}
use hyper_beam.Client.Io.{split_zero}

-- A chunk that holds the NUL.
pub split_zero-last :
    (c : ℕ) (s : Bytes)
    → length (c_string s) < c
    → length (c_string s) < length s
    → split_zero (take c s) ≡ (c_string s, true)
unfolding split_zero c_string
split_zero-last zero s h k = absurd (omega arith)
split_zero-last (suc c) [] h k = absurd (omega arith)
split_zero-last (suc c) (x ∷ s) h k = elim (Bool-cases (x == 0)) [
  | inl z ↦ rw z
  | inr nz ↦ ground (arith, nz, split_zero-last c s)
]

-- A chunk without a NUL.
pub split_zero-more :
    (c : ℕ) (s : Bytes)
    → c ≤ length (c_string s)
    → (split_zero (take c s) ≡ (take c s, false)) × (c_string s ≡ take c s ++ c_string (drop c s))
unfolding split_zero c_string
split_zero-more zero s h = (refl, refl)
split_zero-more (suc c) [] h = absurd (omega arith)
split_zero-more (suc c) (x ∷ s) h = ground (arith, split_zero-more c s)

pub c_string-drop :
    (c : ℕ) (s : Bytes)
    → c ≤ length (c_string s)
    → length (c_string s) ≡ c + length (c_string (drop c s))
unfolding c_string
c_string-drop zero s h = omega arith
c_string-drop (suc c) [] h = absurd (omega arith)
c_string-drop (suc c) (x ∷ s) h = ground (arith, c_string-drop c s)

drop-nil : (c : ℕ) → drop {A = ℕ} c [] ≡ []
drop-nil zero = refl
drop-nil (suc c) = refl

pub drop-drop : (o c : ℕ) (s : Bytes) → drop c (drop o s) ≡ drop (o + c) s
drop-drop zero c s = ground arith
drop-drop (suc o) c [] = drop-nil c ∙ sym (drop-nil (suc o + c))
drop-drop (suc o) c (x ∷ s) =
    let e : suc o + c ≡ suc (o + c) = omega arith in rw e (drop-drop o c s)
