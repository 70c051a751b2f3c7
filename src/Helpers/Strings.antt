-- ===== src/Helpers/Strings.antt =====
-- The string functions of C's library, as the driver uses them: on bytes, where the end of a list
-- reads as the NUL.
use hyper_beam.Common.{ℕ, zero, suc, Bool, true, false, Bytes, [], ◌∷◌, ◌==◌, if◌then◌else◌, length}

-- The bytes before the first NUL.
unfoldable pub c_string : Bytes → Bytes
c_string [] = []
c_string (x ∷ xs) = if x == 0 then [] else x ∷ c_string xs

unfoldable pub strlen : Bytes → ℕ
unfolding c_string
strlen s = length (c_string s)

-- `strncmp(a, b, n) == 0`
unfoldable pub strncmp_eq : ℕ → Bytes → Bytes → Bool
strncmp_eq zero a b = true
strncmp_eq (suc n) [] [] = true
strncmp_eq (suc n) [] (y ∷ b) = y == 0
strncmp_eq (suc n) (x ∷ a) [] = x == 0
strncmp_eq (suc n) (x ∷ a) (y ∷ b) =
    let rest = strncmp_eq n a b in if x == y then if x == 0 then true else rest else false

-- `strcmp(a, b) == 0`
unfoldable pub strcmp_eq : Bytes → Bytes → Bool
strcmp_eq [] [] = true
strcmp_eq [] (y ∷ b) = y == 0
strcmp_eq (x ∷ a) [] = x == 0
strcmp_eq (x ∷ a) (y ∷ b) =
    let rest = strcmp_eq a b in if x == y then if x == 0 then true else rest else false
