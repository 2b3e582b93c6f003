-- ===== src/Prelude/Texts.antt =====
-- Texts as the program measures and cuts them: `len(s)`, `s[:n]`, and the length in UTF-8.
use Prim.Native.Char.{code}
use Prim.Native.Nat.{ℕ, zero, suc, ◌+◌}
use Prim.Native.String.{String}
use mathlib.Core.Path.{◌≡◌, refl, ap}
use raguardian.Prelude.Tests.{ltb, if◌then◌else◌}

-- `len(s)`
unfoldable pub text_length : String → ℕ
text_length String.[] = 0
text_length (String.◌∷◌ c s) = suc (text_length s)

-- `s[:n]`
unfoldable pub truncate : ℕ → String → String
truncate zero s = ""
truncate (suc n) String.[] = ""
truncate (suc n) (String.◌∷◌ c s) = String.◌∷◌ c (truncate n s)

pub truncate-truncate : (n : ℕ) (s : String) → truncate n (truncate n s) ≡ truncate n s
unfolding truncate
truncate-truncate zero s = refl
truncate-truncate (suc n) String.[] = refl
truncate-truncate (suc n) (String.◌∷◌ c s) = ap (String.◌∷◌ c) (truncate-truncate n s)

-- The bytes of one code point in UTF-8.
unfoldable pub code_bytes : ℕ → ℕ
code_bytes c = if ltb c 0x80 then 1 else if ltb c 0x800 then 2 else if ltb c 0x10000 then 3 else 4

-- `len(s.encode("utf-8"))`
unfoldable pub utf8_bytes : String → ℕ
unfolding code_bytes
utf8_bytes String.[] = 0
utf8_bytes (String.◌∷◌ c s) = code_bytes (code c) + utf8_bytes s

-- `s[n:]`
unfoldable pub drop_text : ℕ → String → String
drop_text zero s = s
drop_text (suc n) String.[] = ""
drop_text (suc n) (String.◌∷◌ c s) = drop_text n s

-- The code of `s[n]`, 0 where there is none.
unfoldable pub code_at : ℕ → String → ℕ
code_at n String.[] = 0
code_at zero (String.◌∷◌ c s) = code c
code_at (suc n) (String.◌∷◌ c s) = code_at n s
