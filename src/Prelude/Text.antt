-- ===== src/Prelude/Text.antt =====
-- Texts as Python has them: sequences of code points.
use Prim.Native.Char.{code}
use Prim.Native.Nat.{ℕ, zero, suc}
use Prim.Native.String.{String}
use mathlib.Core.Bool.{Bool, true, false, ◌&&◌, ◌||◌, not}
use synora_agentic_erp.Prelude.Tests.{leb, nat_eq}

-- len(s)
unfoldable pub text_length : String → ℕ
text_length String.[] = 0
text_length (String.◌∷◌ c s) = suc (text_length s)

-- s[:n]
unfoldable pub prefix : ℕ → String → String
prefix zero s = ""
prefix (suc n) String.[] = ""
prefix (suc n) (String.◌∷◌ c s) = String.◌∷◌ c (prefix n s)

abbrev within : ℕ → ℕ → ℕ → Bool
within lo hi n = leb lo n && leb n hi

-- The code points that str.strip() removes.
unfoldable pub is_space : ℕ → Bool
is_space n =
    within 9 13 n
    || within 28 32 n
    || nat_eq n 0x85
    || nat_eq n 0xa0
    || nat_eq n 0x1680
    || within 0x2000 0x200a n
    || within 0x2028 0x2029 n
    || nat_eq n 0x202f
    || nat_eq n 0x205f
    || nat_eq n 0x3000

-- bool(s.strip())
unfoldable pub has_text : String → Bool
unfolding is_space
has_text String.[] = false
has_text (String.◌∷◌ c s) = not (is_space (code c)) || has_text s

-- every character of the text passes a test on its code point
unfoldable pub all_codes : (ℕ → Bool) → String → Bool
all_codes p String.[] = true
all_codes p (String.◌∷◌ c s) = p (code c) && all_codes p s

-- character in "0123456789abcdef"
abbrev pub is_hex : ℕ → Bool
is_hex n = within b'0' b'9' n || within b'a' b'f' n

-- s + t
unfoldable pub concat : String → String → String
concat String.[] t = t
concat (String.◌∷◌ c s) t = String.◌∷◌ c (concat s t)

-- s.startswith(prefix)
unfoldable pub starts_with : String → String → Bool
starts_with String.[] s = true
starts_with (String.◌∷◌ c p) String.[] = false
starts_with (String.◌∷◌ c p) (String.◌∷◌ d s) = nat_eq (code c) (code d) && starts_with p s

-- part in s
unfoldable pub contains : String → String → Bool
unfolding starts_with
contains part String.[] = starts_with part String.[]
contains part (String.◌∷◌ c s) = starts_with part (String.◌∷◌ c s) || contains part s
