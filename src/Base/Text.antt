-- ===== src/Base/Text.antt =====
-- Texts: an ostringstream as the list of what is written to it, and the decimal and hexadecimal
-- forms of numbers (std::to_string, std::hex).
use Prim.Native.Nat.{ℕ, zero, suc, ◌/◌, ◌%◌, ◌<◌, ◌+◌}
use Prim.Native.String.{String, ◌++◌ as append}
use Prim.Native.Char.{code}
use astartis_codex_control_p.Base.Tests.{ltb, if◌then◌else◌}
use mathlib.Core.Path.{◌≡◌, refl}
use mathlib.Core.Bool.{Bool, true, false, ◌||◌}
use mathlib.Core.Logic.{dite}
use mathlib.Core.List.{List, [], ◌∷◌, ◌++◌}
use mathlib.Core.WellFounded.{Acc, WellFounded}
use native.Mathlib.Omega.{arith}
use native.Mathlib.Decide.{dec_lt}
use text.Mathlib.Text.{◌==◌}
use astartis_codex_control_p.Base.Int.{ℤ, pos, negsuc}

-- oss << a << b << ...; oss.str()
unfoldable pub concat : List String → String
concat [] = ""
concat (s ∷ ss) = append s (concat ss)

abbrev pub is_empty : String → Bool
is_empty s = s == ""

-- xs.count(s) > 0, and std::find(xs.begin(), xs.end(), s) != xs.end()
unfoldable pub has_text : String → List String → Bool
has_text s [] = false
has_text s (x ∷ xs) = x == s || has_text s xs

abbrev pub bool_text : Bool → String
bool_text true = "true"
bool_text false = "false"

nth_text : List String → ℕ → String
nth_text [] n = ""
nth_text (s ∷ ss) zero = s
nth_text (s ∷ ss) (suc n) = nth_text ss n

unfoldable pub digit : ℕ → String
unfolding nth_text
digit = nth_text (
    "0" ∷ "1" ∷ "2" ∷ "3" ∷ "4" ∷ "5" ∷ "6" ∷ "7" ∷ "8" ∷ "9" ∷ "a" ∷ "b" ∷ "c" ∷ "d" ∷ "e" ∷ "f"
    ∷ [])

Acc-below : (k n : ℕ) → n < k → Acc ◌<◌ n
Acc-below zero n h = elim h [ ]
Acc-below (suc k) n h = Acc.intro n (λ m hm. Acc-below k m (omega arith))

unfoldable pub lt_wf : WellFounded ◌<◌
unfolding Acc-below
lt_wf = record { apply = λ n. Acc-below (suc n) n (omega arith) }

decimal_acc : (n : ℕ) → Acc ◌<◌ n → String
decimal_acc n (Acc.intro _ smaller) =
    dite (dec_lt n 10) (λ _. digit n)
      (λ h. append (decimal_acc (n / 10) (smaller (n / 10) (omega arith))) (digit (n % 10)))

hex_acc : (n : ℕ) → Acc ◌<◌ n → String
hex_acc n (Acc.intro _ smaller) =
    dite (dec_lt n 16) (λ _. digit n)
      (λ h. append (hex_acc (n / 16) (smaller (n / 16) (omega arith))) (digit (n % 16)))

-- std::to_string of an unsigned number
unfoldable pub nat_text : ℕ → String
unfolding decimal_acc lt_wf dec_lt digit
nat_text n = decimal_acc n (lt_wf.apply n)

-- std::hex of an unsigned number
unfoldable pub hex_text : ℕ → String
unfolding hex_acc lt_wf dec_lt digit
hex_text n = hex_acc n (lt_wf.apply n)

-- std::to_string of a signed number
unfoldable pub int_text : ℤ → String
unfolding nat_text
int_text (pos n) = nat_text n
int_text (negsuc n) = append "-" (nat_text (suc n))

-- hex << setfill('0') << setw(2) over a buffer of bytes
unfoldable pub hex_bytes : List ℕ → String
unfolding digit
hex_bytes [] = ""
hex_bytes (b ∷ bs) = append (append (digit (b / 16)) (digit (b % 16))) (hex_bytes bs)

numbers_as_text :
    concat (nat_text 1024 ∷ " " ∷ int_text (negsuc 6) ∷ " " ∷ hex_text 255 ∷ []) ≡ "1024 -7 ff"
unfolding concat nat_text int_text hex_text
numbers_as_text = refl

bytes_as_text : hex_bytes (0 ∷ 10 ∷ 255 ∷ []) ≡ "000aff"
unfolding hex_bytes
bytes_as_text = refl

-- The bytes of one character in UTF-8.
unfoldable pub utf8_char : ℕ → List ℕ
utf8_char c =
    if ltb c 128
    then c ∷ []
    else if ltb c 2048
    then (192 + c / 64) ∷ (128 + c % 64) ∷ []
    else if ltb c 65536
    then (224 + c / 4096) ∷ (128 + c / 64 % 64) ∷ (128 + c % 64) ∷ []
    else (240 + c / 262144) ∷ (128 + c / 4096 % 64) ∷ (128 + c / 64 % 64) ∷ (128 + c % 64) ∷ []

-- The bytes of a std::string that holds the text.
unfoldable pub utf8_bytes : String → List ℕ
unfolding utf8_char
utf8_bytes String.[] = []
utf8_bytes (String.◌∷◌ c s) = utf8_char (code c) ++ utf8_bytes s
