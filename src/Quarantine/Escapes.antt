-- ===== src/Quarantine/Escapes.antt =====
-- The quoting of the texts in the sidecar, and a reader of JSON strings (RFC 8259).
use astartis_codex_control_p.Base.{
  String, append, ◌≡◌, refl, inl, inr, Bool, true, false, ◌||◌, Option, none, some, arith, ltb,
  nat_eq, if◌then◌else◌, Bool-cases, if_cases,
}
use Prim.Native.Char.{Char, code}
use Prim.Native.String.append
use text.Mathlib.TextEquality.{Char-path}
use astartis_codex_control_p.Quarantine.{escape}

unfoldable pub put : Char → Option (String × String) → Option (String × String)
put c none = none
put c (some r) = some (String.◌∷◌ c r.0, r.1)

-- The character that a backslash and this one stand for in a JSON string; \u is not read.
unfoldable pub escaped_char : Char → Option Char
escaped_char c =
    if nat_eq (code c) b'"' || (nat_eq (code c) b'\\' || nat_eq (code c) b'/')
    then some c
    else if nat_eq (code c) b'n'
    then some "\n"
    else if nat_eq (code c) b'r'
    then some "\r"
    else if nat_eq (code c) b't'
    then some "\t"
    else if nat_eq (code c) b'b'
    then some "\u{8}"
    else if nat_eq (code c) b'f'
    then some "\u{c}"
    else none

unfoldable pub put_escaped : Option Char → Option (String × String) → Option (String × String)
unfolding put
put_escaped none r = none
put_escaped (some c) r = put c r

-- The characters that a JSON string may not hold as they are.
abbrev pub is_control : Char → Bool
is_control c = ltb (code c) 32

unfoldable pub has_control : String → Bool
has_control String.[] = false
has_control (String.◌∷◌ c s) = is_control c || has_control s

-- A JSON string up to its closing quote, and the text behind the quote; none for what is no JSON
-- string. The flag says that a backslash stands before.
unfoldable pub read_quoted : Bool → String → Option (String × String)
unfolding put put_escaped escaped_char
read_quoted escaped String.[] = none
read_quoted escaped (String.◌∷◌ c s) =
    let plain = read_quoted false s in
    let after_mark = read_quoted true s in
    if escaped
    then put_escaped (escaped_char c) plain
    else if nat_eq (code c) b'"'
    then some ("", s)
    else if nat_eq (code c) b'\\'
    then after_mark
    else if is_control c
    then none
    else put c plain

read_escaped :
    (c : Char) (s : String)
    → escaped_char c ≡ some c
    → read_quoted false (String.◌∷◌ "\\" (String.◌∷◌ c s)) ≡ put c (read_quoted false s)
unfolding read_quoted put_escaped
read_escaped c s h = rw h refl

read_plain :
    (c : Char) (s : String)
    → nat_eq (code c) b'\\' ≡ false
    → nat_eq (code c) b'"' ≡ false
    → is_control c ≡ false
    → read_quoted false (String.◌∷◌ c s) ≡ put c (read_quoted false s)
unfolding read_quoted
read_plain c s h k l = rw (h, k, l) refl

read_control :
    (c : Char) (s : String)
    → nat_eq (code c) b'\\' ≡ false
    → nat_eq (code c) b'"' ≡ false
    → is_control c ≡ true
    → read_quoted false (String.◌∷◌ c s) ≡ none
unfolding read_quoted
read_control c s h k l = rw (h, k, l) refl

two_marks :
    (c : Char) (s t : String)
    → append (append (String.◌∷◌ "\\" (String.◌∷◌ c "")) s) t
      ≡ String.◌∷◌ "\\" (String.◌∷◌ c (append s t))
two_marks c s t = rw (append.cons, append.cons, append.cons, append.cons, append.nil) refl

closing : (t : String) → read_quoted false (append "\"" t) ≡ some ("", t)
unfolding read_quoted
closing t = rw (append.cons, append.nil) refl

-- What is to be read of a text: itself, or nothing if there is a control character in it.
abbrev pub if_clean : Bool → String → String → Option (String × String)
if_clean dirty s t = if dirty then none else some (s, t)

put_read :
    (dirty : Bool) (c d : Char) (s t : String) (r : Option (String × String))
    → code c ≡ code d
    → is_control c ≡ false
    → r ≡ if_clean dirty s t
    → put d r ≡ if_clean (is_control c || dirty) (String.◌∷◌ c s) t
unfolding put
put_read true c d s t r h l k = rw (k, l) refl
put_read false c d s t r h l k = rw (k, l, Char-path c d h) refl

-- A JSON reader reads a quoted text back, whatever stands behind the closing quote, exactly if there
-- is no control character in the text; if there is one, what is written is no JSON string.
pub read_quoted-escape :
    (s t : String)
    → read_quoted false (append (escape s) (append "\"" t))
      ≡ (if has_control s then none else some (s, t))
unfolding escape has_control escaped_char
read_quoted-escape String.[] t = rw (append.nil) (closing t)
read_quoted-escape (String.◌∷◌ c s) t =
    let Reads : String → Type 0 = λ x.
      read_quoted false (append x (append "\"" t))
      ≡ if_clean (is_control c || has_control s) (String.◌∷◌ c s) t in
    if_cases Reads (nat_eq (code c) b'\\') _ _
      (λ mark.
        rw (two_marks "\\" (escape s) (append "\"" t), read_escaped "\\" _ refl)
          (put_read (has_control s) c "\\" s t _ (ground (arith, mark)) (ground (arith, mark))
            (read_quoted-escape s t)))
      λ plain.
        if_cases Reads (nat_eq (code c) b'"') _ _
          (λ mark.
            rw (two_marks "\"" (escape s) (append "\"" t), read_escaped "\"" _ refl)
              (put_read (has_control s) c "\"" s t _ (ground (arith, mark)) (ground (arith, mark))
                (read_quoted-escape s t)))
          λ other. elim (Bool-cases (is_control c)) [
            | inl dirty ↦ rw (append.cons, read_control c _ plain other dirty, dirty) refl
            | inr clean ↦
                rw (append.cons, read_plain c _ plain other clean)
                  (put_read (has_control s) c c s t _ refl clean (read_quoted-escape s t))
          ]
