-- ===== src/Sandbox/Components.antt =====
-- A path as the list of its components, and what the guard means on it.
use astartis_codex_control_p.Base.{
  String, ◌≡◌, refl, true, false, ◌&&◌, ◌||◌, List, [], ◌∷◌, arith, ◌==◌, nat_eq, if◌then◌else◌,
  if_cases, has_text,
}
use Prim.Native.Char.{Char, code}
use Prim.Native.Nat.{Ordering}
use Prim.Native.String.{then}
use Prim.Native.String.compare
use text.Mathlib.Text.{is_eq}
use astartis_codex_control_p.Sandbox.Paths.{char_eq, begins, ends, contains, has_dotdot}

-- The text up to the first slash, and the components behind it.
unfoldable pub first_component : String → String
first_component String.[] = ""
first_component (String.◌∷◌ c s) =
    let rest = first_component s in if nat_eq (code c) b'/' then "" else String.◌∷◌ c rest

unfoldable pub later_components : String → List String
unfolding first_component
later_components String.[] = []
later_components (String.◌∷◌ c s) =
    let rest = later_components s in if nat_eq (code c) b'/' then first_component s ∷ rest else rest

unfoldable pub components : String → List String
unfolding first_component later_components
components s = first_component s ∷ later_components s

then_eq : (o r : Ordering) → is_eq ((then) o r) ≡ (is_eq o && is_eq r)
then_eq Ordering.lt r = refl
then_eq Ordering.eq r = refl
then_eq Ordering.gt r = refl

cons_eq : (c d : Char) (s t : String) → (String.◌∷◌ c s == String.◌∷◌ d t) ≡ (char_eq c d && s == t)
cons_eq c d s t = rw (compare.cons-cons c d s t) (then_eq _ _)

cons_eq_nil : (c : Char) (s : String) → (String.◌∷◌ c s == "") ≡ false
cons_eq_nil c s = rw (compare.cons-nil c s) refl

nil_eq_cons : (d : Char) (t : String) → ("" == String.◌∷◌ d t) ≡ false
nil_eq_cons d t = rw (compare.nil-cons d t) refl

-- One character more, of the first component and of the text it is compared with.
first_step :
    (c d : Char) (s f t u : String)
    → nat_eq (code d) b'/' ≡ false
    → (f == t) ≡ (s == t || begins s u)
    → ((if nat_eq (code c) b'/' then "" else String.◌∷◌ c f) == String.◌∷◌ d t)
      ≡ (String.◌∷◌ c s == String.◌∷◌ d t || (char_eq c d && begins s u))
first_step c d s f t u h k =
    if_cases
      (λ (x : String).
        (x == String.◌∷◌ d t) ≡ (String.◌∷◌ c s == String.◌∷◌ d t || (char_eq c d && begins s u)))
      (nat_eq (code c) b'/') _ _
      (λ slash. rw (cons_eq c d s t, nil_eq_cons d t) (ground (arith, h, slash)))
      (λ other. rw (cons_eq c d s t, cons_eq c d f t) (ground (arith, h, k, other)))

first-nil : (s : String) → (first_component s == "") ≡ (s == "" || begins s "/")
unfolding first_component begins
first-nil String.[] = refl
first-nil (String.◌∷◌ c s) =
    if_cases (λ (x : String). (x == "") ≡ (String.◌∷◌ c s == "" || char_eq c "/" && true))
      (nat_eq (code c) b'/') _ _ (λ slash. rw (cons_eq_nil c s) (ground (arith, slash)))
      (λ other. rw (cons_eq_nil c s, cons_eq_nil c (first_component s)) (ground (arith, other)))

first-dot : (s : String) → (first_component s == ".") ≡ (s == "." || begins s "./")
unfolding first_component begins
first-dot String.[] = refl
first-dot (String.◌∷◌ c s) = first_step c "." s (first_component s) "" "/" refl (first-nil s)

first-dotdot : (s : String) → (first_component s == "..") ≡ (s == ".." || begins s "../")
unfolding first_component begins
first-dotdot String.[] = refl
first-dotdot (String.◌∷◌ c s) = first_step c "." s (first_component s) "." "./" refl (first-dot s)

later-dotdot :
    (s : String) → has_text ".." (later_components s) ≡ (ends s "/.." || contains s "/../")
unfolding later_components ends contains has_text begins
later-dotdot String.[] = refl
later-dotdot (String.◌∷◌ c s) =
    if_cases
      (λ (x : List String). has_text ".." x ≡ (
        (String.◌∷◌ c s == "/.." || ends s "/..")
        || (begins (String.◌∷◌ c s) "/../" || contains s "/../")))
      (nat_eq (code c) b'/') _ _
      (λ slash. rw (cons_eq c "/" s "..") (ground (arith, slash, first-dotdot s, later-dotdot s)))
      (λ other. rw (cons_eq c "/" s "..") (ground (arith, other, later-dotdot s)))

-- The guard finds a ".." exactly where ".." is one of the components of the path.
pub has_dotdot-components : (s : String) → has_dotdot s ≡ has_text ".." (components s)
unfolding has_dotdot components has_text
has_dotdot-components s = ground (arith, first-dotdot s, later-dotdot s)
