-- ===== src/Sandbox/Join.antt =====
-- A path is its components joined by slashes, and joining by a slash joins the lists of components.
use astartis_codex_control_p.Base.{
  String, append, ◌≡◌, refl, sym, ap, ◌∙◌, inl, inr, true, false, List, [], ◌∷◌, ◌++◌, arith,
  nat_eq, Bool-cases,
}
use Prim.Native.Char.{Char, code}
use Prim.Native.String.append
use text.Mathlib.TextEquality.{Char-path}
use text.Mathlib.TextLemmas.{append_assoc}
use astartis_codex_control_p.Sandbox.Components.{first_component, later_components, components}

-- The slash-separated text of some components.
unfoldable pub join : List String → String
join [] = ""
join (w ∷ []) = w
join (w ∷ v ∷ ws) = append w (append "/" (join (v ∷ ws)))

join-cons :
    (c : Char) (w : String) (ws : List String)
    → join (String.◌∷◌ c w ∷ ws) ≡ String.◌∷◌ c (join (w ∷ ws))
unfolding join
join-cons c w [] = refl
join-cons c w (v ∷ ws) = append.cons c w _

pub is_slash : (c : Char) → nat_eq (code c) b'/' ≡ true → c ≡ "/"
is_slash c h = Char-path c "/" (ground (arith, h))

components-slash :
    (c : Char) (s : String)
    → nat_eq (code c) b'/' ≡ true
    → components (String.◌∷◌ c s) ≡ "" ∷ components s
unfolding components first_component later_components
components-slash c s h = rw h refl

-- A character in front of the first component.
abbrev cons_head : Char → List String → List String
cons_head c [] = String.◌∷◌ c "" ∷ []
cons_head c (w ∷ ws) = String.◌∷◌ c w ∷ ws

components-other :
    (c : Char) (s : String)
    → nat_eq (code c) b'/' ≡ false
    → components (String.◌∷◌ c s) ≡ cons_head c (components s)
unfolding components first_component later_components
components-other c s h = rw h refl

join_empty : (w : String) (ws : List String) → join ("" ∷ w ∷ ws) ≡ String.◌∷◌ "/" (join (w ∷ ws))
unfolding join
join_empty w ws = rw (append.nil, append.cons, append.nil) refl

pub join-components : (s : String) → join (components s) ≡ s
unfolding components join
join-components String.[] = refl
join-components (String.◌∷◌ c s) = elim (Bool-cases (nat_eq (code c) b'/')) [
  | inl slash ↦
      rw (components-slash c s slash) (rw (join_empty, join-components s, is_slash c slash) refl)
  | inr other ↦ rw (components-other c s other) (rw (join-cons, join-components s) refl)
]

pub join-append :
    (x y : String) (xs ys : List String)
    → join ((x ∷ xs) ++ (y ∷ ys)) ≡ append (join (x ∷ xs)) (append "/" (join (y ∷ ys)))
unfolding join
join-append x y [] ys = refl
join-append x y (x' ∷ xs) ys = rw (join-append x' y xs ys, append_assoc, append_assoc) refl

cons_head-append :
    (c : Char) (s : String) (ys : List String)
    → cons_head c (components s ++ ys) ≡ cons_head c (components s) ++ ys
unfolding components
cons_head-append c s ys = refl

slash_components : (u : String) → components (append "/" u) ≡ "" ∷ components u
slash_components u = rw (append.cons, append.nil) (components-slash "/" u refl)

nil_components : (u : String) → "" ∷ components u ≡ components "" ++ components u
unfolding components
nil_components u = refl

pub components-below :
    (r u : String) → components (append r (append "/" u)) ≡ components r ++ components u
components-below String.[] u = rw append.nil (slash_components u ∙ nil_components u)
components-below (String.◌∷◌ c r) u = elim (Bool-cases (nat_eq (code c) b'/')) [
  | inl slash ↦ rw append.cons (
      components-slash c _ slash
      ∙ ap (λ ws. "" ∷ ws) (components-below r u)
      ∙ ap (λ ws. ws ++ components u) (sym (components-slash c r slash)))
  | inr other ↦ rw append.cons (
      components-other c _ other
      ∙ ap (cons_head c) (components-below r u)
      ∙ cons_head-append c r (components u)
      ∙ ap (λ ws. ws ++ components u) (sym (components-other c r other)))
]
