-- ===== src/Sandbox/Guard.antt =====
-- The prefix test of the path guard, on texts and on the lists of components.
use astartis_codex_control_p.Base.{
  ℕ, suc, ◌+◌, ◌-◌, ◌<◌, String, append, ◌≡◌, refl, sym, ap, ◌∙◌, ◌↔◌, ◌⊎◌, inl, inr, true, false,
  List, [], ◌∷◌, ◌++◌, arith, ◌==◌, eq_iff, nat_eq, Bool-cases, has_text,
}
use Prim.Native.Char.{Char, code, len_utf8}
use Prim.Native.Nat.{compare as compare_nat}
use Prim.Native.String.{len, char_at, past}
use Prim.Native.String.append
use Prim.Native.String.len
use Prim.Native.String.char_at
use text.Mathlib.TextEquality.{starts_with_iff}
use text.Mathlib.TextPositions.{len-append, len_utf8-pos}
use mathlib.Core.List.{append-nil}
use astartis_codex_control_p.Sandbox.Paths.{normalise, is_below, is_inside}
use astartis_codex_control_p.Sandbox.Join.{
  is_slash, join, join-components, join-append, components-below,
}
use astartis_codex_control_p.Sandbox.Components.{components, has_dotdot-components}

past_gt : (i n : ℕ) (d : Char) → past (compare_nat (n + i) n) d ≡ d
past_gt i n d = ground arith

char_at_skip :
    (c : Char) (s : String) (n : ℕ) → char_at (String.◌∷◌ c s) (len_utf8 c + n) ≡ char_at s n
char_at_skip c s n =
    let (k, q) = len_utf8-pos c in
    let e : len_utf8 c + n ≡ suc (k + n) = omega (arith, q) in
    ap (λ i. char_at (String.◌∷◌ c s) i) e
    ∙ char_at.cons-suc c s (k + n)
    ∙ ap (λ i. past (compare_nat i (len_utf8 c)) (char_at s (i - len_utf8 c))) (sym e)
    ∙ past_gt n (len_utf8 c) _
    ∙ ap (char_at s) (omega arith)

slash_first : (u : String) → char_at (append "/" u) 0 ≡ "/"
slash_first u = rw (append.cons, append.nil) (char_at.cons-zero "/" u)

char_at-append : (r v : String) → char_at (append r v) (len r) ≡ char_at v 0
char_at-append String.[] v = rw (append.nil v) refl
char_at-append (String.◌∷◌ c r) v =
    rw (append.cons, len.cons) (char_at_skip c (append r v) (len r) ∙ char_at-append r v)

-- The text is the root, or goes on behind it with a slash.
abbrev pub IsBelow : String → String → Type 0
IsBelow p r = (p ≡ r) ⊎ ((u : String) × (p ≡ append r (append "/" u)))

slash_head :
    (v : String) → nat_eq (code (char_at v 0)) b'/' ≡ true → (u : String) × (v ≡ append "/" u)
slash_head String.[] h = cc
slash_head (String.◌∷◌ c v) h =
    (v, rw (is_slash c (ground (arith, h, char_at.cons-zero c v)), append.cons, append.nil) refl)

from_prefix :
    (p r v : String)
    → append r v ≡ p
    → nat_eq (code (char_at p (len r))) b'/' ≡ true
    → (u : String) × (p ≡ append r (append "/" u))
from_prefix p r v h k =
    let (u, e) = slash_head v (ground (arith, ap (λ x. char_at x (len r)) h, char_at-append r v)) in
    (u, sym h ∙ ap (append r) e)

is_below→IsBelow : (p r : String) → is_below p r ≡ true → IsBelow p r
unfolding is_below
is_below→IsBelow p r h = elim (Bool-cases (p == r)) [
  | inl same ↦ inl ((eq_iff p r).0 same)
  | inr other ↦
      inr
        (let (v, e) = (starts_with_iff p r).0 (ground arith) in from_prefix p r v e (ground arith))
]

slash_behind :
    (r u : String) → nat_eq (code (char_at (append r (append "/" u)) (len r))) b'/' ≡ true
slash_behind r u = rw (char_at-append r (append "/" u), slash_first u) refl

pub longer : (r u : String) → len r < len (append r (append "/" u))
longer r u = omega (arith, len-append r (append "/" u), len-append "/" u)

is_below_slash : (r u : String) → is_below (append r (append "/" u)) r ≡ true
unfolding is_below
is_below_slash r u = ground (
  arith,
  (starts_with_iff (append r (append "/" u)) r).1 (append "/" u, refl),
  slash_behind r u,
  longer r u,
)

pub IsBelow→is_below : (p r : String) → IsBelow p r → is_below p r ≡ true
unfolding is_below
IsBelow→is_below p r (inl h) = ground (arith, (eq_iff p r).1 h)
IsBelow→is_below p r (inr (u, h)) = rw h (is_below_slash r u)

-- The components of a path that is the root or goes on behind it with a slash.
below-components :
    (p r : String) → IsBelow p r → (ws : List String) × (components p ≡ components r ++ ws)
below-components p r (inl h) = ([], ap components h ∙ sym (append-nil (components r)))
below-components p r (inr (u, h)) = (components u, ap components h ∙ components-below r u)

joined :
    (r w : String) (ws : List String)
    → join (components r ++ (w ∷ ws)) ≡ append (join (components r)) (append "/" (join (w ∷ ws)))
unfolding components
joined r w ws = join-append _ w _ ws

components→IsBelow :
    (p r : String) (ws : List String) → components p ≡ components r ++ ws → IsBelow p r
components→IsBelow p r [] h =
    inl (sym (join-components p) ∙ ap join (h ∙ append-nil (components r)) ∙ join-components r)
components→IsBelow p r (w ∷ ws) h = inr (
  join (w ∷ ws),
  sym (join-components p)
      ∙ ap join h
      ∙ joined r w ws
      ∙ ap (λ x. append x (append "/" (join (w ∷ ws)))) (join-components r),
)

-- A path passes the guard exactly when, both normalised, none of its components is ".." and
-- its components begin with all those of the root.
pub is_inside-components :
    (abs_path root_path : String)
    → (is_inside abs_path root_path ≡ true) ↔ (
        (has_text ".." (components (normalise abs_path)) ≡ false)
        × ((ws : List String) × (components (normalise abs_path)
              ≡ components (normalise root_path) ++ ws)))
unfolding is_inside
is_inside-components abs_path root_path = (
  λ h. (
    ground (arith, has_dotdot-components (normalise abs_path)),
    below-components _ _ (is_below→IsBelow _ _ (ground arith)),
  ),
  λ h. ground (
    arith,
    h.0,
    has_dotdot-components (normalise abs_path),
    IsBelow→is_below _ _ (components→IsBelow _ _ h.1.0 h.1.1),
  ),
)
