-- ===== src/Sandbox/Normal.antt =====
-- What normalise does to a path that is put together from the root and a relative path.
use astartis_codex_control_p.Base.{
  ◌+◌, String, append, ◌≡◌, refl, sym, ap, ◌∙◌, ◌≢◌, inl, inr, true, false, ◌&&◌, ◌||◌, List, [],
  ◌∷◌, ◌++◌, arith, ◌==◌, eq_iff, nat_eq, if◌then◌else◌, Bool-cases, if_cases, has_text,
}
use Prim.Native.Char.{Char, code}
use Prim.Native.String.{len, slice}
use Prim.Native.String.append
use text.Mathlib.TextPositions.{len-append, slice-append_right}
use text.Mathlib.TextLemmas.{append_assoc, append-ne-nil_of_right_ne-nil}
use astartis_codex_control_p.Sandbox.Paths.{
  slashed, stripped, strip_slashes, normalise, has_dotdot, is_inside, to_rel,
}
use astartis_codex_control_p.Sandbox.Components.{components, has_dotdot-components}
use astartis_codex_control_p.Sandbox.Join.{components-below}
use astartis_codex_control_p.Sandbox.Guard.{IsBelow→is_below, longer}

abbrev slash : Char → Char
slash c = if nat_eq (code c) b'\\' then "/" else c

slash_idem : (c : Char) → slash (slash c) ≡ slash c
slash_idem c = elim (Bool-cases (nat_eq (code c) b'\\')) [
  | inl h ↦ rw h refl
  | inr h ↦ rw h (rw h refl)
]

slash_cons :
    (c : Char) {s t : String} → s ≡ t → String.◌∷◌ (slash (slash c)) s ≡ String.◌∷◌ (slash c) t
slash_cons c h i = String.◌∷◌ (slash_idem c i) (h i)

slashed_idem : (s : String) → slashed (slashed s) ≡ slashed s
unfolding slashed
slashed_idem String.[] = refl
slashed_idem (String.◌∷◌ c s) = slash_cons c (slashed_idem s)

slashed-append : (s t : String) → slashed (append s t) ≡ append (slashed s) (slashed t)
unfolding slashed
slashed-append String.[] t = rw (append.nil, append.nil) refl
slashed-append (String.◌∷◌ c s) t = rw (append.cons, append.cons, slashed-append s t) refl

slashed-stripped : (s : String) → slashed (stripped (slashed s)) ≡ stripped (slashed s)
unfolding slashed stripped
slashed-stripped String.[] = refl
slashed-stripped (String.◌∷◌ c s) =
    if_cases (λ x. slashed x ≡ x) (stripped (slashed s) == "" && nat_eq (code (slash c)) b'/') _ _
      (λ _. refl) (λ _. slash_cons c (slashed-stripped s))

stripped_idem : (s : String) → stripped (stripped s) ≡ stripped s
unfolding stripped
stripped_idem String.[] = refl
stripped_idem (String.◌∷◌ c s) =
    if_cases (λ x. stripped x ≡ x) (stripped s == "" && nat_eq (code c) b'/') _ _ (λ _. refl)
      (λ kept. rw (stripped_idem s) (rw kept refl))

pub normalise_idem : (p : String) → normalise (normalise p) ≡ normalise p
unfolding normalise strip_slashes slashed
normalise_idem String.[] = refl
normalise_idem (String.◌∷◌ c s) =
    slash_cons c (ap stripped (slashed-stripped s) ∙ stripped_idem (slashed s))

normalise-slashed : (p : String) → slashed (normalise p) ≡ normalise p
unfolding normalise strip_slashes slashed
normalise-slashed String.[] = refl
normalise-slashed (String.◌∷◌ c s) = slash_cons c (slashed-stripped s)

not_empty : (s t : String) → t ≢ "" → (append s t == "") ≡ false
not_empty s t h = elim (Bool-cases (append s t == "")) [
  | inl e ↦ absurd (append-ne-nil_of_right_ne-nil s h ((eq_iff (append s t) "").0 e))
  | inr e ↦ e
]

slash_slash : (u : String) → slashed u ≡ u → append (slashed "/") (slashed u) ≡ append "/" u
unfolding slashed
slash_slash u h = ap (append "/") h

stripped_cons :
    (c : Char) (s : String)
    → stripped s ≡ s
    → (s == "") ≡ false
    → stripped (String.◌∷◌ c s) ≡ String.◌∷◌ c s
unfolding stripped
stripped_cons c s h k = rw h (rw k refl)

stripped-append : (s t : String) → stripped t ≡ t → t ≢ "" → stripped (append s t) ≡ append s t
stripped-append String.[] t h k = rw append.nil h
stripped-append (String.◌∷◌ c s) t h k =
    rw append.cons (stripped_cons c (append s t) (stripped-append s t h k) (not_empty s t k))

-- A relative path as the sandbox keeps it: not empty, without backslashes, without a slash at its
-- end, and without "..".
pub record IsRelative (u : String) : Type 0 where
  pub is_slashed : slashed u ≡ u
  pub is_stripped : stripped u ≡ u
  pub is_named : u ≢ ""
  pub is_straight : has_dotdot u ≡ false

strip_slashes-append :
    (r t : String)
    → stripped t ≡ t
    → t ≢ ""
    → strip_slashes (append r (append "/" t)) ≡ append r (append "/" t)
unfolding strip_slashes
strip_slashes-append String.[] t h k =
    rw (append.nil, append.cons, append.nil) (ap (λ x. String.◌∷◌ "/" x) h)
strip_slashes-append (String.◌∷◌ c r) t h k = rw append.cons (
    ap (λ x. String.◌∷◌ c x)
      (sym (ap stripped (append_assoc r "/" t))
        ∙ stripped-append (append r "/") t h k
        ∙ append_assoc r "/" t))

pub normalise-under :
    (r u : String)
    → slashed r ≡ r
    → IsRelative u
    → normalise (append r (append "/" u)) ≡ append r (append "/" u)
unfolding normalise
normalise-under r u h k =
    ap strip_slashes (
      slashed-append r (append "/" u)
      ∙ ap (λ x. append x (slashed (append "/" u))) h
      ∙ ap (append r) (slashed-append "/" u ∙ slash_slash u k.is_slashed))
    ∙ strip_slashes-append r u k.is_stripped k.is_named

has_text-append :
    (s : String) (xs ys : List String) → has_text s (xs ++ ys) ≡ (has_text s xs || has_text s ys)
unfolding has_text
has_text-append s [] ys = refl
has_text-append s (x ∷ xs) ys = ground (arith, has_text-append s xs ys)

has_dotdot-under :
    (r u : String)
    → has_dotdot r ≡ false
    → has_dotdot u ≡ false
    → has_dotdot (append r (append "/" u)) ≡ false
has_dotdot-under r u h k =
    has_dotdot-components _
    ∙ ap (has_text "..") (components-below r u)
    ∙ has_text-append ".." (components r) (components u)
    ∙ ground (arith, h, k, has_dotdot-components r, has_dotdot-components u)

-- A relative path under the root passes the guard.
pub is_inside-under :
    (root u : String)
    → has_dotdot (normalise root) ≡ false
    → IsRelative u
    → is_inside (append (normalise root) (append "/" u)) (normalise root) ≡ true
unfolding is_inside
is_inside-under root u h k =
    let r = normalise root in
    let under = normalise-under r u (normalise-slashed root) k in
    let straight = has_dotdot-under r u h k.is_straight in
    rw (under, normalise_idem root)
      (ground (arith, straight, IsBelow→is_below (append r (append "/" u)) r (inr (u, refl))))

slice-under :
    (r u : String) → slice (append r (append "/" u)) (len r + 1) (len (append r (append "/" u))) ≡ u
slice-under r u =
    ap (λ n. slice (append r (append "/" u)) n (len (append r (append "/" u))))
      (sym (len-append r "/"))
    ∙ ap (λ p. slice p (len (append r "/")) (len p)) (sym (append_assoc r "/" u))
    ∙ ap (slice (append (append r "/") u) (len (append r "/"))) (len-append (append r "/") u)
    ∙ slice-append_right (append r "/") u

not_root : (r u : String) → (append r (append "/" u) == r) ≡ false
not_root r u = elim (Bool-cases (append r (append "/" u) == r)) [
  | inl e ↦ ground (arith, longer r u, ap len ((eq_iff (append r (append "/" u)) r).0 e))
  | inr e ↦ e
]

-- Under a root that has no "..", a relative path that is named, slashed, without a slash at its end
-- and without ".." is what to_rel makes of the root, a slash and the path.
pub to_rel-under :
    (root u : String)
    → has_dotdot (normalise root) ≡ false
    → IsRelative u
    → to_rel (normalise root) (append (normalise root) (append "/" u)) ≡ u
unfolding to_rel
to_rel-under root u h k =
    let r = normalise root in
    rw
      (
        normalise-under r u (normalise-slashed root) k,
        has_dotdot-under r u h k.is_straight,
        is_inside-under root u h k,
        not_root r u,
      )
      (slice-under r u)
