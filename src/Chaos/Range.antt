-- ===== src/Chaos/Range.antt =====
-- The score of the 0-1 test lies between 0 and 1.
use astartis_codex_control_p.Base.{
  ◌≡◌, subst, false, Option, none, some, List, ltb, if◌then◌else◌, if_cases, length,
}
use astartis_codex_control_p.Doubles.{Doubles, bind}
use astartis_codex_control_p.Chaos.Defined.{compute_K-IsDefined}
use astartis_codex_control_p.Chaos.Score.{clamped, compute_K, scores, median, steps_of, phases_of}

-- What the clamp needs of `<`: no number is below itself, and 1.0 is not below 0.0.
pub record HasOrder (D : Doubles) : Type 0 where
  pub irreflexive : (x : D.Double) → D.lt x x ≡ false
  pub zero_below_one : D.lt (D.literal "1.0") (D.literal "0.0") ≡ false

module _ (D : Doubles) (order : HasOrder D) where
  -- Neither below 0.0 nor above 1.0.
  abbrev pub IsScore : D.Double → Type 0
  IsScore K = (D.lt K (D.literal "0.0") ≡ false) × (D.lt (D.literal "1.0") K ≡ false)

  low-bound :
      (K : D.Double)
      → D.lt (if D.lt K (D.literal "0.0") then D.literal "0.0" else K) (D.literal "0.0") ≡ false
  low-bound K =
      if_cases (λ (x : D.Double). D.lt x (D.literal "0.0") ≡ false) (D.lt K (D.literal "0.0")) _ _
        (λ _. order.irreflexive (D.literal "0.0")) (λ high. high)

  clamped-IsScore : (K : D.Double) → IsScore (clamped D K)
  unfolding clamped
  clamped-IsScore K =
      let low = if D.lt K (D.literal "0.0") then D.literal "0.0" else K in
      if_cases IsScore (D.lt (D.literal "1.0") low) _ _
        (λ _. (order.zero_below_one, order.irreflexive (D.literal "1.0")))
        (λ fits. (low-bound K, fits))

  -- What is computed, if it is, is a score.
  abbrev Scored : Option D.Double → Type 0
  Scored none = Unit {0}
  Scored (some K) = IsScore K

  bind-Scored :
      {A : Type 0} (m : Option A) (f : A → Option D.Double)
      → ((a : A) → Scored (f a))
      → Scored (bind m f)
  unfolding bind
  bind-Scored none f h = tt
  bind-Scored (some a) f h = h a

  compute_K-Scored : (series phases_in : List D.Double) → Scored (compute_K D series phases_in)
  unfolding compute_K
  compute_K-Scored series phases_in =
      if_cases Scored (ltb (length series) 10) _ _
        (λ _. (order.irreflexive (D.literal "0.0"), order.zero_below_one))
        λ _.
          bind-Scored (scores D series (steps_of D (length series)) (phases_of D phases_in)) _
            λ K_vals. bind-Scored (median D K_vals) _ λ K. clamped-IsScore K

  -- Where no number is below itself and 1.0 is not below 0.0, the 0-1 test of any series at any phases
  -- gives a score, and it is neither below 0.0 nor above 1.0.
  pub compute_K-range :
      (series phases_in : List D.Double)
      → (K : D.Double) × (compute_K D series phases_in ≡ some K)
        × (D.lt K (D.literal "0.0") ≡ false)
        × (D.lt (D.literal "1.0") K ≡ false)
  compute_K-range series phases_in =
      let (K, computed) = compute_K-IsDefined D series phases_in in
      let score = subst Scored computed (compute_K-Scored series phases_in) in
      (K, computed, score.0, score.1)
