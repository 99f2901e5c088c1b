-- ===== src/Chaos/Lyapunov.antt =====
-- astartis/core/chaos_detector: Rosenstein's estimate. `M` is the number of embedded vectors.
-- `embed_dim` is at least 1. The code searches the neighbours of all points before it tests max_steps;
-- the search changes nothing, and here it stands behind that test.
use astartis_codex_control_p.Base.{
  ℕ, zero, suc, ◌+◌, ◌-◌, ◌*◌, ◌/◌, Bool, ◌&&◌, ◌||◌, Option, none, some, List, [], ◌∷◌, map, ltb,
  leb, nat_eq, if◌then◌else◌, length, get_elem?,
}
use astartis_codex_control_p.Doubles.{Doubles, bind}
use astartis_codex_control_p.Chaos.Score.{zero_double, sum_from}

module _ (D : Doubles) where
  module _ (series : List D.Double) (embed_dim tau M : ℕ) where
    -- V[a][d], which is series[a + d * tau]
    unfoldable pub embedded : ℕ → ℕ → Option D.Double
    embedded a d = if ltb a M then get_elem? series (a + d * tau) else none

    -- The loop of dist over the coordinates, with `k` rounds left.
    unfoldable pub distance_from : ℕ → ℕ → ℕ → ℕ → D.Double → Option D.Double
    unfolding embedded bind
    distance_from zero d a b s = some s
    distance_from (suc k) d a b s = bind (embedded a d) λ x.
        bind (embedded b d)
          λ y. distance_from k (d + 1) a b (D.add s (D.mul (D.sub x y) (D.sub x y)))

    unfoldable pub dist : ℕ → ℕ → Option D.Double
    unfolding distance_from bind
    dist a b = bind (distance_from embed_dim 0 a b (zero_double D)) λ s. some (D.sqrt s)

    -- std::abs(i - j) <= min_sep
    abbrev pub is_near : ℕ → ℕ → Bool
    is_near i j = leb i (j + embed_dim) && leb j (i + embed_dim)

    abbrev pub nearer : ℕ → D.Double → D.Double × Option ℕ → D.Double × Option ℕ
    nearer j d t = if D.lt d t.0 then (d, some j) else t

    -- The loop over j for a point i, with `k` rounds left: the best distance and nn[i].
    unfoldable pub neighbour_from : ℕ → ℕ → ℕ → D.Double × Option ℕ → Option (D.Double × Option ℕ)
    unfolding dist bind
    neighbour_from zero j i t = some t
    neighbour_from (suc k) j i t =
        let far = bind (dist i j) λ d. neighbour_from k (j + 1) i (nearer j d t) in
        let near = neighbour_from k (j + 1) i t in if is_near i j then near else far

    -- avg_log[s - 1] and count[s - 1] for one distance
    abbrev pub noted : D.Double → D.Double × ℕ → D.Double × ℕ
    noted d t = if D.lt (D.literal "1e-12") d then (D.add t.0 (D.log d), t.1 + 1) else t

    -- The loop over s for a point and its neighbour. The list holds what is left of avg_log and count,
    -- from step s on.
    unfoldable pub diverged : ℕ → ℕ → ℕ → List (D.Double × ℕ) → Option (List (D.Double × ℕ))
    unfolding dist bind
    diverged s i n [] = some []
    diverged s i n (t ∷ ts) =
        let on =
          bind (dist (i + s) (n + s))
            λ d. bind (diverged (s + 1) i n ts) λ rest. some (noted d t ∷ rest) in
        if leb M (i + s) || leb M (n + s) then some (t ∷ ts) else on

    unfoldable pub tracked : ℕ → Option ℕ → List (D.Double × ℕ) → Option (List (D.Double × ℕ))
    unfolding diverged
    tracked i none ts = some ts
    tracked i (some n) ts = diverged 1 i n ts

    -- The two loops over the points as one, with `k` points left: the neighbour of a point does not
    -- depend on what is tracked.
    unfoldable pub divergence_from : ℕ → ℕ → List (D.Double × ℕ) → Option (List (D.Double × ℕ))
    unfolding neighbour_from tracked bind
    divergence_from zero i ts = some ts
    divergence_from (suc k) i ts =
        bind (neighbour_from M 0 i (D.largest, none))
          λ best. bind (tracked i best.1 ts) λ next. divergence_from k (i + 1) next

  -- avg_log and count at their start
  unfoldable pub empty_steps : ℕ → List (D.Double × ℕ)
  empty_steps zero = []
  empty_steps (suc n) = (zero_double D, 0) ∷ empty_steps n

  -- x_vals and y_vals, from step `s` on
  unfoldable pub points_from : ℕ → List (D.Double × ℕ) → List (D.Double × D.Double)
  points_from s [] = []
  points_from s ((sum, count) ∷ ts) =
      let rest = points_from (s + 1) ts in
      if nat_eq count 0 then rest else (D.of_nat (s + 1), D.div sum (D.of_nat count)) ∷ rest

  unfoldable pub covariances :
      D.Double → D.Double → List (D.Double × D.Double) → D.Double × D.Double → D.Double × D.Double
  covariances mx my [] t = t
  covariances mx my ((x, y) ∷ ps) (cov, var) =
      covariances mx my ps
        (D.add cov (D.mul (D.sub x mx) (D.sub y my)), D.add var (D.mul (D.sub x mx) (D.sub x mx)))

  -- The regression at the end.
  unfoldable pub slope : List (D.Double × D.Double) → D.Double
  unfolding covariances sum_from
  slope ps =
      let n = D.of_nat (length ps) in
      let mx = D.div (sum_from D (zero_double D) (map (λ p. p.0) ps)) n in
      let my = D.div (sum_from D (zero_double D) (map (λ p. p.1) ps)) n in
      let t = covariances mx my ps (zero_double D, zero_double D) in
      if ltb (length ps) 2
      then D.nan
      else if D.lt t.1 (D.literal "1e-12")
      then D.nan
      else D.div t.0 t.1

  -- std::min(20, M / 4)
  abbrev pub max_steps : ℕ → ℕ
  max_steps M = if ltb (M / 4) 20 then M / 4 else 20

  unfoldable pub exponent_of : List D.Double → ℕ → ℕ → ℕ → Option D.Double
  unfolding divergence_from empty_steps points_from slope bind
  exponent_of series embed_dim tau M =
      if ltb (max_steps M) 2
      then some D.nan
      else bind (divergence_from series embed_dim tau M M 0 (empty_steps (max_steps M)))
          λ ts. some (slope (points_from 0 ts))

  -- M is N - (embed_dim - 1) * tau, which may be negative.
  unfoldable pub compute_lyapunov : List D.Double → ℕ → ℕ → Option D.Double
  unfolding exponent_of
  compute_lyapunov series embed_dim tau =
      let lost = (embed_dim - 1) * tau in
      if ltb (length series) (lost + 2 * embed_dim)
      then some D.nan
      else exponent_of series embed_dim tau (length series - lost)
