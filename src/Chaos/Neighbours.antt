-- ===== src/Chaos/Neighbours.antt =====
-- The neighbours and the distances of the Lyapunov exponent are all in range.
use astartis_codex_control_p.Base.{
  ℕ, zero, suc, ◌+◌, ◌-◌, ◌*◌, ◌≤◌, ◌<◌, ◌≡◌, refl, ◌||◌, Option, none, some, List, [], ◌∷◌, arith,
  ltb, leb, if_cases, length, get_elem?-known,
}
use astartis_codex_control_p.Doubles.{Doubles, bind}
use astartis_codex_control_p.Chaos.Defined.{IsDefined, bind-IsDefined}
use astartis_codex_control_p.Chaos.Score.{zero_double}
use astartis_codex_control_p.Chaos.Lyapunov.{
  embedded, distance_from, dist, is_near, nearer, neighbour_from, noted, diverged, tracked,
  divergence_from, empty_steps, exponent_of, compute_lyapunov, max_steps, slope, points_from,
}

-- A neighbour that was found is one of the points.
abbrev IsPoint : ℕ → Option ℕ → Type 0
IsPoint M none = Unit {0}
IsPoint M (some n) = n < M

times-le : (d e tau : ℕ) → d < e → d * tau ≤ (e - 1) * tau
times-le d e tau h = grind arith

module _ (D : Doubles) (series : List D.Double) (embed_dim tau M : ℕ)
    (fits : M + (embed_dim - 1) * tau ≤ length series) where
  embedded-IsDefined :
      (a d : ℕ) → a < M → d < embed_dim → IsDefined (embedded D series embed_dim tau M a d)
  unfolding embedded
  embedded-IsDefined a d low small =
      if_cases (λ (o : Option D.Double). IsDefined o) (ltb a M) _ _
        (λ _.
          get_elem?-known series (a + d * tau)
            (omega (arith, fits, low, times-le d embed_dim tau small)))
        (λ high. absurd (ground (arith, high, low)))

  distance_from-IsDefined :
      (k d a b : ℕ) (s : D.Double)
      → a < M
      → b < M
      → d + k ≤ embed_dim
      → IsDefined (distance_from D series embed_dim tau M k d a b s)
  unfolding distance_from
  distance_from-IsDefined zero d a b s ha hb h = (s, refl)
  distance_from-IsDefined (suc k) d a b s ha hb h =
      bind-IsDefined (embedded D series embed_dim tau M a d) _
        (embedded-IsDefined a d ha (omega (arith, h)))
        λ x _.
          bind-IsDefined (embedded D series embed_dim tau M b d) _
            (embedded-IsDefined b d hb (omega (arith, h)))
            λ y _.
              distance_from-IsDefined k (d + 1) a b (D.add s (D.mul (D.sub x y) (D.sub x y))) ha hb
                (omega (arith, h))

  dist-IsDefined : (a b : ℕ) → a < M → b < M → IsDefined (dist D series embed_dim tau M a b)
  unfolding dist
  dist-IsDefined a b ha hb =
      bind-IsDefined (distance_from D series embed_dim tau M embed_dim 0 a b (zero_double D)) _
        (distance_from-IsDefined embed_dim 0 a b (zero_double D) ha hb (omega arith))
        λ s _. (D.sqrt s, refl)

  -- A search that is defined and finds one of the points.
  abbrev IsFound : Option (D.Double × Option ℕ) → Type 0
  IsFound o = (t : D.Double × Option ℕ) × (o ≡ some t) × IsPoint M t.1

  bind-IsFound :
      {A : Type 0} (m : Option A) (f : A → Option (D.Double × Option ℕ))
      → IsDefined m
      → ((a : A) → IsFound (f a))
      → IsFound (bind m f)
  unfolding bind
  bind-IsFound none f h k = cc
  bind-IsFound (some a) f h k = k a

  nearer-IsPoint :
      (j : ℕ) (d : D.Double) (t : D.Double × Option ℕ)
      → j < M
      → IsPoint M t.1
      → IsPoint M (nearer D series embed_dim tau M j d t).1
  nearer-IsPoint j d t hj ht =
      if_cases (λ (u : D.Double × Option ℕ). IsPoint M u.1) (D.lt d t.0) _ _ (λ _. hj) (λ _. ht)

  neighbour_from-IsFound :
      (k j i : ℕ) (t : D.Double × Option ℕ)
      → i < M
      → j + k ≤ M
      → IsPoint M t.1
      → IsFound (neighbour_from D series embed_dim tau M k j i t)
  unfolding neighbour_from
  neighbour_from-IsFound zero j i t hi h ht = (t, refl, ht)
  neighbour_from-IsFound (suc k) j i t hi h ht =
      if_cases IsFound (is_near D series embed_dim tau M i j) _ _
        (λ _. neighbour_from-IsFound k (j + 1) i t hi (omega (arith, h)) ht)
        λ _.
          bind-IsFound (dist D series embed_dim tau M i j) _
            (dist-IsDefined i j hi (omega (arith, h)))
            λ d.
              neighbour_from-IsFound k (j + 1) i (nearer D series embed_dim tau M j d t) hi
                (omega (arith, h)) (nearer-IsPoint j d t (omega (arith, h)) ht)

  diverged-IsDefined :
      (s i n : ℕ) (ts : List (D.Double × ℕ))
      → IsDefined (diverged D series embed_dim tau M s i n ts)
  unfolding diverged
  diverged-IsDefined s i n [] = ([], refl)
  diverged-IsDefined s i n (t ∷ ts) =
      if_cases (λ (o : Option (List (D.Double × ℕ))). IsDefined o) (leb M (i + s) || leb M (n + s))
        _ _ (λ _. (t ∷ ts, refl))
        λ inside.
          bind-IsDefined (dist D series embed_dim tau M (i + s) (n + s)) _
            (dist-IsDefined (i + s) (n + s) (ground (arith, inside)) (ground (arith, inside)))
            λ d _.
              bind-IsDefined (diverged D series embed_dim tau M (s + 1) i n ts) _
                (diverged-IsDefined (s + 1) i n ts)
                λ rest _. (noted D series embed_dim tau M d t ∷ rest, refl)

  tracked-IsDefined :
      (i : ℕ) (o : Option ℕ) (ts : List (D.Double × ℕ))
      → IsDefined (tracked D series embed_dim tau M i o ts)
  unfolding tracked
  tracked-IsDefined i none ts = (ts, refl)
  tracked-IsDefined i (some n) ts = diverged-IsDefined 1 i n ts

  divergence_from-IsDefined :
      (k i : ℕ) (ts : List (D.Double × ℕ))
      → i + k ≤ M
      → IsDefined (divergence_from D series embed_dim tau M k i ts)
  unfolding divergence_from
  divergence_from-IsDefined zero i ts h = (ts, refl)
  divergence_from-IsDefined (suc k) i ts h =
      let found =
        neighbour_from-IsFound M 0 i (D.largest, none) (omega (arith, h)) (omega arith) tt in
      bind-IsDefined (neighbour_from D series embed_dim tau M M 0 i (D.largest, none)) _
        (found.0, found.1)
        λ best _.
          bind-IsDefined (tracked D series embed_dim tau M i best.1 ts) _
            (tracked-IsDefined i best.1 ts)
            λ next _. divergence_from-IsDefined k (i + 1) next (omega (arith, h))

  exponent_of-IsDefined : IsDefined (exponent_of D series embed_dim tau M)
  unfolding exponent_of
  exponent_of-IsDefined =
      if_cases (λ (o : Option D.Double). IsDefined o) (ltb (max_steps D M) 2) _ _
        (λ _. (D.nan, refl))
        λ _.
          bind-IsDefined
            (divergence_from D series embed_dim tau M M 0 (empty_steps D (max_steps D M))) _
            (divergence_from-IsDefined M 0 (empty_steps D (max_steps D M)) (omega arith))
            λ ts _. (slope D (points_from D 0 ts), refl)

pub compute_lyapunov-IsDefined :
    (D : Doubles) (series : List D.Double) (embed_dim tau : ℕ)
    → 0 < embed_dim
    → IsDefined (compute_lyapunov D series embed_dim tau)
unfolding compute_lyapunov
compute_lyapunov-IsDefined D series embed_dim tau h =
    let lost = (embed_dim - 1) * tau in
    if_cases (λ (o : Option D.Double). IsDefined o) (ltb (length series) (lost + 2 * embed_dim)) _ _
      (λ _. (D.nan, refl))
      (λ more.
        exponent_of-IsDefined D series embed_dim tau (length series - lost)
          (ground (arith, more, h)))
