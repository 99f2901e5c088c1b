-- ===== src/Chaos/Defined.antt =====
-- No window makes the two scores read out of the range of a vector.
use astartis_codex_control_p.Base.{
  ℕ, zero, suc, ◌+◌, ◌-◌, ◌/◌, ◌%◌, ◌≤◌, ◌<◌, ◌≡◌, refl, Option, none, some, List, [], ◌∷◌, arith,
  ltb, leb, nat_eq, if_cases, length, get_elem?, get_elem?-known,
}
use astartis_codex_control_p.Doubles.{Doubles, bind}
use astartis_codex_control_p.Chaos.Score.{
  zero_double, running_sums, squared_step, displacement, mean_square, mean_squares, compute_msd,
  sorted_in, sort, median, scores, clamped, steps_of, phases_of, compute_K, pearson, counting_from,
}

abbrev pub IsDefined : {A : Type 0} → Option A → Type 0
IsDefined {A} o = (a : A) × (o ≡ some a)

pub bind-IsDefined :
    {A B : Type 0} (m : Option A) (f : A → Option B)
    → IsDefined m
    → ((a : A) → m ≡ some a → IsDefined (f a))
    → IsDefined (bind m f)
unfolding bind
bind-IsDefined none f h k = cc
bind-IsDefined (some a) f h k = k a refl

module _ (D : Doubles) where
  length-running_sums :
      (wave : D.Double → D.Double) (c sum : D.Double) (j : ℕ) (xs : List D.Double)
      → length (running_sums D wave c sum j xs) ≡ length xs + 1
  unfolding running_sums
  length-running_sums wave c sum j [] = omega arith
  length-running_sums wave c sum j (x ∷ xs) = omega (
    arith,
    length-running_sums wave c (D.add sum (D.mul x (wave (D.mul (D.of_nat (j + 1)) c)))) (j + 1) xs,
  )

  squared_step-IsDefined :
      (xs : List D.Double) (j n : ℕ) → j + n < length xs → IsDefined (squared_step D xs j n)
  unfolding squared_step
  squared_step-IsDefined xs j n h =
      bind-IsDefined (get_elem? xs (j + n)) _ (get_elem?-known xs (j + n) h) λ b _.
        bind-IsDefined (get_elem? xs j) _ (get_elem?-known xs j (omega (arith, h)))
          λ a _. (D.mul (D.sub b a) (D.sub b a), refl)

  displacement-IsDefined :
      (p q : List D.Double) (N n k j : ℕ) (sum : D.Double)
      → length p ≡ N + 1
      → length q ≡ N + 1
      → j + k + n ≤ N + 1
      → IsDefined (displacement D p q n k j sum)
  unfolding displacement
  displacement-IsDefined p q N n zero j sum lp lq h = (sum, refl)
  displacement-IsDefined p q N n (suc k) j sum lp lq h =
      bind-IsDefined (squared_step D p j n) _ (squared_step-IsDefined p j n (omega (arith, lp, h)))
        λ dp _.
          bind-IsDefined (squared_step D q j n) _
            (squared_step-IsDefined q j n (omega (arith, lq, h)))
            λ dq _.
              displacement-IsDefined p q N n k (j + 1) (D.add sum (D.add dp dq)) lp lq
                (omega (arith, h))

  mean_square-IsDefined :
      (p q : List D.Double) (N n : ℕ)
      → length p ≡ N + 1
      → length q ≡ N + 1
      → IsDefined (mean_square D p q N n)
  unfolding mean_square
  mean_square-IsDefined p q N n lp lq =
      if_cases (λ (o : Option D.Double). IsDefined o) (leb N n) _ _ (λ _. (zero_double D, refl))
        λ more.
          bind-IsDefined (displacement D p q n (N - n) 1 (zero_double D)) _
            (displacement-IsDefined p q N n (N - n) 1 (zero_double D) lp lq (ground (arith, more)))
            λ sum _. (D.div sum (D.of_nat (N - n)), refl)

  mean_squares-IsDefined :
      (p q : List D.Double) (N k n : ℕ)
      → length p ≡ N + 1
      → length q ≡ N + 1
      → IsDefined (mean_squares D p q N k n)
  unfolding mean_squares
  mean_squares-IsDefined p q N zero n lp lq = ([], refl)
  mean_squares-IsDefined p q N (suc k) n lp lq =
      bind-IsDefined (mean_square D p q N n) _ (mean_square-IsDefined p q N n lp lq) λ m _.
        bind-IsDefined (mean_squares D p q N k (n + 1)) _
          (mean_squares-IsDefined p q N k (n + 1) lp lq) λ ms _. (m ∷ ms, refl)

  compute_msd-IsDefined :
      (series : List D.Double) (c : D.Double) (n_max : ℕ) → IsDefined (compute_msd D series c n_max)
  unfolding compute_msd
  compute_msd-IsDefined series c n_max =
      mean_squares-IsDefined _ _ (length series) n_max 1
        (length-running_sums D.cos c (zero_double D) 0 series)
        (length-running_sums D.sin c (zero_double D) 0 series)

  length-sorted_in : (x : D.Double) (ys : List D.Double) → length (sorted_in D x ys) ≡ length ys + 1
  unfolding sorted_in
  length-sorted_in x [] = omega arith
  length-sorted_in x (y ∷ ys) = ground (arith, length-sorted_in x ys)

  length-sort : (xs : List D.Double) → length (sort D xs) ≡ length xs
  unfolding sort
  length-sort [] = refl
  length-sort (x ∷ xs) = omega (arith, length-sorted_in x (sort D xs), length-sort xs)

  sort-known : (v : List D.Double) (i : ℕ) → i < length v → IsDefined (get_elem? (sort D v) i)
  sort-known v i h = get_elem?-known (sort D v) i (omega (arith, h, length-sort v))

  median-IsDefined : (v : List D.Double) → IsDefined (median D v)
  unfolding median
  median-IsDefined v =
      let mid = length v / 2 in
      if_cases (λ (o : Option D.Double). IsDefined o) (nat_eq (length v) 0) _ _
        (λ _. (zero_double D, refl))
        λ some_left.
          if_cases (λ (o : Option D.Double). IsDefined o) (nat_eq (length v % 2) 1) _ _
            (λ _. sort-known v mid (ground (arith, some_left)))
            λ _.
              bind-IsDefined (get_elem? (sort D v) mid) _
                (sort-known v mid (ground (arith, some_left)))
                λ hi _.
                  bind-IsDefined (get_elem? (sort D v) (mid - 1)) _
                    (sort-known v (mid - 1) (ground (arith, some_left)))
                    λ lo _. (D.div (D.add lo hi) (D.literal "2.0"), refl)

  scores-IsDefined :
      (series : List D.Double) (n_max : ℕ) (cs : List D.Double)
      → IsDefined (scores D series n_max cs)
  unfolding scores
  scores-IsDefined series n_max [] = ([], refl)
  scores-IsDefined series n_max (c ∷ cs) =
      bind-IsDefined (compute_msd D series c n_max) _ (compute_msd-IsDefined series c n_max) λ M _.
        bind-IsDefined (scores D series n_max cs) _ (scores-IsDefined series n_max cs)
          λ rest _. (pearson D (counting_from D n_max 0) M ∷ rest, refl)

  pub compute_K-IsDefined :
      (series phases_in : List D.Double) → IsDefined (compute_K D series phases_in)
  unfolding compute_K
  compute_K-IsDefined series phases_in =
      if_cases (λ (o : Option D.Double). IsDefined o) (ltb (length series) 10) _ _
        (λ _. (zero_double D, refl))
        λ _.
          bind-IsDefined (scores D series (steps_of D (length series)) (phases_of D phases_in)) _
            (scores-IsDefined series (steps_of D (length series)) (phases_of D phases_in))
            λ K_vals _.
              bind-IsDefined (median D K_vals) _ (median-IsDefined K_vals)
                λ K _. (clamped D K, refl)
