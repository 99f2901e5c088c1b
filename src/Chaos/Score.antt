-- ===== src/Chaos/Score.antt =====
-- astartis/core/chaos_detector: the 0-1 test. std::nth_element is read at its place in the sorted vector.
use astartis_codex_control_p.Base.{
  ℕ, zero, suc, ◌+◌, ◌-◌, ◌/◌, ◌%◌, ◌||◌, not, Option, some, List, [], ◌∷◌, ltb, leb, nat_eq,
  if◌then◌else◌, length, get_elem?,
}
use astartis_codex_control_p.Doubles.{Doubles, bind}

module _ (D : Doubles) where
  abbrev pub zero_double : D.Double
  zero_double = D.literal "0.0"

  -- c_i = pi * (i + 1.0) / (N_PHASES + 1.0), from `i` on
  unfoldable pub phases_from : ℕ → ℕ → List D.Double
  phases_from zero i = []
  phases_from (suc n) i =
      D.div (D.mul (D.literal "3.14159265358979323846") (D.add (D.of_nat i) (D.literal "1.0")))
        (D.add (D.of_nat 20) (D.literal "1.0"))
      ∷ phases_from n (i + 1)

  unfoldable pub default_phases : List D.Double
  unfolding phases_from
  default_phases = phases_from 20 0

  -- The vector of running sums of series[j] * wave((j + 1) * c), with what stands before the first.
  unfoldable pub running_sums :
      (D.Double → D.Double) → D.Double → D.Double → ℕ → List D.Double → List D.Double
  running_sums wave c sum j [] = sum ∷ []
  running_sums wave c sum j (x ∷ xs) =
      sum ∷ running_sums wave c (D.add sum (D.mul x (wave (D.mul (D.of_nat (j + 1)) c)))) (j + 1) xs

  -- x[j + n] - x[j], squared
  unfoldable pub squared_step : List D.Double → ℕ → ℕ → Option D.Double
  unfolding bind
  squared_step xs j n =
      bind (get_elem? xs (j + n))
        λ b. bind (get_elem? xs j) λ a. some (D.mul (D.sub b a) (D.sub b a))

  -- The inner loop over j, with `k` rounds left.
  unfoldable pub displacement :
      List D.Double → List D.Double → ℕ → ℕ → ℕ → D.Double → Option D.Double
  unfolding squared_step bind
  displacement p q n zero j sum = some sum
  displacement p q n (suc k) j sum =
      bind (squared_step p j n)
        λ dp. bind (squared_step q j n) λ dq. displacement p q n k (j + 1) (D.add sum (D.add dp dq))

  -- M[n - 1]
  unfoldable pub mean_square : List D.Double → List D.Double → ℕ → ℕ → Option D.Double
  unfolding displacement bind
  mean_square p q N n =
      if leb N n
      then some zero_double
      else bind (displacement p q n (N - n) 1 zero_double)
          λ sum. some (D.div sum (D.of_nat (N - n)))

  -- The outer loop over n, with `k` rounds left.
  unfoldable pub mean_squares : List D.Double → List D.Double → ℕ → ℕ → ℕ → Option (List D.Double)
  unfolding mean_square bind
  mean_squares p q N zero n = some []
  mean_squares p q N (suc k) n =
      bind (mean_square p q N n) λ m. bind (mean_squares p q N k (n + 1)) λ ms. some (m ∷ ms)

  unfoldable pub compute_msd : List D.Double → D.Double → ℕ → Option (List D.Double)
  unfolding mean_squares running_sums
  compute_msd series c n_max =
      mean_squares (running_sums D.cos c zero_double 0 series)
        (running_sums D.sin c zero_double 0 series) (length series) n_max 1

  -- std::accumulate
  unfoldable pub sum_from : D.Double → List D.Double → D.Double
  sum_from acc [] = acc
  sum_from acc (x ∷ xs) = sum_from (D.add acc x) xs

  -- num, dx2 and dy2
  unfoldable pub moments :
      D.Double
      → D.Double
      → List D.Double
      → List D.Double
      → D.Double × D.Double × D.Double
      → D.Double × D.Double × D.Double
  moments mx my [] ys t = t
  moments mx my (x ∷ xs) [] t = t
  moments mx my (x ∷ xs) (y ∷ ys) (num, dx2, dy2) =
      let xi = D.sub x mx in
      let yi = D.sub y my in
      moments mx my xs ys
        (D.add num (D.mul xi yi), D.add dx2 (D.mul xi xi), D.add dy2 (D.mul yi yi))

  unfoldable pub pearson : List D.Double → List D.Double → D.Double
  unfolding sum_from moments
  pearson xs ys =
      let n = length xs in
      let mx = D.div (sum_from zero_double xs) (D.of_nat n) in
      let my = D.div (sum_from zero_double ys) (D.of_nat n) in
      let t = moments mx my xs ys (zero_double, zero_double, zero_double) in
      let denom = D.sqrt (D.mul t.1 t.2) in
      if ltb n 2 || not (nat_eq n (length ys))
      then zero_double
      else if D.lt denom (D.literal "1e-12")
      then zero_double
      else D.div t.0 denom

  unfoldable pub sorted_in : D.Double → List D.Double → List D.Double
  sorted_in x [] = x ∷ []
  sorted_in x (y ∷ ys) = let rest = sorted_in x ys in if D.lt y x then y ∷ rest else x ∷ y ∷ ys

  unfoldable pub sort : List D.Double → List D.Double
  unfolding sorted_in
  sort [] = []
  sort (x ∷ xs) = sorted_in x (sort xs)

  unfoldable pub median : List D.Double → Option D.Double
  unfolding sort bind
  median v =
      let mid = length v / 2 in
      if nat_eq (length v) 0
      then some zero_double
      else if nat_eq (length v % 2) 1
      then get_elem? (sort v) mid
      else bind (get_elem? (sort v) mid) λ hi.
        bind (get_elem? (sort v) (mid - 1)) λ lo. some (D.div (D.add lo hi) (D.literal "2.0"))

  -- 1, 2, ... as doubles
  unfoldable pub counting_from : ℕ → ℕ → List D.Double
  counting_from zero i = []
  counting_from (suc n) i = D.of_nat (i + 1) ∷ counting_from n (i + 1)

  unfoldable pub scores : List D.Double → ℕ → List D.Double → Option (List D.Double)
  unfolding compute_msd pearson bind counting_from
  scores series n_max [] = some []
  scores series n_max (c ∷ cs) =
      bind (compute_msd series c n_max)
        λ M. bind (scores series n_max cs) λ rest. some (pearson (counting_from n_max 0) M ∷ rest)

  unfoldable pub clamped : D.Double → D.Double
  clamped K =
      let low = if D.lt K zero_double then zero_double else K in
      if D.lt (D.literal "1.0") low then D.literal "1.0" else low

  abbrev pub steps_of : ℕ → ℕ
  steps_of N = if ltb 5 (N / 10) then N / 10 else 5

  unfoldable pub phases_of : List D.Double → List D.Double
  unfolding default_phases
  phases_of [] = default_phases
  phases_of (c ∷ cs) = c ∷ cs

  unfoldable pub compute_K : List D.Double → List D.Double → Option D.Double
  unfolding scores median clamped bind phases_of
  compute_K series phases_in =
      if ltb (length series) 10
      then some zero_double
      else bind (scores series (steps_of (length series)) (phases_of phases_in))
          λ K_vals. bind (median K_vals) λ K. some (clamped K)
