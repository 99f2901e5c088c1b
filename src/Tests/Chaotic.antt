-- ===== src/Tests/Chaotic.antt =====
-- The chaos detector.
use astartis_codex_control_p.Base.{
  ℕ, ◌+◌, ◌%◌, ◌<◌, ◌≡◌, refl, true, false, some, List, [], ◌∷◌, arith, ltb, u64_mod, length,
}
use astartis_codex_control_p.Callbacks.{entries_of}
use astartis_codex_control_p.Chaos.{ChaosDetector, new_detector}
use astartis_codex_control_p.Chaos.Score.{compute_K}
use astartis_codex_control_p.Chaos.Range.{HasOrder, compute_K-range}
use astartis_codex_control_p.Chaos.Windows.{
  DetectorCall, Seen, nothing, run, samples_in, total_brought, capacity, run_new-samples,
}
use astartis_codex_control_p.Tests.Sensing.{whole}

-- A window that is not forced stays open below ten samples.
abbrev calls : List (DetectorCall ℕ)
calls =
    DetectorCall.push_call 3 false
    ∷ DetectorCall.push_call 4 true
    ∷ DetectorCall.flush_call false
    ∷ DetectorCall.flush_call true
    ∷ DetectorCall.push_call 5 false
    ∷ []

run_new-samples_example :
    (d : ChaosDetector ℕ) × (w : Seen whole) × (run whole calls (new_detector 256, nothing whole)
      ≡ some (d, w))
    × (samples_in whole w.windows + length d.samples ≡ total_brought calls)
    × (length d.samples < capacity 256)
    × (d.window_index ≡ length w.windows % u64_mod)
    × (entries_of "chaos_window" w.log ≡ length w.windows)
run_new-samples_example = run_new-samples whole calls 256

whole-HasOrder : HasOrder whole
whole-HasOrder = record { irreflexive = λ x. ground arith; zero_below_one = refl }

abbrev twelve_samples : List ℕ
twelve_samples = 3 ∷ 1 ∷ 4 ∷ 1 ∷ 5 ∷ 9 ∷ 2 ∷ 6 ∷ 5 ∷ 3 ∷ 5 ∷ 8 ∷ []

compute_K-range_example :
    (K : ℕ) × (compute_K whole twelve_samples [] ≡ some K)
    × (ltb K (whole.literal "0.0") ≡ false)
    × (ltb (whole.literal "1.0") K ≡ false)
compute_K-range_example = compute_K-range whole whole-HasOrder twelve_samples []
