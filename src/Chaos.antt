-- ===== src/Chaos.antt =====
-- astartis/core/chaos_detector: windows of samples, the 0-1 test and the Lyapunov exponent. Both
-- callbacks are set, as main sets them. A result that is none has read out of the range of a vector.
pub mod Score
pub mod Lyapunov
pub mod Defined
pub mod Neighbours
pub mod Range
pub mod Windows
use astartis_codex_control_p.Base.{
  ℕ, Bool, false, ◌&&◌, ◌||◌, not, Option, some, List, [], ◌∷◌, ◌++◌, ltb, leb, nat_eq,
  if◌then◌else◌, inc64, concat, bool_text, nat_text, length,
}
use astartis_codex_control_p.Callbacks.{AuditAdder}
use astartis_codex_control_p.Doubles.{Doubles, bind}
use astartis_codex_control_p.Rules.{ChaosWindow}
use astartis_codex_control_p.Chaos.Score.{compute_K}
use astartis_codex_control_p.Chaos.Lyapunov.{compute_lyapunov}

abbrev pub default_window_size : ℕ
default_window_size = 256

pub record ChaosDetector (E : Type 0) : Type 0 where
  pub window_size : ℕ
  pub window_index : ℕ
  pub samples : List E
  pub any_synthetic : Bool

abbrev pub new_detector : {E : Type 0} → ℕ → ChaosDetector E
new_detector window_size = record {
  window_size = window_size;
  window_index = 0;
  samples = [];
  any_synthetic = false;
}

abbrev pub windows_emitted : {E : Type 0} → ChaosDetector E → ℕ
windows_emitted d = d.window_index

abbrev pub pending_samples : {E : Type 0} → ChaosDetector E → ℕ
pending_samples d = length d.samples

module _ (D : Doubles) {W : Type 0} (window_cb : ChaosWindow D.Double → W → W)
    (audit_adder : AuditAdder W) where
  abbrev pub chaos_threshold : D.Double
  chaos_threshold = D.literal "0.7"

  abbrev pub window_of : D.Double → D.Double → ChaosDetector D.Double → ChaosWindow D.Double
  window_of K lambda1 d = record {
    window_index = d.window_index;
    sample_count = length d.samples;
    K = K;
    lambda1 = lambda1;
    anomalous = D.lt chaos_threshold K;
    synthetic = d.any_synthetic;
  }

  -- flush_window with its two scores.
  unfoldable pub emit :
      D.Double → D.Double → ChaosDetector D.Double → W → ChaosDetector D.Double × W
  unfolding concat
  emit K lambda1 d w =
      let window = window_of K lambda1 d in
      let (id, w1) =
        audit_adder "chaos_window"
          (concat (
            "window="
            ∷ nat_text window.window_index
            ∷ " samples="
            ∷ nat_text window.sample_count
            ∷ " K="
            ∷ D.fixed 4 window.K
            ∷ " lambda1="
            ∷ (if D.is_nan window.lambda1 then "nan" else D.fixed 4 window.lambda1)
            ∷ " anomalous="
            ∷ bool_text window.anomalous
            ∷ " synthetic="
            ∷ bool_text window.synthetic
            ∷ []))
          w in
      (
        record d { window_index = inc64 d.window_index; samples = []; any_synthetic = false },
        window_cb window w1,
      )

  unfoldable pub scored : ChaosDetector D.Double → W → Option (ChaosDetector D.Double × W)
  unfolding emit bind compute_K compute_lyapunov
  scored d w =
      bind (compute_K D d.samples [])
        λ K. bind (compute_lyapunov D d.samples 3 1) λ lambda1. some (emit K lambda1 d w)

  unfoldable pub flush_window :
      Bool → ChaosDetector D.Double → W → Option (ChaosDetector D.Double × W)
  unfolding scored
  flush_window force d w =
      if ltb (length d.samples) 10 && not force
      then some (d, w)
      else if nat_eq (length d.samples) 0
      then some (d, w)
      else scored d w

  unfoldable pub push :
      D.Double → Bool → ChaosDetector D.Double → W → Option (ChaosDetector D.Double × W)
  unfolding flush_window
  push value synthetic d w =
      let d1 = record d {
        samples = d.samples ++ value ∷ [];
        any_synthetic = synthetic || d.any_synthetic;
      } in
      if leb d1.window_size (length d1.samples) then flush_window false d1 w else some (d1, w)
