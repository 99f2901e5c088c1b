-- ===== src/Result.antt =====
-- Exceptions as values: what a function of the program throws.
use astartis_codex_control_p.Base.{String}

pub data Exception : Type 0 where
  invalid_argument runtime_error : String → Exception

pub data Result {ℓ} (A : Type ℓ) : Type ℓ where
  ok : A → Result A
  throws : Exception → Result A
