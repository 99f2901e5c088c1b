-- ===== src/Pipeline/Healing.antt =====
-- When a run passes, and which rule heals a failure.
use astartis_codex_control_p.Base.{
  ℕ, ◌+◌, String, ◌≡◌, refl, sym, ◌∙◌, inl, inr, true, false, ◌&&◌, not, Option, some, List, [],
  ◌∷◌, ◌++◌, arith, if◌then◌else◌, Option-cases, if_cases, count_if,
}
use mathlib.Core.Bool.{true≢false}
use astartis_codex_control_p.Callbacks.{AuditAdder}
use astartis_codex_control_p.Pipeline.{
  Stage, StageResult, Commit, PipelineResult, HealingRule, has_failed, find_rule, fix_with,
  attempt_auto_fix, try_stage, run_stages, add_healing_rule,
}

-- How many of the results are failures.
abbrev pub failures : List StageResult → ℕ
failures rs = count_if has_failed rs

failures-snoc :
    (rs : List StageResult) (r : StageResult)
    → failures (rs ++ r ∷ []) ≡ failures rs + (if has_failed r then 1 else 0)
failures-snoc [] r = ground arith
failures-snoc (x ∷ rs) r = ground (arith, failures-snoc rs r)

-- A run so far: it has passed and then has no failure, or it has one failure, which comes last.
pub record IsSettled (result : PipelineResult) : Type 0 where
  pub settled : failures result.stage_results ≡ (if result.has_passed then 0 else 1)
  pub ended :
      result.has_passed ≡ false
      → (before : List StageResult) × (r : StageResult) × (result.stage_results ≡ before ++ r ∷ [])
        × (has_failed r ≡ true)

module _ {W : Type 0} (lower : String → String) (dispatch : Option (AuditAdder W))
    (audit_adder : AuditAdder W) where
  -- What attempt_auto_fix returns agrees with what it leaves of the result.
  try_stage-fixed :
      (rules : List HealingRule) (sr : StageResult) (w : W)
      → (let t = try_stage lower dispatch audit_adder rules sr w in t.1 ≡ not (has_failed t.2))
  unfolding try_stage attempt_auto_fix fix_with
  try_stage-fixed rules sr w = elim (Option-cases (find_rule lower sr rules)) [
    | inl missing ↦ rw missing (ground arith)
    | inr (r, found) ↦ rw found (ground arith)
  ]

  -- However the stages turn out and whatever the rules are, the loop of run stops at the first
  -- failure that no rule heals: it ends passed and without a failed result, or not passed and with
  -- exactly one, which is the last, if it begins passed and without one.
  pub run_stages-IsSettled :
      (rules : List HealingRule) (stage_fn : Stage → StageResult) (commit : Commit)
      (stages : List Stage) (result : PipelineResult) (w : W)
      → result.has_passed ≡ true
      → IsSettled result
      → IsSettled (run_stages lower dispatch audit_adder rules stage_fn commit stages result w).0
  unfolding run_stages
  run_stages-IsSettled rules stage_fn commit [] result w p h = h
  run_stages-IsSettled rules stage_fn commit (stage ∷ stages) result w p h =
      let t = try_stage lower dispatch audit_adder rules (stage_fn stage) w in
      let fixed = try_stage-fixed rules (stage_fn stage) w in
      let more = failures-snoc result.stage_results t.2 in
      if_cases (λ (r : PipelineResult × W). IsSettled r.0)
        (not (result.has_passed && t.1) && has_failed t.2) _ _
        (λ bad. record {
          settled = ground (arith, p, h.settled, more, bad);
          ended = λ _. (result.stage_results, t.2, refl, ground (arith, bad));
        })
        λ good.
          let still : result.has_passed && t.1 ≡ true = ground (arith, p, fixed, good) in
          run_stages-IsSettled rules stage_fn commit stages _ t.3 still (record {
            settled = ground (arith, p, h.settled, more, still, fixed);
            ended = λ e. absurd (true≢false (sym still ∙ e));
          })

  find_rule-append :
      (result : StageResult) (rules more : List HealingRule) {r : HealingRule}
      → find_rule lower result rules ≡ some r
      → find_rule lower result (rules ++ more) ≡ some r
  unfolding find_rule
  find_rule-append result [] more h = cc
  find_rule-append result (x ∷ rules) more {r = r} h =
      ground (arith, h, find_rule-append result rules more {r = r})

  -- A rule that is added later does not change how a failure is healed that a rule healed before.
  pub attempt_auto_fix-add :
      (rules : List HealingRule) (added : HealingRule) (result : StageResult) (w : W)
      → (attempt_auto_fix lower dispatch audit_adder rules result w).0 ≡ true
      → attempt_auto_fix lower dispatch audit_adder (add_healing_rule added rules) result w
        ≡ attempt_auto_fix lower dispatch audit_adder rules result w
  unfolding attempt_auto_fix add_healing_rule fix_with
  attempt_auto_fix-add rules added result w h = elim (Option-cases (find_rule lower result rules)) [
    | inl missing ↦ absurd (ground (arith, missing, h))
    | inr (r, found) ↦ rw (found, find_rule-append result rules (added ∷ []) found) refl
  ]
