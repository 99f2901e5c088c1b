-- ===== src/Pipeline.antt =====
-- astartis/pipeline/self_healing_pipeline: the stages of a run and the healing of a failed one.
-- std::tolower over a text is the argument `lower`; dispatch_fn_ is absent or a callback like the
-- audit adder. The loop of run takes the stage function as an argument, and run gives it run_stage.
pub mod Healing
use astartis_codex_control_p.Base.{
  ℕ, ◌+◌, String, Bool, true, false, ◌&&◌, ◌||◌, not, Option, none, some, List, [], ◌∷◌, ◌++◌,
  starts_with, if◌then◌else◌, concat, is_empty, nat_text,
}
use astartis_codex_control_p.Callbacks.{AuditAdder}

pub data Stage : Type 0 where
  code_commit static_analysis unit_tests integration_tests security_scan : Stage
  build deploy_staging e2e_tests deploy_production monitor : Stage

pub data StageStatus : Type 0 where
  passed failed skipped auto_fixed : StageStatus

pub record StageResult : Type 0 where
  pub stage : Stage
  pub status : StageStatus
  pub detail : String
  pub auto_fix_agent : String
  pub auto_fix_result : String

pub record Commit : Type 0 where
  pub id : String
  pub author : String
  pub message : String
  pub timestamp : String

pub record PipelineResult : Type 0 where
  pub commit_id : String
  pub has_passed : Bool
  pub stage_results : List StageResult
  pub auto_fixes_applied : ℕ

pub record HealingRule : Type 0 where
  pub failure_keyword : String
  pub target_agent : String
  pub description : String

abbrev rule : String → String → String → HealingRule
rule failure_keyword target_agent description = record {
  failure_keyword = failure_keyword;
  target_agent = target_agent;
  description = description;
}

abbrev pub default_rules : List HealingRule
default_rules =
    rule "compile error" "bug_hunter" "Auto-fix compile error"
    ∷ rule "link error" "bug_hunter" "Auto-fix linker error"
    ∷ rule "test failure" "test_writer" "Auto-generate missing tests"
    ∷ rule "assertion failed" "bug_hunter" "Analyze assertion failure"
    ∷ rule "vulnerability" "security_reviewer" "Patch security vulnerability"
    ∷ rule "CVE" "dependency_mgr" "Update vulnerable dependency"
    ∷ rule "coverage drop" "test_writer" "Generate coverage-boosting tests"
    ∷ rule "lint" "refact_engine" "Auto-apply lint fixes"
    ∷ rule "performance regression" "performance_opt" "Optimize performance bottleneck"
    ∷ rule "deployment failed" "sre_engineer" "Auto-rollback and diagnose"
    ∷ rule "memory leak" "security_reviewer" "Fix memory safety issue"
    ∷ rule "data race" "security_reviewer" "Fix thread safety issue"
    ∷ []

unfoldable pub add_healing_rule : HealingRule → List HealingRule → List HealingRule
add_healing_rule r rules = rules ++ r ∷ []

unfoldable pub stage_name : Stage → String
stage_name code_commit = "code_commit"
stage_name static_analysis = "static_analysis"
stage_name unit_tests = "unit_tests"
stage_name integration_tests = "integration_tests"
stage_name security_scan = "security_scan"
stage_name build = "build"
stage_name deploy_staging = "deploy_staging"
stage_name e2e_tests = "e2e_tests"
stage_name deploy_production = "deploy_production"
stage_name monitor = "monitor"

-- The array `stages` of run.
abbrev pub run_order : List Stage
run_order =
    static_analysis ∷ unit_tests ∷ security_scan ∷ build ∷ integration_tests ∷ deploy_staging
    ∷ e2e_tests ∷ []

unfoldable pub run_stage : Commit → Stage → StageResult
run_stage commit stage = record {
  stage = stage;
  status = passed;
  detail = concat ("Stage " ∷ stage_name stage ∷ " simulated PASS for commit " ∷ commit.id ∷ []);
  auto_fix_agent = "";
  auto_fix_result = "";
}

abbrev pub has_failed : StageResult → Bool
has_failed sr = elim sr.status [
  | passed ↦ false
  | failed ↦ true
  | skipped ↦ false
  | auto_fixed ↦ false
]

-- s.find(t) != std::string::npos
unfoldable pub contains : String → String → Bool
contains String.[] t = is_empty t
contains (String.◌∷◌ c s) t = starts_with (String.◌∷◌ c s) t || contains s t

unfoldable pub matches : (String → String) → StageResult → HealingRule → Bool
unfolding contains
matches lower result r = contains (lower result.detail) (lower r.failure_keyword)

-- The first rule that matches.
unfoldable pub find_rule : (String → String) → StageResult → List HealingRule → Option HealingRule
find_rule lower result [] = none
find_rule lower result (r ∷ rules) =
    if matches lower result r then some r else find_rule lower result rules

module _ {W : Type 0} (lower : String → String) (dispatch : Option (AuditAdder W))
    (audit_adder : AuditAdder W) where
  unfoldable pub delegated : StageResult → HealingRule → W → String × W
  delegated result r w = elim dispatch [
    | none ↦ ("dispatch_not_available", w)
    | some dispatch_fn ↦
        dispatch_fn r.target_agent
          (concat (
            "Fix this pipeline failure.\nStage: "
            ∷ stage_name result.stage
            ∷ "\nDetail: "
            ∷ result.detail
            ∷ []))
          w
  ]

  unfoldable pub fix_with : Option HealingRule → StageResult → W → Bool × StageResult × W
  unfolding delegated
  fix_with none result w = (false, result, w)
  fix_with (some r) result w =
      let answer = delegated result r w in
      (
        true,
        record result {
          status = auto_fixed;
          auto_fix_agent = r.target_agent;
          auto_fix_result = answer.0;
        },
        answer.1,
      )

  unfoldable pub attempt_auto_fix : List HealingRule → StageResult → W → Bool × StageResult × W
  unfolding fix_with find_rule
  attempt_auto_fix rules result w = fix_with (find_rule lower result rules) result w

  -- A stage with what the loop does on a failure: the number of fixes, whether the run may still
  -- pass, the result and the outside.
  unfoldable pub try_stage : List HealingRule → StageResult → W → ℕ × Bool × StageResult × W
  unfolding attempt_auto_fix
  try_stage rules sr w =
      if has_failed sr
      then (let (is_fixed, healed, w1) = attempt_auto_fix rules sr w in
          ((if is_fixed then 1 else 0), is_fixed, healed, w1))
      else (0, true, sr, w)

  unfoldable pub run_stages :
      List HealingRule
      → (Stage → StageResult)
      → Commit
      → List Stage
      → PipelineResult
      → W
      → PipelineResult × W
  unfolding try_stage
  run_stages rules stage_fn commit [] result w = (result, w)
  run_stages rules stage_fn commit (stage ∷ stages) result w =
      let t = try_stage rules (stage_fn stage) w in
      let next : PipelineResult = record result {
        has_passed = result.has_passed && t.1;
        stage_results = result.stage_results ++ t.2 ∷ [];
        auto_fixes_applied = result.auto_fixes_applied + t.0;
      } in
      let rest = run_stages rules stage_fn commit stages next t.3 in
      if not next.has_passed && has_failed t.2
      then (
        next,
        (audit_adder "pipeline_blocked"
            (concat ("commit=" ∷ commit.id ∷ " stage=" ∷ stage_name stage ∷ [])) t.3).1,
      )
      else rest

  unfoldable pub run : List HealingRule → Commit → W → PipelineResult × W
  unfolding run_stages run_stage
  run rules commit w =
      let started =
        (audit_adder "pipeline_started"
          (concat ("commit=" ∷ commit.id ∷ " author=" ∷ commit.author ∷ [])) w).1 in
      let start : PipelineResult = record {
        commit_id = commit.id;
        has_passed = true;
        stage_results = [];
        auto_fixes_applied = 0;
      } in
      let r = run_stages rules (run_stage commit) commit run_order start started in
      (
        r.0,
        (audit_adder "pipeline_completed"
            (concat (
              "commit="
              ∷ commit.id
              ∷ " outcome="
              ∷ (if r.0.has_passed then "passed" else "failed")
              ∷ " auto_fixes="
              ∷ nat_text r.0.auto_fixes_applied
              ∷ []))
            r.1).1,
      )
