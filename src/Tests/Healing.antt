-- ===== src/Tests/Healing.antt =====
-- The healing pipeline.
use astartis_codex_control_p.Pipeline.{
  matches, Stage, StageResult, Commit, PipelineResult, HealingRule, failed, default_rules,
  run_order, run_stages, attempt_auto_fix,
}
use astartis_codex_control_p.Base.{String, ◌≡◌, refl, true, some, []}
use astartis_codex_control_p.Callbacks.{logging}
use astartis_codex_control_p.Pipeline.Healing.{IsSettled, run_stages-IsSettled}

abbrev same : String → String
same s = s

abbrev commit : Commit
commit = record { id = "c0ffee"; author = "ada"; message = "fix"; timestamp = "2026-01-01" }

abbrev failing : String → Stage → StageResult
failing detail stage = record {
  stage = stage;
  status = failed;
  detail = detail;
  auto_fix_agent = "";
  auto_fix_result = "";
}

abbrev start : PipelineResult
start = record {
  commit_id = "c0ffee";
  has_passed = true;
  stage_results = [];
  auto_fixes_applied = 0;
}

start-IsSettled : IsSettled start
start-IsSettled = record { settled = refl; ended = λ e. cc }

run_stages-IsSettled_example :
    IsSettled
      (run_stages same
        (some logging)
        logging
        default_rules
        (failing "disk full")
        commit
        run_order
        start
        []).0
run_stages-IsSettled_example =
    run_stages-IsSettled same (some logging) logging default_rules (failing "disk full") commit
      run_order start [] refl start-IsSettled

abbrev leak : StageResult
leak = failing "a memory leak" Stage.unit_tests

abbrev leak_rule : HealingRule
leak_rule = record { failure_keyword = "leak"; target_agent = "purple_team"; description = "later" }

leak_fixed : (attempt_auto_fix same (some logging) logging default_rules leak []).0 ≡ true
unfolding attempt_auto_fix matches
leak_fixed = refl
