-- ===== src/Tests/Plan.antt =====
-- The plans of internal/supervisor/openai_planner.go at a concrete input.

use cyber_foreman.Prelude.{true, false, ◌*◌, ◌≡◌, refl, [], ◌∷◌, some, inr}
use cyber_foreman.Domain.{pos}
use cyber_foreman.Supervisor.Answer.{bounded_text, bounded_review_list}
use cyber_foreman.Supervisor.Plan.{
  GoTexts, SupervisionPlan, normalize_supervision_plan, validate_planned_command,
  validate_planned_duration, trimmed_argv, runs_shell, in_range, minute,
}
use cyber_foreman.Supervisor.Plan.Laws.{Presentable, normalize_supervision_plan-Presentable}

-- Texts in which every duration is ten minutes.
abbrev ten_minutes : GoTexts
ten_minutes = record {
  trim = λ s. s;
  to_lower = λ s. s;
  base = λ s. s;
  contains_null = λ s. false;
  parse_duration = λ s. some (pos (10 * minute));
  show_duration = λ d. "10m0s";
}

abbrev proposed : SupervisionPlan
proposed = record {
  summary = "run the tests";
  rules = record {
    idle_timeout = "10m";
    hard_timeout = "10m";
    waiting_timeout = "10m";
    max_nudges = pos 1;
    max_retries = pos 5;
    max_test_repairs = pos 0;
  };
  verification = record {
    workspace = true;
    require_changes = true;
    command = some (record { argv = "go" ∷ "test" ∷ []; timeout = "10m"; purpose = "tests" });
  };
  semantic = record {
    final_review = true;
    criteria = "tests pass" ∷ [];
    max_redirects = pos 1;
    max_escalations = pos 1;
  };
  warnings = [];
}

abbrev normalized : SupervisionPlan
normalized = record proposed {
  rules = record proposed.rules {
    idle_timeout = "10m0s";
    hard_timeout = "10m0s";
    waiting_timeout = "10m0s";
  };
  verification = record proposed.verification {
    command = some (record { argv = "go" ∷ "test" ∷ []; timeout = "10m0s"; purpose = "tests" });
  };
}

proposed_let_through : normalize_supervision_plan ten_minutes proposed ≡ inr normalized
unfolding normalize_supervision_plan validate_planned_command validate_planned_duration trimmed_argv
    runs_shell in_range bounded_text bounded_review_list
proposed_let_through = refl

normalize_supervision_plan-Presentable_example : Presentable ten_minutes normalized
normalize_supervision_plan-Presentable_example =
    normalize_supervision_plan-Presentable ten_minutes proposed proposed_let_through
