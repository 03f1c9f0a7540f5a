-- ===== src/Supervisor/Plan.antt =====
-- internal/supervisor/planner.go and openai_planner.go: the plan of supervision that a model proposes, once its JSON
-- is decoded, and what is made of it. A duration is in nanoseconds.
pub mod Laws
use Prim.Native.String.{count}
use cyber_foreman.Prelude.{
  ℕ, ◌+◌, ◌*◌, String, str_eq, Bool, true, false, not, ◌&&◌, ◌||◌, List, [], ◌∷◌, length, any,
  Option, none, some, if◌then◌else◌, leb, ltb, ◌⊎◌, inl, inr,
}
use cyber_foreman.Domain.{ℤ, pos, negsuc}
use cyber_foreman.Supervisor.Types.{second}
use cyber_foreman.Supervisor.Answer.{
  bounded_text, bounded_review_list, is_none_of, max_review_field_runes, max_review_evidence_runes,
}

pub record SupervisionPlanRules : Type 0 where
  pub idle_timeout : String
  pub hard_timeout : String
  pub waiting_timeout : String
  pub max_nudges : ℤ
  pub max_retries : ℤ
  pub max_test_repairs : ℤ

pub record SupervisionPlanCommand : Type 0 where
  pub argv : List String
  pub timeout : String
  pub purpose : String

pub record SupervisionPlanVerify : Type 0 where
  pub workspace : Bool
  pub require_changes : Bool
  pub command : Option SupervisionPlanCommand

pub record SupervisionPlanSemantic : Type 0 where
  pub final_review : Bool
  pub criteria : List String
  pub max_redirects : ℤ
  pub max_escalations : ℤ

pub record SupervisionPlan : Type 0 where
  pub summary : String
  pub rules : SupervisionPlanRules
  pub verification : SupervisionPlanVerify
  pub semantic : SupervisionPlanSemantic
  pub warnings : List String

-- The errors of `normalizeSupervisionPlan`. Which counter is reported, where several are out of range, is up to
-- the order in which Go iterates over a map, so the error does not name it.
pub data PlanError : Type 0 where
  summary_required counter_out_of_range criterion_required workspace_required : PlanError
  argv_count shell_command purpose_required : PlanError
  argument_invalid : ℕ → PlanError
  duration_out_of_range : String → PlanError

-- `strings.TrimSpace`, `strings.ToLower`, `filepath.Base`, `strings.ContainsRune` with the null rune,
-- `time.ParseDuration` and `Duration.String`.
pub record GoTexts : Type 0 where
  pub trim : String → String
  pub to_lower : String → String
  pub base : String → String
  pub contains_null : String → Bool
  pub parse_duration : String → Option ℤ
  pub show_duration : ℤ → String

abbrev pub minute : ℕ
minute = 60 * second

abbrev pub hour : ℕ
hour = 60 * minute

unfoldable pub in_range : ℕ → ℕ → ℤ → Bool
in_range low high (pos n) = leb low n && leb n high
in_range low high (negsuc n) = false

-- Go's `if err != nil { return ... }`.
abbrev pub and_then : {A B : Type 0} → PlanError ⊎ A → (A → PlanError ⊎ B) → PlanError ⊎ B
and_then (inl e) f = inl e
and_then (inr a) f = f a

abbrev pub require : Bool → PlanError → {A : Type 0} → PlanError ⊎ A → PlanError ⊎ A
require true e rest = rest
require false e rest = inl e

module _ (go : GoTexts) where
  abbrev pub planned_duration : ℕ → ℕ → String → Option ℤ → PlanError ⊎ String
  planned_duration minimum maximum field none = inl (duration_out_of_range field)
  planned_duration minimum maximum field (some d) =
      require (in_range minimum maximum d) (duration_out_of_range field) (inr (go.show_duration d))

  -- `validatePlannedDuration`.
  unfoldable pub validate_planned_duration : String → ℕ → ℕ → String → PlanError ⊎ String
  validate_planned_duration value minimum maximum field =
      planned_duration minimum maximum field (go.parse_duration (go.trim value))

  abbrev pub bad_argument : String → Bool
  bad_argument value = str_eq value "" || (go.contains_null value || ltb 512 (count value))

  -- The loop over the values of argv, from the one at this index.
  unfoldable pub trimmed_argv : ℕ → List String → PlanError ⊎ List String
  trimmed_argv index [] = inr []
  trimmed_argv index (v ∷ vs) =
      let rest = trimmed_argv (index + 1) vs in
      require (not (bad_argument (go.trim v))) (argument_invalid index)
        (and_then rest (λ ws. inr (go.trim v ∷ ws)))

  abbrev pub shells : List String
  shells = "sh" ∷ "bash" ∷ "zsh" ∷ "fish" ∷ "cmd" ∷ "cmd.exe" ∷ "powershell" ∷ "pwsh" ∷ []

  unfoldable pub runs_shell : List String → Bool
  runs_shell [] = false
  runs_shell (v ∷ vs) = any (λ shell. str_eq (go.to_lower (go.base v)) shell) shells

  abbrev pub checked_command :
      SupervisionPlanCommand
      → PlanError ⊎ List String
      → PlanError ⊎ String
      → PlanError ⊎ SupervisionPlanCommand
  checked_command c argv timeout =
      require (not (is_none_of c.argv) && leb (length c.argv) 16) argv_count (
        and_then argv (λ argv. require (not (runs_shell argv)) shell_command (
          and_then timeout (λ timeout.
            require (not (str_eq (bounded_text go.trim c.purpose max_review_evidence_runes) ""))
              purpose_required
              (inr (record {
                argv = argv;
                timeout = timeout;
                purpose = bounded_text go.trim c.purpose max_review_evidence_runes;
              }))))))

  -- `validatePlannedCommand`, which changes the command in place.
  unfoldable pub validate_planned_command :
      SupervisionPlanCommand → PlanError ⊎ SupervisionPlanCommand
  validate_planned_command c = checked_command c (trimmed_argv 0 c.argv) (
      validate_planned_duration c.timeout (10 * second) (30 * minute)
        "verification command timeout")

  abbrev pub planned_command :
      Option SupervisionPlanCommand → PlanError ⊎ Option SupervisionPlanCommand
  planned_command none = inr none
  planned_command (some c) = and_then (validate_planned_command c) (λ d. inr (some d))

  abbrev pub with_timeouts :
      SupervisionPlanRules
      → PlanError ⊎ String
      → PlanError ⊎ String
      → PlanError ⊎ String
      → PlanError ⊎ SupervisionPlanRules
  with_timeouts r idle hard waiting = and_then idle (λ idle. and_then hard (λ hard.
      and_then waiting (λ waiting.
        inr (record r { idle_timeout = idle; hard_timeout = hard; waiting_timeout = waiting }))))

  abbrev pub planned_rules : SupervisionPlanRules → PlanError ⊎ SupervisionPlanRules
  planned_rules r =
      with_timeouts r
        (validate_planned_duration r.idle_timeout (15 * second) (30 * minute) "idle_timeout")
        (validate_planned_duration r.hard_timeout (5 * minute) (24 * hour) "hard_timeout")
        (validate_planned_duration r.waiting_timeout (5 * minute) (24 * hour) "waiting_timeout")

  abbrev pub counters_in_range : SupervisionPlan → Bool
  counters_in_range p =
      in_range 0 5 p.rules.max_nudges
      && (in_range 0 5 p.rules.max_retries
          && (in_range 0 5 p.rules.max_test_repairs
              && (in_range 0 5 p.semantic.max_redirects
                  && in_range 0 5 p.semantic.max_escalations)))

  abbrev pub checked_plan :
      SupervisionPlan
      → String
      → List String
      → PlanError ⊎ SupervisionPlanRules
      → PlanError ⊎ Option SupervisionPlanCommand
      → PlanError ⊎ SupervisionPlan
  checked_plan p summary criteria rules command =
      require (not (str_eq summary "")) summary_required (
        and_then rules (λ rules. require (counters_in_range p) counter_out_of_range (
          require (not (p.semantic.final_review && is_none_of criteria)) criterion_required (
            require (not (p.verification.require_changes && not p.verification.workspace))
              workspace_required
              (and_then command (λ command. inr (record p {
                summary = summary;
                rules = rules;
                semantic = record p.semantic { criteria = criteria };
                warnings = bounded_review_list go.trim p.warnings;
                verification = record p.verification { command = command };
              })))))))

  -- `normalizeSupervisionPlan`.
  unfoldable pub normalize_supervision_plan : SupervisionPlan → PlanError ⊎ SupervisionPlan
  normalize_supervision_plan p =
      checked_plan p (bounded_text go.trim p.summary max_review_field_runes)
        (bounded_review_list go.trim p.semantic.criteria) (planned_rules p.rules)
        (planned_command p.verification.command)
