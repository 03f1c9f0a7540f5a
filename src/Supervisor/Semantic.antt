-- ===== src/Supervisor/Semantic.antt =====
-- internal/supervisor/semantic.go: what a semantic reviewer is asked and answers.
use cyber_foreman.Prelude.{ℕ, String, Bool, List, ◌==◌}

pub data SemanticVerdict : Type 0 where
  pass redirect uncertain attention : SemanticVerdict

pub data SemanticReviewPhase : Type 0 where
  final mid_turn : SemanticReviewPhase

abbrev pub verdict_text : SemanticVerdict → String
verdict_text pass = "pass"
verdict_text redirect = "redirect"
verdict_text uncertain = "uncertain"
verdict_text attention = "attention"

abbrev pub phase_text : SemanticReviewPhase → String
phase_text final = "final"
phase_text mid_turn = "mid_turn"

abbrev pub verdict_code : SemanticVerdict → ℕ
verdict_code pass = 0
verdict_code redirect = 1
verdict_code uncertain = 2
verdict_code attention = 3

-- Go's `==` on verdicts.
abbrev pub is_verdict : SemanticVerdict → SemanticVerdict → Bool
is_verdict a b = verdict_code a == verdict_code b

-- The toolbox, through which a reviewer reads the state of the task, is left out.
pub record SemanticReviewRequest : Type 0 where
  pub task_id : String
  pub trusted_instructions : List String
  pub acceptance_criteria : List String
  pub current_instruction : String
  pub agent_response : String
  pub verification_summary : String
  pub phase : SemanticReviewPhase

pub record SemanticReview : Type 0 where
  pub verdict : SemanticVerdict
  pub reason : String
  pub follow_up : String
  pub evidence : List String
  pub unmet_requirements : List String
  pub missing_evidence : List String
  pub tool_call : String

pub record SemanticMidTurnPolicy : Type 0 where
  pub enabled : Bool
  pub interval : ℕ
  pub min_output_runes : ℕ
  pub max_reviews : ℕ

pub record SemanticReviewerDescriptor : Type 0 where
  pub provider : String
  pub model : String
  pub tool_calling : Bool
  pub allow_workspace_diff : Bool
  pub allow_attention : Bool
  pub mid_turn : SemanticMidTurnPolicy
