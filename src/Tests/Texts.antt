-- ===== src/Tests/Texts.antt =====
-- The texts and the reviews of internal/app/prompt.go and semantic_review.go at concrete inputs.
use Prim.Native.String.{count}
use cyber_foreman.Prelude.{
  Map, ℕ, ◌+◌, ◌≤◌, ◌<◌, String, str_eq, append, true, false, ◌≡◌, refl, [], ◌∷◌, none, some, ◌⊎◌,
  inr,
}
use cyber_foreman.Supervisor.Semantic.{SemanticReview, attention, redirect, final}
use cyber_foreman.Supervisor.Answer.{
  decoded_answer, normalize_review, bounded_text, bounded_review_list,
  validate_semantic_review_evidence,
}
use cyber_foreman.Supervisor.Answer.Laws.{Supported, decoded_answer-Supported}
use cyber_foreman.App.Prompt.Texts.{
  concat_texts, take_runes, escape_rune, escape_recovery_text, limit_verification_feedback,
  max_feedback_runes,
}
use cyber_foreman.App.Prompt.Texts.Laws.{
  unescape_from, no_markup, unescape_from-escape_recovery_text,
}
use cyber_foreman.App.Prompt.Texts.Bounds.{limit_verification_feedback_cases}
use cyber_foreman.App.Review.{
  TaskReviewContext, Reviewer, ReviewSubject, append_bounded_response,
  max_observed_agent_response_runes, admitted_review, review_with, review_agent_turn,
}
use cyber_foreman.App.Review.Laws.{
  append_each, append_each_lem, asks_attention, review_agent_turn-attention,
}
use cyber_foreman.App.Prompt.State.{new_prompt_snapshot}
use cyber_foreman.Supervisor.Types.{default_policy}
use cyber_foreman.Tests.Bus.{env}
use cyber_foreman.Tests.Control.{waiting_service}

escaped : escape_recovery_text "a<b>&\"" ≡ "a&lt;b&gt;&amp;&quot;"
unfolding escape_recovery_text escape_rune
escaped = refl

unescape_from-escape_recovery_text_example :
    (unescape_from 0 (escape_recovery_text "a<b>&\"") ≡ "a<b>&\"")
    × (no_markup (escape_recovery_text "a<b>&\"") ≡ true)
unescape_from-escape_recovery_text_example = unescape_from-escape_recovery_text "a<b>&\""

limit_verification_feedback_cases_example :
    ((count "out" ≤ max_feedback_runes) × (limit_verification_feedback (λ s. s) "out" ≡ "out"))
    ⊎ ((front : String) × (tail : String) × ("out" ≡ append front tail)
        × (count tail ≡ max_feedback_runes)
        × (max_feedback_runes < count "out")
        × (limit_verification_feedback (λ s. s) "out" ≡ append tail "\n（仅保留末尾验证输出）"))
limit_verification_feedback_cases_example = limit_verification_feedback_cases (λ s. s) "out"

append_each_example : append_each append_bounded_response ("he" ∷ "llo" ∷ []) ("", 0) ≡ (
  take_runes max_observed_agent_response_runes (concat_texts ("he" ∷ "llo" ∷ [])),
  count (take_runes max_observed_agent_response_runes (concat_texts ("he" ∷ "llo" ∷ []))),
)
append_each_example = append_each_lem ("he" ∷ "llo" ∷ [])

-- A reviewer that asks for the operator.
abbrev strict : Reviewer ℕ
strict = record {
  descriptor = record {
    provider = "openai";
    model = "m";
    tool_calling = false;
    allow_workspace_diff = false;
    allow_attention = true;
    mid_turn = record { enabled = false; interval = 0; min_output_runes = 0; max_reviews = 0 };
  };
  review = λ r w. (
    inr (record {
      verdict = attention;
      reason = "unclear";
      follow_up = "";
      evidence = [];
      unmet_requirements = [];
      missing_evidence = [];
      tool_call = "";
    }),
    w + 1,
  );
}

abbrev subject : ReviewSubject
subject = record {
  task_id = "t";
  session_id = "s1";
  instructions = [];
  current_instruction = "";
  response = "done";
  report = record {
    required = false;
    passed = true;
    workspace = none;
    workspace_error = "";
    test = none;
  };
  phase = final;
  criteria = [];
  trigger = "automatic";
}

asked :
    asks_attention (review_agent_turn env (λ s. s) (some strict) subject 5 waiting_service 0).0
    ≡ true
unfolding review_agent_turn review_with admitted_review
asked = refl

review_agent_turn-attention_example :
    (v : Reviewer ℕ) × (some strict ≡ some v)
    × (v.descriptor.allow_attention ≡ true)
    × (true ≡ true)
review_agent_turn-attention_example =
    review_agent_turn-attention env (λ s. s) (some strict) subject 5 waiting_service 0 asked

abbrev result_contexts : Map TaskReviewContext
result_contexts =
    (
      "t",
      record {
        instructions = [];
        current_instruction = "";
        response = "done";
        report = subject.report;
        snapshot = new_prompt_snapshot "t" default_policy 5;
      },
    )
    ∷ []

-- A model's answer that asks for tests.
abbrev asking_for_tests : SemanticReview
asking_for_tests = record {
  verdict = redirect;
  reason = "no tests";
  follow_up = "add tests";
  evidence = "the diff" ∷ [];
  unmet_requirements = "tests" ∷ [];
  missing_evidence = "a run" ∷ [];
  tool_call = "";
}

asking_for_tests_let_through :
    decoded_answer (λ s. s) asking_for_tests final
    ≡ inr (record asking_for_tests { missing_evidence = [] })
unfolding decoded_answer normalize_review bounded_text bounded_review_list
    validate_semantic_review_evidence
asking_for_tests_let_through = refl

decoded_answer-Supported_example :
    (redirect ≡ redirect)
    × Supported redirect final (record asking_for_tests { missing_evidence = [] })
    × (str_eq "no tests" "" ≡ false)
decoded_answer-Supported_example =
    decoded_answer-Supported (λ s. s) asking_for_tests final asking_for_tests_let_through
