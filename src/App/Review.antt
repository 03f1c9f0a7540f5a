-- ===== src/App/Review.antt =====
-- internal/app/semantic_review.go: what the service asks a semantic reviewer, and what it makes of the
-- answer. The reviewer and the decoding of JSON are parameters.
pub mod Laws
use Prim.Native.String.{count}
use cyber_foreman.Prelude.{
  ℕ, ◌+◌, ◌-◌, String, str_eq, append, itoa, Bool, true, false, not, ◌&&◌, ◌||◌, List, [], ◌∷◌,
  ◌++◌, map, keep, Option, none, some, if◌then◌else◌, leb, ltb, length, take, ◌⊎◌, inl, inr, lookup,
  Map,
}
use cyber_foreman.Domain.{
  Task, EventType, ConversationMessageData, semantic_review_start, semantic_review_end,
  agent_output, agent_session_update, waiting, is_status,
}
use cyber_foreman.Event.{
  Event, EventData, FieldValue, new_event, fields, text, flag, texts, output, session_update,
}
use cyber_foreman.Event.Bus.Defs.{Env}
use cyber_foreman.Supervisor.Types.{Snapshot}
use cyber_foreman.Supervisor.Semantic.{
  SemanticVerdict, SemanticReviewPhase, SemanticReviewRequest, SemanticReview,
  SemanticReviewerDescriptor, final, mid_turn, attention, is_verdict, verdict_text, phase_text,
}
use cyber_foreman.Verification.Command.{CommandResult, TestResult}
use cyber_foreman.Verification.Workspace.{WorkspaceResult}
use cyber_foreman.App.Types.{
  ServiceError, Runtime, Service, task_not_found, action_unavailable, semantic_unavailable,
  review_failed,
}
use cyber_foreman.App.Service.{announce}
use cyber_foreman.App.Verify.{VerificationReport}
use cyber_foreman.App.Prompt.Texts.{concat_texts, join, take_runes, int_text}

pub record Reviewer (W : Type 0) : Type 0 where
  pub descriptor : SemanticReviewerDescriptor
  pub review : SemanticReviewRequest → W → (String ⊎ SemanticReview) × W

-- `taskReviewContext`.
pub record TaskReviewContext : Type 0 where
  pub instructions : List ConversationMessageData
  pub current_instruction : String
  pub response : String
  pub report : VerificationReport
  pub snapshot : Snapshot

abbrev pub max_observed_agent_response_runes : ℕ
max_observed_agent_response_runes = 16_384

-- `appendBoundedResponse` with its limit, on the text and its count of runes.
unfoldable pub append_within : ℕ → String × ℕ → String → String × ℕ
append_within limit (response, runes) chunk =
    if leb limit runes || str_eq chunk "" then (response, runes) else (
      append response (take_runes (limit - runes) chunk),
      runes + count (take_runes (limit - runes) chunk),
    )

-- `appendBoundedResponse`.
unfoldable pub append_bounded_response : String × ℕ → String → String × ℕ
append_bounded_response r chunk = append_within max_observed_agent_response_runes r chunk

-- `agentResponseChunk`; `decode` reads the text of an agent's message from an update, if it is one.
chunk_of : (String → Option String) → EventType → EventData → String
chunk_of decode agent_output (output o) = o.line
chunk_of decode agent_session_update (session_update u) = elim (decode u.update) [
  | some s ↦ s
  | none ↦ ""
]
chunk_of decode _ _ = ""

unfoldable pub agent_response_chunk : (String → Option String) → Event → String
unfolding chunk_of
agent_response_chunk decode e = chunk_of decode e.type e.payload

abbrev pub bool_text : Bool → String
bool_text true = "true"
bool_text false = "false"

module _ (trim : String → String) where
  -- `boundSemanticMetadata`.
  unfoldable pub bound_semantic_metadata : String → String
  bound_semantic_metadata value = take_runes 128 (trim value)

  -- The loop over the changed files: at most twenty, and a mark for the rest.
  unfoldable pub listed_files : List String → List String
  unfolding bound_semantic_metadata
  listed_files files =
      map bound_semantic_metadata (take 20 files)
      ++ (if ltb 20 (length files) then "(truncated)" ∷ [] else [])

  abbrev workspace_summary : Option WorkspaceResult → String → List String
  workspace_summary none error = []
  workspace_summary (some r) error =
      concat_texts (
        "workspace verification passed="
        ∷ bool_text (r.passed && str_eq error "")
        ∷ " changed_files=["
        ∷ join ", " (listed_files r.changed_files)
        ∷ "]"
        ∷ [])
      ∷ []

  abbrev pub command_summaries : ℕ → List CommandResult → List String
  command_summaries index [] = []
  command_summaries index (c ∷ cs) =
      concat_texts (
        "#"
        ∷ itoa index
        ∷ " exit="
        ∷ int_text c.exit_code
        ∷ " timed_out="
        ∷ bool_text c.timed_out
        ∷ " has_error="
        ∷ bool_text (not (str_eq c.error ""))
        ∷ [])
      ∷ command_summaries (index + 1) cs

  abbrev test_summary : Option TestResult → List String
  test_summary none = []
  test_summary (some t) =
      concat_texts (
        "configured command verification passed="
        ∷ bool_text t.passed
        ∷ " commands=["
        ∷ join "; " (command_summaries 1 t.commands)
        ∷ "]"
        ∷ [])
      ∷ []

  abbrev summary_of : Bool → List String → String
  summary_of passed [] = append "deterministic verification passed=" (bool_text passed)
  summary_of passed (p ∷ ps) = join "; " (p ∷ ps)

  -- `semanticVerificationSummary`.
  unfoldable pub semantic_verification_summary : VerificationReport → String
  unfolding listed_files
  semantic_verification_summary report =
      if not report.required
      then "No deterministic verifier was configured."
      else summary_of report.passed
          (workspace_summary report.workspace report.workspace_error ++ test_summary report.test)

  -- `semanticVerificationSummaryForPhase`.
  unfoldable pub semantic_verification_summary_for_phase :
      VerificationReport → SemanticReviewPhase → String
  unfolding semantic_verification_summary
  semantic_verification_summary_for_phase report mid_turn =
      "Deterministic verification has not run yet because the agent turn is still active."
  semantic_verification_summary_for_phase report final = semantic_verification_summary report

-- The texts of the operator's messages.
unfoldable pub trusted_texts : List ConversationMessageData → List String
trusted_texts ms = map (λ m. m.text) (keep (λ m. str_eq m.source "operator") ms)

-- What a review is about.
pub record ReviewSubject : Type 0 where
  pub task_id : String
  pub session_id : String
  pub instructions : List ConversationMessageData
  pub current_instruction : String
  pub response : String
  pub report : VerificationReport
  pub phase : SemanticReviewPhase
  pub criteria : List String
  pub trigger : String

abbrev pub is_final : SemanticReviewPhase → Bool
is_final final = true
is_final mid_turn = false

-- The answer of the reviewer, less an attention that it may not ask for.
unfoldable pub admitted_review :
    SemanticReviewerDescriptor
    → SemanticReviewPhase
    → String ⊎ SemanticReview
    → String ⊎ SemanticReview
admitted_review d phase (inl e) = inl e
admitted_review d phase (inr r) =
    if is_verdict r.verdict attention && (not d.allow_attention || not (is_final phase))
    then inl "semantic reviewer requested disabled operator attention"
    else inr r

abbrev pub review_start : SemanticReviewerDescriptor → ReviewSubject → ℕ → Event
review_start d q now = new_event q.task_id q.session_id semantic_review_start now (
    fields (
      ("provider", text d.provider)
      ∷ ("model", text d.model)
      ∷ ("tool_calling", flag d.tool_calling)
      ∷ ("allow_workspace_diff", flag d.allow_workspace_diff)
      ∷ ("allow_operator_attention", flag d.allow_attention)
      ∷ ("phase", text (phase_text q.phase))
      ∷ ("trigger", text q.trigger)
      ∷ []))

abbrev texts_if : String → List String → List (String × FieldValue)
texts_if name [] = []
texts_if name (x ∷ xs) = (name, texts (x ∷ xs)) ∷ []

abbrev review_fields : String ⊎ SemanticReview → List (String × FieldValue)
review_fields (inl e) = ("success", flag false) ∷ ("error", text e) ∷ []
review_fields (inr r) =
    ("success", flag true)
    ∷ ("verdict", text (verdict_text r.verdict))
    ∷ ("reason", text r.reason)
    ∷ ("follow_up", text r.follow_up)
    ∷ (texts_if "evidence" r.evidence
        ++ (texts_if "unmet_requirements" r.unmet_requirements
            ++ (texts_if "missing_evidence" r.missing_evidence
                ++ (if not (str_eq r.tool_call "")
                    then ("tool_call", text r.tool_call) ∷ []
                    else []))))

abbrev pub review_end :
    SemanticReviewerDescriptor → ReviewSubject → ℕ → String ⊎ SemanticReview → Event
review_end d q now answer = new_event q.task_id q.session_id semantic_review_end now (
    fields (
      ("provider", text d.provider)
      ∷ ("model", text d.model)
      ∷ ("phase", text (phase_text q.phase))
      ∷ ("trigger", text q.trigger)
      ∷ review_fields answer))

abbrev pub reviewed : String ⊎ SemanticReview → Option SemanticReview
reviewed (inl e) = none
reviewed (inr r) = some r

module _ {J S W : Type 0} (env : Env J) (trim : String → String) where
  unfoldable pub review_with :
      Reviewer W → ReviewSubject → ℕ → Service J S → W → Option SemanticReview × Service J S × W
  review_with reviewer q now s w =
      let (answer, w1) =
        reviewer.review
          (record {
            task_id = q.task_id;
            trusted_instructions = trusted_texts q.instructions;
            acceptance_criteria = q.criteria;
            current_instruction = q.current_instruction;
            agent_response = q.response;
            verification_summary = semantic_verification_summary_for_phase trim q.report q.phase;
            phase = q.phase;
          })
          w in
      let a = admitted_review reviewer.descriptor q.phase answer in
      (
        reviewed a,
        announce env (review_end reviewer.descriptor q now a)
            (announce env (review_start reviewer.descriptor q now) s),
        w1,
      )

  -- `Service.reviewAgentTurnWithTrigger`.
  unfoldable pub review_agent_turn :
      Option (Reviewer W)
      → ReviewSubject
      → ℕ
      → Service J S
      → W
      → Option SemanticReview × Service J S × W
  review_agent_turn none q now s w = (none, s, w)
  review_agent_turn (some reviewer) q now s w =
      if str_eq (trim q.response) "" then (none, s, w) else review_with reviewer q now s w

  abbrev pub review_answer :
      Option SemanticReview × Service J S × W → (ServiceError ⊎ SemanticReview) × Service J S × W
  review_answer (none, s, w) = (inl review_failed, s, w)
  review_answer (some r, s, w) = (inr r, s, w)

  abbrev pub review_stored :
      Option (Reviewer W)
      → String
      → Runtime
      → Option TaskReviewContext
      → ℕ
      → Service J S
      → W
      → (ServiceError ⊎ SemanticReview) × Service J S × W
  review_stored reviewer id r none now s w = (inl action_unavailable, s, w)
  review_stored reviewer id r (some c) now s w = review_answer (
      review_agent_turn reviewer
        (record {
          task_id = id;
          session_id = r.session_id;
          instructions = c.instructions;
          current_instruction = c.current_instruction;
          response = c.response;
          report = c.report;
          phase = final;
          criteria = r.semantic_criteria;
          trigger = "manual";
        })
        now s w)

  unfoldable pub review_found :
      Option (Reviewer W)
      → String
      → Option Task
      → Option Runtime
      → Option TaskReviewContext
      → ℕ
      → Service J S
      → W
      → (ServiceError ⊎ SemanticReview) × Service J S × W
  review_found reviewer id none r c now s w = (inl task_not_found, s, w)
  review_found reviewer id (some t) none c now s w = (inl action_unavailable, s, w)
  review_found reviewer id (some t) (some r) c now s w =
      if not (is_status t.status waiting)
      then (inl action_unavailable, s, w)
      else if not r.reviewer
      then (inl semantic_unavailable, s, w)
      else review_stored reviewer id r c now s w

  -- `Service.ReviewTaskResult`; `contexts` holds what the review states of the runtimes have stored.
  unfoldable pub review_task_result :
      Option (Reviewer W)
      → Map TaskReviewContext
      → String
      → ℕ
      → Service J S
      → W
      → (ServiceError ⊎ SemanticReview) × Service J S × W
  review_task_result reviewer contexts id now s w =
      review_found reviewer id (lookup id s.tasks) (lookup id s.runtimes) (lookup id contexts) now s
        w
