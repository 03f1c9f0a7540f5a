-- ===== src/App/Prompt/TurnEnd.antt =====
-- internal/app/prompt.go: the round of the loop that takes the end of a turn, with its verification and
-- its review.
use cyber_foreman.Prelude.{
  ℕ, ◌+◌, String, str_eq, append, Bool, true, false, not, ◌&&◌, ◌||◌, List, [], ◌∷◌, Option, none,
  some, if◌then◌else◌, ◌==◌, lookup, insert, Map,
}
use cyber_foreman.Domain.{
  TaskStatus, running, verifying, waiting, attention, is_status, agent_follow_up,
}
use cyber_foreman.Event.{text}
use cyber_foreman.Supervisor.Types.{
  Snapshot, Observation, Decision, is_action, no_cost, agent_turn_finished, test_finished,
  git_finished, verification, fields, repair, semantic_redirect, start_verification,
  attention_required,
}
use cyber_foreman.Supervisor.Engine.{evaluate}
use cyber_foreman.Supervisor.Ledger.{budget_exceeded}
use cyber_foreman.Supervisor.Executor.{ExecuteError, ledger, error_text}
use cyber_foreman.Supervisor.Semantic.{
  SemanticVerdict, SemanticReview, pass, redirect, uncertain, attention as attention_verdict, final,
}
use cyber_foreman.Verification.Command.{TestResult}
use cyber_foreman.Verification.Workspace.{WorkspaceResult}
use cyber_foreman.App.Types.{ServiceError, Runtime, Service}
use cyber_foreman.App.Service.{require_attention}
use cyber_foreman.App.Verify.{VerificationReport, execute_verification, finish_verification}
use cyber_foreman.App.Review.{review_agent_turn}
use cyber_foreman.App.Prompt.Texts.{
  workspace_failure_summary, test_failure_summary, test_repair_prompt, semantic_redirect_prompt,
}
use cyber_foreman.App.Prompt.State.{
  Plant, Loop, Outcome, stay, leave, action_text, reset_timer, current_status, publish_fields,
  attend, attend_and_leave, transit, run_decision, numbered,
}
use cyber_foreman.App.Prompt.Performers.{no_op_performer}
use cyber_foreman.App.Prompt.Turn.{next_idle_delay, start_prompt, stop_mid_turn_review, take_over}
use cyber_foreman.App.Prompt.Events.{lose}

-- `promptOutcome`: the session and the turn that it ends, and the reason of the stop or the error.
pub record PromptOutcome : Type 0 where
  pub session_id : String
  pub generation : ℕ
  pub stop_reason : String
  pub error : Option String

abbrev workspace_failed : Option WorkspaceResult → String → Bool
workspace_failed none error = false
workspace_failed (some r) error = not r.passed || not (str_eq error "")

abbrev violates : Option WorkspaceResult → Bool
violates none = false
violates (some r) = r.security_violation

abbrev test_text : (String → String) → Option TestResult → String
test_text trim none = "configured tests failed"
test_text trim (some t) = test_failure_summary trim t

abbrev or_no_test : Option TestResult → TestResult
or_no_test none = record { passed = false; commands = [] }
or_no_test (some t) = t

-- Whether an execution was refused for its budget, `errors.Is(err, ErrBudgetExceeded)`.
abbrev pub over_budget : ExecuteError → Bool
over_budget (ledger budget_exceeded) = true
over_budget _ = false

module _ {J S W : Type 0} (p : Plant J S W) where
  -- `failedVerificationObservation`.
  unfoldable pub failed_verification_observation : String → ℕ → VerificationReport → ℕ → Observation
  failed_verification_observation session sequence report now =
      if workspace_failed report.workspace report.workspace_error
      then record {
        id = numbered p ":verification:" sequence;
        task_id = p.task_id;
        session_id = session;
        type = git_finished;
        timestamp = now;
        payload = verification (record {
          verifier = "workspace";
          passed = false;
          security_violation = violates report.workspace;
          summary = workspace_failure_summary p.trim report;
        });
      }
      else record {
        id = numbered p ":verification:" sequence;
        task_id = p.task_id;
        session_id = session;
        type = test_finished;
        timestamp = now;
        payload = verification (record {
          verifier = "test";
          passed = false;
          security_violation = false;
          summary = test_text p.trim report.test;
        });
      }

  -- A follow-up of the supervisor on a running task.
  abbrev pub follow_up : String → String → Decision → ℕ → Loop J S W → Loop J S W
  follow_up stop_reason words d now l0 =
      let l = start_prompt p words words "supervisor" true now (
        publish_fields p agent_follow_up
          (("stop_reason", text stop_reason) ∷ ("rule_id", text d.rule_id) ∷ []) now
          (record l0 { snapshot = record l0.snapshot { status = running } })) in
      record l {
        idle_timer = reset_timer p.runtime.policy.idle_timeout (next_idle_delay l.snapshot);
      }

  abbrev pub followed_up :
      String → String → Decision → ℕ → Option ServiceError × Loop J S W → Outcome J S W
  followed_up stop_reason words d now (some x, l) = leave l
  followed_up stop_reason words d now (none, l) = stay (follow_up stop_reason words d now l)

  -- An interactive session that waits for its operator.
  abbrev idle_session : TaskStatus → Loop J S W → Loop J S W
  idle_session s l = record l {
    snapshot = record l.snapshot { status = s };
    idle_timer = none;
    hard_timer = none;
    waiting_timer = reset_timer p.runtime.policy.waiting_timeout p.runtime.policy.waiting_timeout;
  }

  abbrev pub settled : Option TaskStatus → Loop J S W → Outcome J S W
  settled none l = leave l
  settled (some s) l =
      if p.runtime.interactive && (is_status s waiting || is_status s attention)
      then stay (idle_session s l)
      else leave l

  -- `s.finishVerification`, and what follows it.
  unfoldable pub settle : VerificationReport → ℕ → Loop J S W → Outcome J S W
  settle report now l0 =
      let l = record l0 {
        service = finish_verification p.env p.ops p.task_id p.runtime report now l0.service;
      } in
      settled (current_status p l) l

  abbrev pub redirect_decision : SemanticReview → Loop J S W → Decision
  redirect_decision review l = record {
    rule_id = "semantic-review";
    action = semantic_redirect;
    reason = review.reason;
    evidence = numbered p ":semantic-review:" l.sequence ∷ [];
    dedupe_key = numbered p ":semantic-review:" l.generation;
    budget_cost = record no_cost { semantic_redirects = 1 };
  }

  abbrev pub redirected :
      SemanticReview
      → VerificationReport
      → Decision
      → ℕ
      → Option ExecuteError × Snapshot × Option String × Loop J S W
      → Outcome J S W
  redirected review report d now (none, next, retried, l) =
      followed_up "semantic_redirect" (semantic_redirect_prompt p.trim review) d now (
        transit p running "semantic reviewer requested a correction" now
          (record l { snapshot = next }))
  redirected review report d now (some x, next, retried, l) =
      if over_budget x
      then settle report now l
      else attend_and_leave p (append "semantic reviewer action failed: " (error_text x)) now l

  abbrev pub attention_decision : SemanticReview → Loop J S W → Decision
  attention_decision review l = record {
    rule_id = "semantic-review-attention";
    action = attention_required;
    reason = review.reason;
    evidence = numbered p ":semantic-attention:" l.sequence ∷ [];
    dedupe_key = numbered p ":semantic-attention:" l.generation;
    budget_cost = record no_cost { semantic_escalations = 1 };
  }

  abbrev pub attended_session : Option ServiceError → Loop J S W → Outcome J S W
  attended_session (some x) l = leave l
  attended_session none l =
      if p.runtime.interactive
      then stay (idle_session attention l)
      else leave (record l {
        snapshot = record l.snapshot { status = attention };
        idle_timer = none;
        hard_timer = none;
      })

  abbrev pub escalated :
      SemanticReview
      → VerificationReport
      → ℕ
      → Option ExecuteError × Snapshot × Option String × Loop J S W
      → Outcome J S W
  escalated review report now (none, next, retried, l0) =
      let l = record l0 { snapshot = next } in
      let (err, s) =
        require_attention p.env p.ops p.task_id
          (append "semantic reviewer requested operator attention: " review.reason) now l.service in
      attended_session err (record l { service = s })
  escalated review report now (some x, next, retried, l) =
      if over_budget x
      then settle report now l
      else attend_and_leave p (append "semantic reviewer escalation failed: " (error_text x)) now l

  -- The `switch` on the verdict of a review.
  unfoldable pub by_verdict :
      SemanticVerdict → SemanticReview → VerificationReport → ℕ → Loop J S W → Outcome J S W
  by_verdict redirect review report now l0 =
      let l = record l0 { sequence = l0.sequence + 1 } in
      redirected review report (redirect_decision review l) now
        (run_decision p (no_op_performer p semantic_redirect) (redirect_decision review l) now l)
  by_verdict attention_verdict review report now l0 =
      let l = record l0 { sequence = l0.sequence + 1 } in
      escalated review report now
        (run_decision p (no_op_performer p attention_required) (attention_decision review l) now l)
  by_verdict pass review report now l = settle report now l
  by_verdict uncertain review report now l = settle report now l

  abbrev pub by_review :
      VerificationReport → ℕ → Option SemanticReview × Service J S × W → Loop J S W → Outcome J S W
  by_review report now (none, s, w) l = settle report now (record l { service = s; world = w })
  by_review report now (some review, s, w) l =
      by_verdict review.verdict review report now (record l { service = s; world = w })

  -- The operator's instruction, if the turn was one.
  abbrev pub operator_instruction : Loop J S W → String
  operator_instruction l =
      if str_eq l.current_instruction_source "operator" then l.current_instruction else ""

  abbrev with_review : Option Runtime → Map Runtime → Map Runtime
  with_review none runtimes = runtimes
  with_review (some r) runtimes = insert p.task_id (record r { review_ready = true }) runtimes

  -- `runtime.reviewState.store`, which the stored runtime shares.
  abbrev pub store_context : VerificationReport → Loop J S W → Loop J S W
  store_context report l = record l {
    review_context = some (record {
      instructions = l.trusted_prompts;
      current_instruction = operator_instruction l;
      response = l.turn_response;
      report = report;
      snapshot = l.snapshot;
    });
    service = record l.service {
      runtimes = with_review (lookup p.task_id l.service.runtimes) l.service.runtimes;
    };
  }

  -- The part for a report that does not stand against the task.
  unfoldable pub on_verified : VerificationReport → ℕ → Loop J S W → Outcome J S W
  on_verified report now l0 =
      let l = store_context report l0 in
      if p.runtime.semantic_final
      then by_review report now
          (review_agent_turn p.env p.trim p.reviewer
            (record {
              task_id = p.task_id;
              session_id = l.session_id;
              instructions = l.trusted_prompts;
              current_instruction = operator_instruction l;
              response = l.turn_response;
              report = report;
              phase = final;
              criteria = p.runtime.semantic_criteria;
              trigger = "automatic";
            })
            now l.service l.world)
          l
      else settle report now l

  abbrev pub repaired :
      VerificationReport
      → Decision
      → ℕ
      → Option ExecuteError × Snapshot × Option String × Loop J S W
      → Outcome J S W
  repaired report d now (some x, next, retried, l) =
      attend_and_leave p (append "test repair action failed: " (error_text x)) now l
  repaired report d now (none, next, retried, l) =
      followed_up "verification_failed" (test_repair_prompt p.trim (or_no_test report.test)) d now (
        transit p running "configured tests failed; supervisor requested repair" now
          (record l { snapshot = next }))

  unfoldable pub fail_by : VerificationReport → ℕ → List Decision → Loop J S W → Outcome J S W
  fail_by report now [] l =
      attend_and_leave p "supervisor did not resolve failed verification" now l
  fail_by report now (d ∷ e ∷ ds) l =
      attend_and_leave p "supervisor did not resolve failed verification" now l
  fail_by report now (d ∷ []) l =
      if is_action d.action repair
      then repaired report d now (run_decision p (no_op_performer p repair) d now l)
      else if is_action d.action attention_required
      then (let l1 =
            attend p d.reason now
              (take_over p (run_decision p (no_op_performer p attention_required) d now l)) in
          if p.runtime.interactive then stay (idle_session attention l1) else leave l1)
      else attend_and_leave p
          (append "unsupported failed verification action: " (action_text d.action)) now l

  -- The part for a report that stands against the task.
  unfoldable pub on_refuted : VerificationReport → ℕ → Loop J S W → Outcome J S W
  on_refuted report now l0 =
      let l = record l0 { sequence = l0.sequence + 1 } in
      fail_by report now
        (evaluate l.snapshot (failed_verification_observation l.session_id l.sequence report now)) l

  abbrev pub verified : ℕ → VerificationReport × Service J S × W → Loop J S W → Outcome J S W
  verified now (report, s, w) l0 =
      let l = record l0 { service = s; world = w } in
      if not report.required || report.passed
      then on_verified report now l
      else on_refuted report now l

  abbrev pub verification_begun : ℕ → Option ServiceError × Loop J S W → Outcome J S W
  verification_begun now (some x, l) = leave l
  verification_begun now (none, l0) =
      let l = record l0 { snapshot = record l0.snapshot { status = verifying } } in
      verified now
        (execute_verification p.env p.sys p.checkout p.task_id p.runtime now l.service l.world) l

  abbrev pub verification_authorized :
      ℕ → Option ExecuteError × Snapshot × Option String × Loop J S W → Outcome J S W
  verification_authorized now (some x, next, retried, l) =
      attend_and_leave p (append "start verification action failed: " (error_text x)) now l
  verification_authorized now (none, next, retried, l) =
      verification_begun now
        (transit p verifying "agent turn finished" now (record l { snapshot = next }))

  unfoldable pub verify_by : ℕ → List Decision → Loop J S W → Outcome J S W
  verify_by now [] l = attend_and_leave p "supervisor did not authorize verification" now l
  verify_by now (d ∷ e ∷ ds) l =
      attend_and_leave p "supervisor did not authorize verification" now l
  verify_by now (d ∷ []) l =
      if not (is_action d.action start_verification)
      then attend_and_leave p "supervisor did not authorize verification" now l
      else verification_authorized now
          (run_decision p (no_op_performer p start_verification) d now l)

  -- The end of a turn that nothing follows: verification.
  unfoldable pub finish_turn : PromptOutcome → ℕ → Loop J S W → Outcome J S W
  finish_turn o now l0 =
      let l = record l0 { sequence = l0.sequence + 1 } in
      verify_by now
        (evaluate l.snapshot (record {
          id = numbered p ":turn:" l.sequence;
          task_id = p.task_id;
          session_id = l.session_id;
          type = agent_turn_finished;
          timestamp = now;
          payload = fields (("stop_reason", o.stop_reason) ∷ []);
        }))
        l

  -- The follow-up that was waiting is sent.
  unfoldable pub send_follow_up : PromptOutcome → ℕ → Loop J S W → Loop J S W
  send_follow_up o now l0 =
      let l1 =
        publish_fields p agent_follow_up (("stop_reason", text o.stop_reason) ∷ []) now
          (record l0 { pending_follow_up = ""; pending_follow_up_source = "" }) in
      let l =
        start_prompt p l0.pending_follow_up l0.pending_follow_up l0.pending_follow_up_source true
          now l1 in
      record l {
        idle_timer = reset_timer p.runtime.policy.idle_timeout (next_idle_delay l.snapshot);
      }

  abbrev pub is_error : Option String → Bool
  is_error none = false
  is_error (some e) = true

  abbrev error_of : Option String → String
  error_of none = ""
  error_of (some e) = e

  -- `case outcome := <-outcomes`; `ended` says whether the context has ended.
  unfoldable pub on_outcome : Bool → PromptOutcome → ℕ → Loop J S W → Outcome J S W
  on_outcome ended o now l0 =
      let l = stop_mid_turn_review p (record l0 { prompt_active = false }) in
      if not (o.generation == l0.generation) || not (str_eq o.session_id l0.session_id)
      then stay l0
      else if ended
      then leave l
      else if is_error o.error
      then lose p ":prompt-error:" (error_of o.error) true now l
      else if not (str_eq l.pending_follow_up "")
      then stay (send_follow_up o now l)
      else finish_turn o now l
