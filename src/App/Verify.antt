-- ===== src/App/Verify.antt =====
-- internal/app/service.go: `executeVerification` and `finishVerification`. The verifiers run in a world `W`.
pub mod Laws
use cyber_foreman.Prelude.{
  ℕ, String, Bool, true, false, not, ◌&&◌, List, [], ◌∷◌, Option, none, some, if◌then◌else◌, lookup,
  ◌⊎◌, inl, inr,
}
use cyber_foreman.Domain.{
  Task, EventType, verification_start, verification_finish, waiting, completed,
}
use cyber_foreman.Event.{Event, EventData, new_event, fields, text, flag}
use cyber_foreman.Event.Bus.Defs.{Env, publish_checked}
use cyber_foreman.Verification.Workspace.{
  Checkout, WorkspaceBaseline, WorkspacePolicy, WorkspaceResult, verify,
}
use cyber_foreman.Verification.Command.{System, CommandVerifier, TestResult, run}
use cyber_foreman.App.Types.{ServiceError, Command, Runtime, TaskStore, Service}
use cyber_foreman.App.Service.{transition, require_attention}

-- `verificationReport`.
pub record VerificationReport : Type 0 where
  pub required : Bool
  pub passed : Bool
  pub test : Option TestResult
  pub workspace : Option WorkspaceResult
  pub workspace_error : String

abbrev pub empty_report : VerificationReport
empty_report = record {
  required = false;
  passed = true;
  test = none;
  workspace = none;
  workspace_error = "";
}

-- The zero value of `WorkspaceResult`.
abbrev pub no_result : WorkspaceResult
no_result = record {
  passed = false;
  security_violation = false;
  head_changed = false;
  diff_check_passed = false;
  changed_files = [];
  violations = [];
  diff_output = "";
  diff_truncated = false;
}

abbrev pub workspace_report : String ⊎ WorkspaceResult → VerificationReport
workspace_report (inl e) = record {
  required = true;
  passed = false;
  test = none;
  workspace = some no_result;
  workspace_error = e;
}
workspace_report (inr r) = record {
  required = true;
  passed = r.passed;
  test = none;
  workspace = some r;
  workspace_error = "";
}

abbrev pub test_report : TestResult → VerificationReport → VerificationReport
test_report t p = record p { required = true; passed = p.passed && t.passed; test = some t }

abbrev pub has_commands : List Command → Bool
has_commands [] = false
has_commands (c ∷ cs) = true

abbrev started_event : String → String → ℕ → Event
started_event id verifier now =
    new_event id "" verification_start now (fields (("verifier", text verifier) ∷ []))

-- The event carries the result of the verifier too, which the model leaves out of its data.
abbrev finished_event : String → String → ℕ → Bool → List String → Event
finished_event id verifier now passed errors =
    new_event id "" verification_finish now (finished_data verifier passed errors)
  where
    finished_data : String → Bool → List String → EventData
    finished_data verifier passed [] =
        fields (("verifier", text verifier) ∷ ("passed", flag passed) ∷ [])
    finished_data verifier passed (e ∷ es) =
        fields (("verifier", text verifier) ∷ ("passed", flag passed) ∷ ("error", text e) ∷ [])

abbrev outcome_passed : String ⊎ WorkspaceResult → Bool
outcome_passed (inl e) = false
outcome_passed (inr r) = r.passed

abbrev outcome_errors : String ⊎ WorkspaceResult → List String
outcome_errors (inl e) = e ∷ []
outcome_errors (inr r) = []

abbrev cwd_of : Option Task → String
cwd_of none = ""
cwd_of (some t) = t.cwd

-- `verification.CommandVerifier{}`.
abbrev plain_verifier : CommandVerifier
plain_verifier = record { output_limit = 0; env = []; env_keys = []; sensitive_values = [] }

module _ {J W : Type 0} (env : Env J) (sys : System W) (ck : Checkout W) where
  abbrev pub verify_baseline :
      Option WorkspaceBaseline → WorkspacePolicy → W → (String ⊎ WorkspaceResult) × W
  verify_baseline none policy w = (inl "workspace baseline is missing", w)
  verify_baseline (some b) policy w = verify ck b policy w

  module _ {S : Type 0} where
    abbrev announce : Event → Service J S → Service J S
    announce e s = record s { bus = (publish_checked env e s.bus).1 }

    -- The first part: the workspace, if it is to be verified. `now` is the time.
    unfoldable pub verify_workspace :
        String → Runtime → ℕ → Service J S → W → VerificationReport × Service J S × W
    verify_workspace id r now s w =
        let (o, w1) = verify_baseline r.baseline r.verification.workspace_policy w in
        if r.verification.workspace
        then (
          workspace_report o,
          announce (finished_event id "workspace" now (outcome_passed o) (outcome_errors o))
              (announce (started_event id "workspace" now) s),
          w1,
        )
        else (empty_report, s, w)

    -- The second part: the commands, which run only if nothing speaks against the workspace.
    unfoldable pub verify_commands :
        String
        → Runtime
        → ℕ
        → VerificationReport × Service J S × W
        → VerificationReport × Service J S × W
    verify_commands id r now (p, s, w) =
        let (t, w1) =
          run sys plain_verifier (cwd_of (lookup id s.tasks)) r.verification.commands w in
        if p.passed && has_commands r.verification.commands
        then (
          test_report t p,
          announce (finished_event id "test" now t.passed [])
              (announce (started_event id "test" now) s),
          w1,
        )
        else if has_commands r.verification.commands
        then (record p { required = true }, s, w)
        else (p, s, w)

    -- `Service.executeVerification`.
    unfoldable pub execute_verification :
        String → Runtime → ℕ → Service J S → W → VerificationReport × Service J S × W
    unfolding verify_workspace verify_commands
    execute_verification id r now s w = verify_commands id r now (verify_workspace id r now s w)

module _ {J S : Type 0} (env : Env J) (ops : TaskStore S) where
  -- `Service.finishVerification`; the errors of its calls are ignored.
  unfoldable pub finish_verification :
      String → Runtime → VerificationReport → ℕ → Service J S → Service J S
  finish_verification id r p now s =
      if not p.required
      then (if r.interactive
          then (transition env ops id waiting "agent turn finished; waiting for operator follow-up"
              now s).1
          else (transition env ops id completed
              "process command exited successfully; no additional verifier configured" now s).1)
      else if p.passed
      then (if r.interactive
          then (transition env ops id waiting
              "all configured verifiers passed; waiting for operator follow-up" now s).1
          else (transition env ops id completed "all configured verifiers passed" now s).1)
      else (require_attention env ops id "deterministic verification failed" now s).1
