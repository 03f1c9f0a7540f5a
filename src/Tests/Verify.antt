-- ===== src/Tests/Verify.antt =====
-- The verification of a task of internal/app/service.go at concrete inputs.
use cyber_foreman.Prelude.{
  ℕ, ◌≡◌, refl, true, false, [], ◌∷◌, none, some, Map, lookup, insert, ◌⊎◌, inr,
}
use cyber_foreman.Domain.{Task, verifying, completed}
use cyber_foreman.Event.Bus.Defs.{new_bus, publish_checked}
use cyber_foreman.Verification.Workspace.{Checkout}
use cyber_foreman.App.Types.{Runtime, Service}
use cyber_foreman.App.Service.{moved, transition, commit, publish_each}
use cyber_foreman.Task.{can_transition}
use cyber_foreman.App.Verify.{
  empty_report, no_result, verify_baseline, execute_verification, finish_verification,
}
use cyber_foreman.App.Verify.Laws.{execute_verification_unsafe, finish_verification_sound}
use cyber_foreman.Tests.Bus.{env}
use cyber_foreman.Tests.Control.{task_at, session, waiting_service, store_of_three, any_changes}
use cyber_foreman.Tests.Verification.{machine, checkout, three_commands}

-- A checkout in the world of the machine.
abbrev pub counted : Checkout ℕ
counted = record {
  git = λ dir args n. (record { output = ""; truncated = false; error = none }, n);
  absolute = checkout.absolute;
  trim = checkout.trim;
  hex_digest = checkout.hex_digest;
  capture_files = λ root p n. (inr [], n);
  match_pattern = checkout.match_pattern;
  sort = checkout.sort;
  redact = checkout.redact;
}

-- A session whose baseline got lost.
abbrev lost : Runtime
lost = record session {
  verification = record {
    commands = three_commands;
    workspace = true;
    workspace_policy = any_changes;
  };
}

reported :
    (execute_verification env machine counted "t" lost 5 waiting_service 0).0.workspace
    ≡ some no_result
unfolding execute_verification
reported = refl

execute_verification_unsafe_example :
    let out = execute_verification env machine counted "t" lost 5 waiting_service 0 in
    (out.0.test ≡ none)
    × (out.0.passed ≡ false)
    × (out.2
        ≡ (verify_baseline env machine counted lost.baseline lost.verification.workspace_policy
            0).1)
execute_verification_unsafe_example =
    execute_verification_unsafe env machine counted "t" lost 5 waiting_service 0
      {result = no_result} refl reported refl

abbrev verifying_service : Service Unit (Map Task)
verifying_service = record waiting_service { tasks = ("t", task_at "t" verifying) ∷ [] }

abbrev batch : Runtime
batch = record session { interactive = false }

verified : lookup "t" verifying_service.tasks ≡ some (task_at "t" verifying)
unfolding lookup
verified = refl

finished :
    lookup "t"
      (finish_verification env store_of_three "t" batch empty_report 6 verifying_service).tasks
    ≡ some (moved completed 6 (task_at "t" verifying))
unfolding finish_verification lookup transition can_transition commit publish_each publish_checked
    new_bus insert
finished = refl

finished_status : (moved completed 6 (task_at "t" verifying)).status ≡ completed
unfolding moved
finished_status = refl

finish_verification_sound_example : (empty_report.required ≡ false) ⊎ (empty_report.passed ≡ true)
finish_verification_sound_example =
    finish_verification_sound env store_of_three "t" batch empty_report 6 verifying_service verified
      refl finished finished_status
