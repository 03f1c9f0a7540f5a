-- ===== src/App/Prompt/Timers.antt =====
-- internal/app/prompt.go: the rounds of the loop that take the expiry of a timer.
use cyber_foreman.Prelude.{
  ℕ, ◌+◌, String, append, not, ◌||◌, List, [], ◌∷◌, Option, none, some, if◌then◌else◌,
}
use cyber_foreman.Domain.{waiting, attention, stopped, agent_interrupt}
use cyber_foreman.Event.{text}
use cyber_foreman.Supervisor.Types.{
  Snapshot, Observation, ObservationType, Decision, is_action, nudge, attention_required,
  timer_idle, timer_hard_timeout, nil,
}
use cyber_foreman.Supervisor.Engine.{evaluate}
use cyber_foreman.Supervisor.Executor.{ExecuteError, error_text}
use cyber_foreman.App.Types.{ServiceError}
use cyber_foreman.App.Prompt.State.{
  Plant, Loop, Outcome, stay, leave, service_error_text, reset_timer, current_status,
  publish_fields, attend_and_leave, transit, run_decision, numbered,
}
use cyber_foreman.App.Prompt.Performers.{prompt_performer}
use cyber_foreman.App.Prompt.Turn.{stop_mid_turn_review, take_over}
use cyber_foreman.App.Prompt.Actions.{status_is}

-- `timeoutFollowUp`.
unfoldable pub timeout_follow_up : Decision → String
timeout_follow_up d =
    if is_action d.action nudge
    then "监工检测到当前任务长时间没有可观察进展。请简要检查是否卡住或方向错误，然后继续完成原任务；不要重复已经完成的工作。"
    else "监工检测到多次空转，已取消上一轮。请重新评估当前方案，选择一个可验证的下一步继续原任务，并优先运行必要的检查。"

module _ {J S W : Type 0} (p : Plant J S W) where
  abbrev timer_observation : String → ObservationType → ℕ → Loop J S W → Observation
  timer_observation id type now l = record {
    id = id;
    task_id = p.task_id;
    session_id = l.session_id;
    type = type;
    timestamp = now;
    payload = nil;
  }

  -- What an execution leaves of the loop where its snapshot and its error are ignored.
  abbrev performed : Option ExecuteError × Snapshot × Option String × Loop J S W → Loop J S W
  performed (err, next, retried, l) = l

  abbrev pub nudged :
      Decision → ℕ → Option ExecuteError × Snapshot × Option String × Loop J S W → Outcome J S W
  nudged d now (some x, next, retried, l) =
      attend_and_leave p (append "idle recovery failed: " (error_text x)) now l
  nudged d now (none, next, retried, l) = stay (
      publish_fields p agent_interrupt (("rule_id", text d.rule_id) ∷ []) now (
        stop_mid_turn_review p (record l {
          snapshot = next;
          pending_follow_up = timeout_follow_up d;
          pending_follow_up_source = "supervisor";
        })))

  unfoldable pub idle_by : ℕ → List Decision → Loop J S W → Outcome J S W
  idle_by now [] l = stay (record l {
    idle_timer = reset_timer p.runtime.policy.idle_timeout p.runtime.policy.idle_timeout;
  })
  idle_by now (d ∷ ds) l =
      if is_action d.action attention_required
      then attend_and_leave p d.reason now
          (performed (run_decision p (prompt_performer p l.session_id) d now l))
      else nudged d now (run_decision p (prompt_performer p l.session_id) d now l)

  -- `case <-idleC`.
  unfoldable pub on_idle_due : ℕ → Loop J S W → Outcome J S W
  on_idle_due now l0 =
      let l = record l0 {
        idle_timer = none;
        sequence = l0.sequence + 1;
        snapshot = record l0.snapshot { idle_sequence = l0.snapshot.idle_sequence + 1 };
      } in
      if not l0.prompt_active
      then stay (record l0 { idle_timer = none })
      else idle_by now
          (evaluate l.snapshot
            (timer_observation (numbered p ":idle:" l.snapshot.idle_sequence) timer_idle now l))
          l

  unfoldable pub hard_by : ℕ → List Decision → Loop J S W → Outcome J S W
  hard_by now [] l = attend_and_leave p "task exceeded hard timeout" now l
  hard_by now (d ∷ ds) l =
      attend_and_leave p d.reason now
        (take_over p (run_decision p (prompt_performer p l.session_id) d now l))

  -- `case <-hardC`.
  unfoldable pub on_hard_due : ℕ → Loop J S W → Outcome J S W
  on_hard_due now l0 =
      let l = record l0 { hard_timer = none; sequence = l0.sequence + 1 } in
      hard_by now
        (evaluate l.snapshot
          (timer_observation (numbered p ":hard-timeout:" l.sequence) timer_hard_timeout now l))
        l

  abbrev pub expired : ℕ → Option ServiceError × Loop J S W → Outcome J S W
  expired now (some x, l) =
      attend_and_leave p (append "expire waiting Agent session: " (service_error_text x)) now l
  expired now (none, l) = leave l

  -- `case <-waitingC`.
  unfoldable pub on_waiting_due : ℕ → Loop J S W → Outcome J S W
  on_waiting_due now l0 =
      let l = record l0 { waiting_timer = none } in
      if not (status_is waiting (current_status p l) || status_is attention (current_status p l))
      then stay l
      else expired now (
          transit p stopped "interactive Agent session expired while waiting for operator input" now
            l)
