-- ===== src/Supervisor/Clock.antt =====
-- internal/supervisor/clock.go: the timers seen as observations. `Clock.Now` is the argument `now`, and
-- the text of a deadline, `Format(time.RFC3339Nano)`, is the parameter `format_time`.
use cyber_foreman.Prelude.{
  ℕ, ◌+◌, String, append, itoa, Bool, not, ◌&&◌, List, [], ◌∷◌, ◌++◌, if◌then◌else◌, ltb, ◌==◌,
}
use cyber_foreman.Supervisor.Types.{
  Snapshot, Observation, ObservationType, timer_idle, timer_hard_timeout, nil,
}

-- The source text of the two types of observation.
type_text : ObservationType → String
type_text timer_hard_timeout = "timer.hard_timeout"
type_text timer_idle = "timer.idle"
type_text _ = ""

module _ (format_time : ℕ → String) where
  -- `fmtObservationID`.
  observation_id : String → ObservationType → ℕ → ℕ → String
  unfolding type_text itoa
  observation_id task_id kind deadline sequence = append task_id (
      append ":" (
        append (type_text kind)
          (append ":" (append (format_time deadline) (append ":" (itoa sequence))))))

  timer_observation : Snapshot → ObservationType → ℕ → ℕ → ℕ → Observation
  unfolding observation_id
  timer_observation s kind deadline sequence now = record {
    id = observation_id s.task_id kind deadline sequence;
    task_id = s.task_id;
    session_id = "";
    type = kind;
    timestamp = now;
    payload = nil;
  }

  -- A timer with a positive timeout whose start is set has passed its deadline.
  abbrev pub is_due : ℕ → ℕ → ℕ → Bool
  is_due now timeout start = ltb 0 timeout && (not (start == 0) && not (ltb now (start + timeout)))

  -- `TimeoutProbe.Observe`.
  unfoldable pub observe : ℕ → Snapshot → List Observation
  unfolding timer_observation
  observe now s =
      (if is_due now s.policy.hard_timeout s.started_at
        then timer_observation s timer_hard_timeout (s.started_at + s.policy.hard_timeout) 0 now
          ∷ []
        else [])
      ++ (if is_due now s.policy.idle_timeout s.last_progress_at
          then timer_observation s timer_idle (s.last_progress_at + s.policy.idle_timeout)
              s.idle_sequence now
            ∷ []
          else [])
