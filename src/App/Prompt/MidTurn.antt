-- ===== src/App/Prompt/MidTurn.antt =====
-- internal/app/prompt.go: the rounds of the loop that review a turn while it runs.
use cyber_foreman.Prelude.{
  ℕ, ◌+◌, String, str_eq, append, itoa, Bool, true, false, not, ◌||◌, [], ◌∷◌, Option, none, some,
  if◌then◌else◌, ltb, leb, ◌==◌,
}
use cyber_foreman.Supervisor.Types.{Snapshot, Decision, cancel_and_follow_up, no_cost}
use cyber_foreman.Supervisor.Executor.{ExecuteError, error_text}
use cyber_foreman.Supervisor.Semantic.{SemanticReview, is_verdict, redirect}
use cyber_foreman.App.Review.{Reviewer}
use cyber_foreman.App.Prompt.Texts.{mid_turn_semantic_redirect_prompt}
use cyber_foreman.App.Prompt.State.{
  Plant, Loop, Outcome, stay, reset_timer, attend_and_leave, run_decision, numbered,
}
use cyber_foreman.App.Prompt.Performers.{prompt_performer}
use cyber_foreman.App.Prompt.Actions.{interrupted}
use cyber_foreman.App.Prompt.TurnEnd.{over_budget, operator_instruction}

abbrev pub has_reviewer : {W : Type 0} → Option (Reviewer W) → Bool
has_reviewer none = false
has_reviewer (some r) = true

abbrev pub asks_redirect : Option SemanticReview → Bool
asks_redirect none = false
asks_redirect (some r) = is_verdict r.verdict redirect

module _ {J S W : Type 0} (p : Plant J S W) where
  abbrev pub reset_mid_turn : Loop J S W → Loop J S W
  reset_mid_turn l = record l {
    mid_turn_timer = reset_timer p.mid_turn.interval p.mid_turn.interval;
  }

  -- `launchMidTurnReview`: the goroutine gets the instruction and the response so far.
  unfoldable pub launch_mid_turn_review : Loop J S W → Loop J S W
  launch_mid_turn_review l =
      if not p.mid_turn.enabled
        || (not (has_reviewer p.reviewer)
            || (l.mid_turn_active
                || (not l.prompt_active
                    || (not (str_eq l.pending_follow_up "")
                        || leb p.mid_turn.max_reviews l.mid_turn_reviews))))
      then l
      else record l {
        mid_turn_reviews = l.mid_turn_reviews + 1;
        mid_turn_active = true;
        mid_turn_timer = none;
        world = p.agents.review (operator_instruction p l) l.turn_response l.world;
      }

  -- `case <-midTurnC`.
  unfoldable pub on_mid_turn_due : Loop J S W → Loop J S W
  on_mid_turn_due l0 =
      let l = record l0 { mid_turn_timer = none } in
      if not l.prompt_active
        || (not (str_eq l.pending_follow_up "") || leb p.mid_turn.max_reviews l.mid_turn_reviews)
      then l
      else if ltb l.turn_response_runes p.mid_turn.min_output_runes
      then reset_mid_turn l
      else launch_mid_turn_review l

  abbrev pub mid_turn_decision : SemanticReview → Loop J S W → Decision
  mid_turn_decision review l = record {
    rule_id = "semantic-review-mid-turn";
    action = cancel_and_follow_up;
    reason = review.reason;
    evidence = numbered p ":semantic-mid-turn:" l.sequence ∷ [];
    dedupe_key =
        append (numbered p ":semantic-mid-turn:" l.generation)
          (append ":" (itoa l.mid_turn_reviews));
    budget_cost = record no_cost { semantic_redirects = 1 };
  }

  abbrev pub corrected :
      SemanticReview
      → Decision
      → ℕ
      → Option ExecuteError × Snapshot × Option String × Loop J S W
      → Outcome J S W
  corrected review d now (none, next, retried, l) =
      stay
        (interrupted p (mid_turn_semantic_redirect_prompt p.trim review) "supervisor" next d now l)
  corrected review d now (some x, next, retried, l) =
      if over_budget x
      then stay (record l { mid_turn_timer = none })
      else attend_and_leave p (append "mid-turn semantic reviewer action failed: " (error_text x))
          now l

  unfoldable pub correct : Option SemanticReview → ℕ → Loop J S W → Outcome J S W
  correct none now l = stay l
  correct (some review) now l0 =
      let l = record l0 { sequence = l0.sequence + 1 } in
      corrected review (mid_turn_decision review l) now
        (run_decision p (prompt_performer p l.session_id) (mid_turn_decision review l) now l)

  -- `case outcome := <-midTurnOutcomes`: the review of a turn, if it succeeded.
  unfoldable pub on_mid_turn_outcome : ℕ → Option SemanticReview → ℕ → Loop J S W → Outcome J S W
  on_mid_turn_outcome generation review now l0 =
      let l = record l0 { mid_turn_active = false } in
      if not (generation == l0.generation)
      then stay l0
      else if not l.prompt_active || not (str_eq l.pending_follow_up "")
      then stay l
      else if asks_redirect review
      then correct review now l
      else if ltb l.mid_turn_reviews p.mid_turn.max_reviews
      then stay (reset_mid_turn l)
      else stay l
