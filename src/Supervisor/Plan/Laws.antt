-- ===== src/Supervisor/Plan/Laws.antt =====
-- Which plans normalizeSupervisionPlan of internal/supervisor/openai_planner.go lets through.
use cyber_foreman.Prelude.{
  sym, Bool-cases, any, All, ◌≢◌, eq_iff, false≢true, ℕ, suc, ◌+◌, ◌*◌, ◌≤◌, String, str_eq, Bool,
  true, false, not, ◌≡◌, refl, ap, ◌∙◌, List, [], ◌∷◌, Option, none, some, length, ◌⊎◌, inl, inr,
  arith,
}
use cyber_foreman.Domain.{ℤ, pos, negsuc}
use cyber_foreman.Supervisor.Types.{second}
use cyber_foreman.Supervisor.Answer.{
  is_none_of, bounded_text, bounded_review_list, max_review_field_runes,
}
use cyber_foreman.Supervisor.Plan.{
  SupervisionPlanRules, SupervisionPlanCommand, SupervisionPlan, PlanError, GoTexts, minute, hour,
  in_range, and_then, require, planned_duration, validate_planned_duration, trimmed_argv,
  runs_shell, shells, bad_argument, argument_invalid, validate_planned_command, planned_command,
  planned_rules, with_timeouts, checked_command, checked_plan, counters_in_range,
  normalize_supervision_plan,
}

unfoldable pub Within : ℕ → ℕ → ℤ → Type 0
Within low high d = (n : ℕ) × (d ≡ pos n) × (low ≤ n) × (n ≤ high)

in_range-Within : (low high : ℕ) (d : ℤ) → in_range low high d ≡ true → Within low high d
unfolding in_range Within
in_range-Within low high (pos n) h = (n, refl, ground arith, ground arith)
in_range-Within low high (negsuc n) h = absurd (cc h)

require-inr :
    (t : Bool) (e : PlanError) {A : Type 0} (m : PlanError ⊎ A) {a : A}
    → require t e m ≡ inr a
    → (t ≡ true) × (m ≡ inr a)
require-inr true e m h = (refl, h)
require-inr false e m h = absurd (cc h)

checked_argument :
    (b : Bool) (e : PlanError) (v : String) (m : PlanError ⊎ List String) {ws : List String}
    → require b e (and_then m (λ us. inr (v ∷ us))) ≡ inr ws
    → (us : List String) × (m ≡ inr us) × (ws ≡ v ∷ us)
checked_argument false e v m h = absurd (cc h)
checked_argument true e v (inl x) h = absurd (cc h)
checked_argument true e v (inr us) h = (us, refl, ground arith)

module _ (go : GoTexts) where
  -- A text that spells a duration within these bounds, as Go spells it.
  unfoldable pub Spells : ℕ → ℕ → String → Type 0
  Spells low high t = (d : ℤ) × Within low high d × (t ≡ go.show_duration d)

  planned_duration-Spells :
      (low high : ℕ) (field : String) (o : Option ℤ) {t : String}
      → planned_duration go low high field o ≡ inr t
      → Spells low high t
  unfolding Spells
  planned_duration-Spells low high field none h = absurd (cc h)
  planned_duration-Spells low high field (some d) h =
      let (a, b) = require-inr (in_range low high d) _ _ h in
      (d, in_range-Within low high d a, ground arith)

  validate_planned_duration-Spells :
      (value : String) (low high : ℕ) (field : String) {t : String}
      → validate_planned_duration go value low high field ≡ inr t
      → Spells low high t
  unfolding validate_planned_duration
  validate_planned_duration-Spells value low high field h =
      planned_duration-Spells low high field (go.parse_duration (go.trim value)) h

  unfoldable pub TimelyRules : SupervisionPlanRules → Type 0
  TimelyRules r =
      Spells (15 * second) (30 * minute) r.idle_timeout
      × Spells (5 * minute) (24 * hour) r.hard_timeout
      × Spells (5 * minute) (24 * hour) r.waiting_timeout

  with_timeouts-TimelyRules :
      (r : SupervisionPlanRules) (a b c : PlanError ⊎ String) {x : SupervisionPlanRules}
      → ((t : String) → a ≡ inr t → Spells (15 * second) (30 * minute) t)
      → ((t : String) → b ≡ inr t → Spells (5 * minute) (24 * hour) t)
      → ((t : String) → c ≡ inr t → Spells (5 * minute) (24 * hour) t)
      → with_timeouts go r a b c ≡ inr x
      → TimelyRules x
        × (x.max_nudges ≡ r.max_nudges)
        × (x.max_retries ≡ r.max_retries)
        × (x.max_test_repairs ≡ r.max_test_repairs)
  unfolding TimelyRules
  with_timeouts-TimelyRules r (inl e) b c p q s h = absurd (cc h)
  with_timeouts-TimelyRules r (inr i) (inl e) c p q s h = absurd (cc h)
  with_timeouts-TimelyRules r (inr i) (inr j) (inl e) p q s h = absurd (cc h)
  with_timeouts-TimelyRules r (inr i) (inr j) (inr k) {x} p q s h =
      let y = p _ refl in let z = q _ refl in let w = s _ refl in ground arith

  -- The program that the first value names is none of the shells.
  unfoldable pub NoShell : List String → Type 0
  NoShell [] = Unit
  NoShell (v ∷ vs) =
      All (λ shell. go.to_lower (go.base v) ≢ shell)
        ("sh" ∷ "bash" ∷ "zsh" ∷ "fish" ∷ "cmd" ∷ "cmd.exe" ∷ "powershell" ∷ "pwsh" ∷ [])

  any-All : (x : String) (ys : List String) → any (λ y. str_eq x y) ys ≡ false → All (λ y. x ≢ y) ys
  any-All x [] h = tt
  any-All x (y ∷ ys) h = elim (Bool-cases (str_eq x y)) [
    | inl e ↦ absurd (cc (rw e at h))
    | inr n ↦ (λ q. false≢true (sym n ∙ (eq_iff x y).1 q), any-All x ys (rw n at h))
  ]

  runs_shell-NoShell : (argv : List String) → runs_shell go argv ≡ false → NoShell argv
  unfolding runs_shell NoShell
  runs_shell-NoShell [] h = tt
  runs_shell-NoShell (v ∷ vs) h = any-All (go.to_lower (go.base v)) (shells go) h

  -- A command that may be suggested.
  unfoldable pub Suggestible : Option SupervisionPlanCommand → Type 0
  Suggestible none = Unit
  Suggestible (some c) =
      (is_none_of c.argv ≡ false)
      × (length c.argv ≤ 16)
      × NoShell c.argv
      × Spells (10 * second) (30 * minute) c.timeout
      × (str_eq c.purpose "" ≡ false)

  trimmed_argv-length :
      (i : ℕ) (vs : List String) {ws : List String}
      → trimmed_argv go i vs ≡ inr ws
      → (length ws ≡ length vs) × (is_none_of ws ≡ is_none_of vs)
  unfolding trimmed_argv
  trimmed_argv-length i [] h = ground arith
  trimmed_argv-length i (v ∷ vs) {ws} h =
      let (us, a, b) =
        checked_argument (not (bad_argument go (go.trim v))) (argument_invalid i) (go.trim v)
          (trimmed_argv go (i + 1) vs) h in
      let (c, d) = trimmed_argv-length (i + 1) vs a in
      (ap length b ∙ ap (λ n. suc n) c, ap is_none_of b)

  checked_command-Suggestible :
      (c : SupervisionPlanCommand) (a : PlanError ⊎ List String) (t : PlanError ⊎ String)
      {x : SupervisionPlanCommand}
      → ((ws : List String)
          → a ≡ inr ws
          → (length ws ≡ length c.argv) × (is_none_of ws ≡ is_none_of c.argv))
      → ((u : String) → t ≡ inr u → Spells (10 * second) (30 * minute) u)
      → checked_command go c a t ≡ inr x
      → Suggestible (some x)
  unfolding Suggestible
  checked_command-Suggestible c (inl e) t p q h = absurd (ground arith)
  checked_command-Suggestible c (inr ws) (inl e) p q h = absurd (ground arith)
  checked_command-Suggestible c (inr ws) (inr u) {x} p q h =
      let (y, z) = p _ refl in
      let w = q _ refl in let n = runs_shell-NoShell ws (ground arith) in ground arith

  nothing_suggested : Suggestible none
  unfolding Suggestible
  nothing_suggested = tt

  some_command :
      (m : PlanError ⊎ SupervisionPlanCommand) {x : Option SupervisionPlanCommand}
      → ((d : SupervisionPlanCommand) → m ≡ inr d → Suggestible (some d))
      → and_then m (λ d. inr (some d)) ≡ inr x
      → Suggestible x
  some_command (inl e) f h = absurd (cc h)
  some_command (inr d) f h = let y = f d refl in ground arith

  planned_command-Suggestible :
      (o : Option SupervisionPlanCommand) {x : Option SupervisionPlanCommand}
      → planned_command go o ≡ inr x
      → Suggestible x
  unfolding validate_planned_command
  planned_command-Suggestible none h = let y = nothing_suggested in ground arith
  planned_command-Suggestible (some c) h =
      some_command (validate_planned_command go c)
        (λ d e.
          checked_command-Suggestible c (trimmed_argv go 0 c.argv)
            (validate_planned_duration go c.timeout (10 * second) (30 * minute)
              "verification command timeout")
            (λ ws i. trimmed_argv-length 0 c.argv i)
            (λ t i.
              validate_planned_duration-Spells c.timeout (10 * second) (30 * minute)
                "verification command timeout" i)
            e)
        h

  -- A plan that can be put to the operator.
  unfoldable pub Presentable : SupervisionPlan → Type 0
  Presentable p =
      (str_eq p.summary "" ≡ false)
      × TimelyRules p.rules
      × Within 0 5 p.rules.max_nudges
      × Within 0 5 p.rules.max_retries
      × Within 0 5 p.rules.max_test_repairs
      × Within 0 5 p.semantic.max_redirects
      × Within 0 5 p.semantic.max_escalations
      × ((p.semantic.final_review ≡ false) ⊎ (is_none_of p.semantic.criteria ≡ false))
      × ((p.verification.require_changes ≡ false) ⊎ (p.verification.workspace ≡ true))
      × Suggestible p.verification.command

  counters_in_range-Within :
      (p : SupervisionPlan)
      → counters_in_range go p ≡ true
      → Within 0 5 p.rules.max_nudges
        × Within 0 5 p.rules.max_retries
        × Within 0 5 p.rules.max_test_repairs
        × Within 0 5 p.semantic.max_redirects
        × Within 0 5 p.semantic.max_escalations
  counters_in_range-Within p h = (
    in_range-Within 0 5 p.rules.max_nudges (ground arith),
    in_range-Within 0 5 p.rules.max_retries (ground arith),
    in_range-Within 0 5 p.rules.max_test_repairs (ground arith),
    in_range-Within 0 5 p.semantic.max_redirects (ground arith),
    in_range-Within 0 5 p.semantic.max_escalations (ground arith),
  )

  checked_plan-Presentable :
      (p : SupervisionPlan) (summary : String) (criteria : List String)
      (a : PlanError ⊎ SupervisionPlanRules) (b : PlanError ⊎ Option SupervisionPlanCommand)
      {x : SupervisionPlan}
      → ((r : SupervisionPlanRules)
          → a ≡ inr r
          → TimelyRules r
            × (r.max_nudges ≡ p.rules.max_nudges)
            × (r.max_retries ≡ p.rules.max_retries)
            × (r.max_test_repairs ≡ p.rules.max_test_repairs))
      → ((c : Option SupervisionPlanCommand) → b ≡ inr c → Suggestible c)
      → checked_plan go p summary criteria a b ≡ inr x
      → Presentable x
  unfolding Presentable
  checked_plan-Presentable p summary criteria (inl e) b f g h = absurd (ground arith)
  checked_plan-Presentable p summary criteria (inr r) (inl e) f g h = absurd (ground arith)
  checked_plan-Presentable p summary criteria (inr r) (inr c) {x} f g h =
      let (t, n, m, k) = f _ refl in
      let s = g _ refl in let w = counters_in_range-Within p (ground arith) in ground arith

  -- A plan that is let through has a summary, the three timeouts and the five budgets within their bounds, a
  -- criterion where it asks for a final review, a workspace check where it requires changes, and a command only
  -- of 1 to 16 values that is not a shell, with a timeout within its bounds and a purpose.
  pub normalize_supervision_plan-Presentable :
      (p : SupervisionPlan) {x : SupervisionPlan}
      → normalize_supervision_plan go p ≡ inr x
      → Presentable x
  unfolding normalize_supervision_plan
  normalize_supervision_plan-Presentable p h =
      checked_plan-Presentable p (bounded_text go.trim p.summary max_review_field_runes)
        (bounded_review_list go.trim p.semantic.criteria) (planned_rules go p.rules)
        (planned_command go p.verification.command)
        (λ r e.
          with_timeouts-TimelyRules p.rules
            (validate_planned_duration go p.rules.idle_timeout (15 * second) (30 * minute)
              "idle_timeout")
            (validate_planned_duration go p.rules.hard_timeout (5 * minute) (24 * hour)
              "hard_timeout")
            (validate_planned_duration go p.rules.waiting_timeout (5 * minute) (24 * hour)
              "waiting_timeout")
            (λ t i.
              validate_planned_duration-Spells p.rules.idle_timeout (15 * second) (30 * minute)
                "idle_timeout" i)
            (λ t i.
              validate_planned_duration-Spells p.rules.hard_timeout (5 * minute) (24 * hour)
                "hard_timeout" i)
            (λ t i.
              validate_planned_duration-Spells p.rules.waiting_timeout (5 * minute) (24 * hour)
                "waiting_timeout" i)
            e)
        (λ c e. planned_command-Suggestible p.verification.command e) h
