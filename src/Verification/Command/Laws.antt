-- ===== src/Verification/Command/Laws.antt =====
-- What a run of the verification commands says.
use cyber_foreman.Prelude.{
  ℕ, zero, suc, String, ◌≡◌, refl, sym, ◌∙◌, ap, arith, All, eq_iff, eq_refl, false≢true, true,
  false, List, [], ◌∷◌, ◌++◌, map, ◌⊎◌, inl, inr, Bool-cases,
}
use cyber_foreman.Domain.{ℤ, pos, negsuc, is_zero_ℤ}
use cyber_foreman.App.Types.{Command}
use cyber_foreman.Verification.Command.{
  System, CommandVerifier, CommandResult, TestResult, succeeded, run_argv, run_one, run, add_result,
}

-- A command that ran to its end within its time, without an error, and exited with 0.
pub record Succeeded (r : CommandResult) : Type 0 where
  pub exited : r.exit_code ≡ pos 0
  pub in_time : r.timed_out ≡ false
  pub no_error : r.error ≡ ""

is_zero_ℤ-pos : (n : ℤ) → is_zero_ℤ n ≡ true → n ≡ pos 0
is_zero_ℤ-pos (pos zero) h = refl
is_zero_ℤ-pos (pos (suc n)) h = absurd (false≢true h)
is_zero_ℤ-pos (negsuc n) h = absurd (false≢true h)

succeeded-Succeeded : (r : CommandResult) → succeeded r ≡ true → Succeeded r
unfolding succeeded
succeeded-Succeeded r h = record {
  exited = is_zero_ℤ-pos r.exit_code (ground arith);
  in_time = ground arith;
  no_error = (eq_iff r.error "").0 (ground arith);
}

not-Succeeded : (r : CommandResult) → succeeded r ≡ false → Succeeded r → ⊥
unfolding succeeded
not-Succeeded r h v = false≢true (sym h ∙ rw (v.exited, v.in_time, v.no_error) (eq_refl ""))

abbrev pub ran : List CommandResult → List (List String)
ran rs = map (λ r. r.argv) rs

abbrev pub wanted : List Command → List (List String)
wanted cs = map (λ c. c.argv) cs

-- Every command ran, in order, and succeeded; or the verdict is negative, the last command that ran is the
-- only one that did not succeed, and the commands that ran are the first ones of those wanted.
abbrev pub Verdict : List Command → TestResult → Type 0
Verdict cs t =
    ((t.passed ≡ true) × (ran t.commands ≡ wanted cs) × All Succeeded t.commands)
    ⊎ ((before : List CommandResult) × (last : CommandResult) × (skipped : List (List String))
        × (t.passed ≡ false)
        × (t.commands ≡ before ++ last ∷ [])
        × All Succeeded before
        × (Succeeded last → ⊥)
        × (ran t.commands ++ skipped ≡ wanted cs))

module _ {W : Type 0} (sys : System W) (v : CommandVerifier) (cwd : String) where
  run_argv-argv :
      (argv : List String) (timeout : ℕ) (w : W) → (run_argv sys v cwd argv timeout w).0.argv ≡ argv
  unfolding run_argv
  run_argv-argv [] timeout w = refl
  run_argv-argv (name ∷ args) timeout w = refl

  add_result-Verdict :
      (c : Command) (cs : List Command) (r : CommandResult) (t : TestResult) (w : W)
      → r.argv ≡ c.argv
      → Succeeded r
      → Verdict cs t
      → Verdict (c ∷ cs) (add_result sys r (t, w)).0
  add_result-Verdict c cs r t w a y (inl (p, q, e)) = inl (p, cc (a, q), (y, e))
  add_result-Verdict c cs r t w a y (inr (before, last, skipped, p, q, e, n, m)) =
      inr (r ∷ before, last, skipped, p, ap (λ l. r ∷ l) q, (y, e), n, cc (a, m))

  -- Whatever commands are run: either the verdict is positive, all of them ran, in order, and each exited
  -- with 0 within its time and without an error; or the verdict is negative, the commands that ran are the
  -- first ones of those wanted, the last of them exited with another code, ran out of time or had an error,
  -- and the ones before it did not.
  pub run-Verdict : (cs : List Command) (w : W) → Verdict cs (run sys v cwd cs w).0
  unfolding run run_one
  run-Verdict [] w = inl (refl, refl, tt)
  run-Verdict (c ∷ cs) w =
      let r = (run_one sys v cwd c w).0 in
      let w1 = (run_one sys v cwd c w).1 in
      let a = run_argv-argv c.argv c.timeout w in
      elim (Bool-cases (succeeded r)) [
        | inl y ↦ rw y (
            add_result-Verdict c cs r (run sys v cwd cs w1).0 (run sys v cwd cs w1).1 a
              (succeeded-Succeeded r y) (run-Verdict cs w1))
        | inr n ↦
            rw n
              (inr ([], r, wanted cs, refl, refl, tt, not-Succeeded r n, ap (λ l. l ∷ wanted cs) a))
      ]
