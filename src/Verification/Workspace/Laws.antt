-- ===== src/Verification/Workspace/Laws.antt =====
-- What the comparison and the verdict of internal/verification/workspace.go mean.
use cyber_foreman.Prelude.{
  String, str_eq, ◌≡◌, ◌≢◌, ◌↔◌, refl, sym, ap, subst, ◌∙◌, Bool, true, false, not, ◌&&◌, ◌||◌,
  false≢true, List, [], ◌∷◌, ◌++◌, Option, none, some, any, keep, All, any-append, if◌then◌else◌,
  eq_iff, eq_refl, str_eq_cases, Map, lookup, Option-cases, ◌⊎◌, inl, inr, arith, Bool-cases,
}
use cyber_foreman.Verification.Workspace.{
  FileState, WorkspacePolicy, WorkspaceBaseline, DiffState, Checkout, same_state, differs,
  changed_names, distinct, all_changed, matches_any, judge, normalize_workspace_policy, is_none_of,
  violations_of,
}

-- Every entry of the list is the one that a lookup finds, as in a map.
abbrev pub IsMap : Map FileState → Type 0
IsMap m = All (λ e. lookup e.0 m ≡ some e.1) m

same_state_refl : (a : FileState) → same_state a a ≡ true
unfolding same_state
same_state_refl a = rw (eq_refl a.digest, eq_refl a.kind) (ground arith)

same_state-eq : (a b : FileState) → same_state a b ≡ true → a ≡ b
unfolding same_state
same_state-eq a b h =
    let m : a.mode ≡ b.mode = ground arith in
    let z : a.size ≡ b.size = ground arith in
    let d : str_eq a.digest b.digest ≡ true = ground arith in
    let k : str_eq a.kind b.kind ≡ true = ground arith in
    cc (m, z, (eq_iff a.digest b.digest).0 d, (eq_iff a.kind b.kind).0 k)

differs_iff : (o : Option FileState) (s : FileState) → (differs o s ≡ true) ↔ (o ≢ some s)
unfolding differs
differs_iff none s = (λ h e. absurd (cc e), λ n. refl)
differs_iff (some c) s = (
  λ h e.
      let q : c ≡ s = cc e in
      let y : same_state c s ≡ true = subst (λ x. same_state c x ≡ true) q (same_state_refl c) in
      absurd (false≢true (rw y at h)),
  λ n. elim (Bool-cases (same_state c s)) [
    | inl y ↦ absurd (n (ap some (same_state-eq c s y)))
    | inr f ↦ rw f refl
  ],
)

found_changed :
    (name : String) (m other : Map FileState) {s : FileState}
    → lookup name m ≡ some s
    → differs (lookup name other) s ≡ true
    → any (str_eq name) (changed_names m other) ≡ true
unfolding changed_names lookup
found_changed name [] other {s} f d = absurd (cc f)
found_changed name ((k, v) ∷ rest) other {s} f d = elim (str_eq_cases k name) [
  | inl q ↦
      let same : v ≡ s = cc (rw (lookup, (eq_iff k name).1 q) at f) in
      let y : differs (lookup k other) v ≡ true = cc (d, q, same) in
      rw (y, (eq_iff name k).1 (sym q)) refl
  | inr n ↦
      let found = found_changed name rest other (rw (lookup, n) at f) d in
      elim (Bool-cases (differs (lookup k other) v)) [
        | inl y ↦ rw (y, found) (ground arith)
        | inr z ↦ rw z found
      ]
]

changed_found :
    (name : String) (m whole other : Map FileState)
    → All (λ e. lookup e.0 whole ≡ some e.1) m
    → any (str_eq name) (changed_names m other) ≡ true
    → (s : FileState) × (lookup name whole ≡ some s) × (differs (lookup name other) s ≡ true)
unfolding changed_names
changed_found name [] whole other h e = absurd (false≢true e)
changed_found name ((k, v) ∷ rest) whole other (g, h) e =
    elim (Bool-cases (differs (lookup k other) v)) [
      | inl y ↦ elim (str_eq_cases name k) [
        | inl q ↦ (v, ap (λ x. lookup x whole) q ∙ g, cc (y, q))
        | inr n ↦ changed_found name rest whole other h (rw (y, n) at e)
      ]
      | inr z ↦ changed_found name rest whole other h (rw z at e)
    ]

any-distinct :
    (name : String) (xs : List String) → any (str_eq name) (distinct xs) ≡ any (str_eq name) xs
unfolding distinct
any-distinct name [] = refl
any-distinct name (x ∷ xs) = elim (Bool-cases (any (str_eq x) (distinct xs))) [
  | inl y ↦ rw y (elim (str_eq_cases name x) [
    | inl q ↦ rw ((eq_iff name x).1 q) (ap (λ z. any (str_eq z) (distinct xs)) q ∙ y)
    | inr n ↦ rw n (any-distinct name xs)
  ])
  | inr f ↦ rw f (ap (λ b. if str_eq name x then true else b) (any-distinct name xs))
]

-- Between two maps of files, the names reported as changed are exactly those whose state in one is not
-- their state in the other: created, deleted and modified files, and no others.
pub all_changed_iff :
    (before after : Map FileState) (name : String)
    → IsMap before
    → IsMap after
    → (any (str_eq name) (all_changed before after) ≡ true)
      ↔ (lookup name before ≢ lookup name after)
unfolding all_changed
all_changed_iff before after name u v = (reported, changed)
  where
    first : List String
    first = changed_names before after

    second : List String
    second = changed_names after before

    both :
        any (str_eq name) (distinct (first ++ second))
        ≡ (any (str_eq name) first || any (str_eq name) second)
    both = any-distinct name (first ++ second) ∙ any-append (str_eq name) first second

    reported :
        any (str_eq name) (distinct (first ++ second)) ≡ true
        → lookup name before ≢ lookup name after
    reported h e = elim (Bool-cases (any (str_eq name) first)) [
      | inl y ↦
          let (s, f, d) = changed_found name before before after u y in
          (differs_iff (lookup name after) s).0 d (sym e ∙ f)
      | inr n ↦
          let y : any (str_eq name) second ≡ true = rw n at (sym both ∙ h) in
          let (s, f, d) = changed_found name after after before v y in
          (differs_iff (lookup name before) s).0 d (e ∙ f)
    ]

    changed :
        lookup name before ≢ lookup name after
        → any (str_eq name) (distinct (first ++ second)) ≡ true
    changed n = both ∙ elim (Option-cases (lookup name before)) [
      | inr (s, f) ↦
          rw
            (found_changed name before after f
              ((differs_iff (lookup name after) s).1 (λ e. n (f ∙ sym e))))
            refl
      | inl f ↦ elim (Option-cases (lookup name after)) [
        | inl g ↦ absurd (n (f ∙ sym g))
        | inr (t, g) ↦
            let y =
              found_changed name after before g
                ((differs_iff (lookup name before) t).1 (λ e. absurd (cc (sym f ∙ e)))) in
            rw y (ground arith)
      ]
    ]

violations_none :
    (head : Bool) (sensitive : List String) (worse missing : Bool)
    → is_none_of (violations_of head sensitive worse missing)
      ≡ (not (head || not (is_none_of sensitive)) && (not worse && not missing))
unfolding violations_of
violations_none true xs w m = refl
violations_none false [] true m = refl
violations_none false [] false true = refl
violations_none false [] false false = refl
violations_none false (x ∷ xs) w m = refl

passed_parts :
    (head clean worse missing : Bool)
    → (not (head || not clean) && (not worse && not missing)) ≡ true
    → (head ≡ false) × (clean ≡ true) × (worse ≡ false) × (missing ≡ false)
passed_parts true clean worse missing h = absurd (false≢true h)
passed_parts false false worse missing h = absurd (false≢true h)
passed_parts false true true missing h = absurd (false≢true h)
passed_parts false true false true h = absurd (false≢true h)
passed_parts false true false false h = (refl, refl, refl, refl)

both_false : (x y : Bool) → (x && y) ≡ false → (x ≡ false) ⊎ (y ≡ false)
both_false true y h = inr h
both_false false y h = inl refl

not-false : (x : Bool) → not x ≡ false → x ≡ true
not-false true h = refl
not-false false h = absurd (false≢true (sym h))

is_none_of-nil : (xs : List String) → is_none_of xs ≡ true → xs ≡ []
is_none_of-nil [] h = refl
is_none_of-nil (x ∷ xs) h = absurd (false≢true h)

module _ {W : Type 0} (ck : Checkout W) where
  -- Sorting neither adds nor removes texts, so far as that a list is empty or not: then a workspace passes
  -- exactly if no violation is reported.
  pub judge_passed_iff :
      (b : WorkspaceBaseline) (p : WorkspacePolicy) (c : WorkspaceBaseline) (d : DiffState)
      → ((xs : List String) → is_none_of (ck.sort xs) ≡ is_none_of xs)
      → (judge ck b p c d).passed ≡ is_none_of (judge ck b p c d).violations
  unfolding judge
  judge_passed_iff b p c d law = sym (law _ ∙ violations_none _ _ _ _)

  -- What it means that a workspace passes: the head is the one of the baseline, no changed file is sensitive,
  -- the check of the diff succeeds or says what it said before, and there are changes where they are
  -- required.
  pub judge_passed :
      (b : WorkspaceBaseline) (p : WorkspacePolicy) (c : WorkspaceBaseline) (d : DiffState)
      → (judge ck b p c d).passed ≡ true
      → (c.head ≡ b.head)
        × (keep
              (λ name. matches_any ck name (normalize_workspace_policy p).sensitive_paths)
              (judge ck b p c d).changed_files
            ≡ [])
        × ((d.failed ≡ false) ⊎ (d.digest ≡ b.diff_check_digest))
        × ((p.require_changes ≡ false) ⊎ (is_none_of (judge ck b p c d).changed_files ≡ false))
  unfolding judge normalize_workspace_policy
  judge_passed b p c d h =
      let (a, e, w, m) = passed_parts _ _ _ _ h in
      (
        (eq_iff c.head b.head).0 (not-false _ a),
        is_none_of-nil _ e,
        elim (both_false _ _ w) [
          | inl f ↦ inl f
          | inr f ↦ inr ((eq_iff d.digest b.diff_check_digest).0 (not-false _ f))
        ],
        both_false _ _ m,
      )
