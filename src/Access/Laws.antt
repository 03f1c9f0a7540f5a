-- ===== src/Access/Laws.antt =====
-- What a task that internal/access/policy.go authorizes may do.
use cyber_foreman.Prelude.{
  String, ◌≡◌, ◌≢◌, ◌↔◌, refl, sym, Bool, starts_with, ap, ◌∙◌, true, false, false≢true, List, [],
  ◌∷◌, ◌++◌, Option, none, some, any, All, str_eq, eq_iff, eq_refl, ◌⊎◌, inl, inr, Bool-cases,
}
use mathlib.Core.Path.{ap₂}
use cyber_foreman.App.Queue.{TaskAuthorization, is_empty}
use cyber_foreman.Access.{
  AccessPolicy, Files, Refusal, begins, command_allowed, canonical_directory, within_any_root,
  check_verification, located, stays_below, clean_directory, resolved_directory, absolute_directory,
  check_workspace, check_command, first_refusal, authorize_task,
}

-- A command that begins with an entry of the allowlist.
pub data IsAllowed (command : List String) : List (List String) → Type 0 where
  by_entry :
      {entry : List String} {rest : List (List String)} (more : List String)
      → command ≡ entry ++ more
      → IsAllowed command (entry ∷ rest)
  later :
      {entry : List String} {rest : List (List String)}
      → IsAllowed command rest
      → IsAllowed command (entry ∷ rest)

begins_rest :
    (prefix command : List String)
    → begins prefix command ≡ true
    → (more : List String) × (command ≡ prefix ++ more)
unfolding begins
begins_rest [] command h = (command, refl)
begins_rest (p ∷ prefix) [] h = absurd (false≢true h)
begins_rest (p ∷ prefix) (c ∷ command) h = elim (Bool-cases (str_eq c p)) [
  | inl y ↦
      let (more, e) = begins_rest prefix command (rw y at h) in
      (more, ap₂ (λ x xs. x ∷ xs) ((eq_iff c p).0 y) e)
  | inr n ↦ absurd (false≢true (rw n at h))
]

begins_append : (prefix more : List String) → begins prefix (prefix ++ more) ≡ true
unfolding begins
begins_append [] more = refl
begins_append (p ∷ prefix) more = rw (eq_refl p) (begins_append prefix more)

any-IsAllowed :
    (list : List (List String)) (command : List String)
    → any (λ prefix. begins prefix command) list ≡ true
    → IsAllowed command list
any-IsAllowed [] command h = absurd (false≢true h)
any-IsAllowed (entry ∷ rest) command h = elim (Bool-cases (begins entry command)) [
  | inl y ↦ let (more, e) = begins_rest entry command y in by_entry more e
  | inr n ↦ later (any-IsAllowed rest command (rw n at h))
]

IsAllowed-any :
    {command : List String} {list : List (List String)}
    → IsAllowed command list
    → any (λ prefix. begins prefix command) list ≡ true
IsAllowed-any {command} {list = []} h = elim h [ ]
IsAllowed-any {command} {list = entry ∷ rest} (by_entry more e) =
    let y : begins entry command ≡ true = ap (begins entry) e ∙ begins_append entry more in
    rw y refl
IsAllowed-any {command} {list = entry ∷ rest} (later h) = elim (Bool-cases (begins entry command)) [
  | inl y ↦ rw y refl
  | inr n ↦ rw n (IsAllowed-any h)
]

-- A command is allowed exactly if it consists of an entry of the allowlist and further arguments.
pub command_allowed_iff :
    (p : AccessPolicy) (command : List String)
    → (command_allowed p command ≡ true) ↔ IsAllowed command p.command_allowlist
unfolding command_allowed
command_allowed_iff p command = (any-IsAllowed p.command_allowlist command, λ h. IsAllowed-any h)

first_refusal-none : (a b : Option Refusal) → first_refusal a b ≡ none → (a ≡ none) × (b ≡ none)
first_refusal-none none b h = (refl, h)
first_refusal-none (some r) b h = absurd (cc h)

-- A relative path that does not lead out of where it starts: no path that begins with "..".
abbrev pub StaysBelow : String → Type 0
StaysBelow relative = (relative ≡ ".") ⊎ ((relative ≢ "..") × (starts_with relative "../" ≡ false))

-- The path lies in one of the roots, as its relative path from there says.
pub data IsBelow (fs : Files) (path : String) : List String → Type 0 where
  this_root :
      {root : String} {rest : List String} (relative : String)
      → fs.relative root path ≡ some relative
      → StaysBelow relative
      → IsBelow fs path (root ∷ rest)
  other_root :
      {root : String} {rest : List String} → IsBelow fs path rest → IsBelow fs path (root ∷ rest)

-- The named directory, with every link on the way to it resolved.
pub record IsDirectoryAt (fs : Files) (named path : String) : Type 0 where
  pub absolute_path : String
  pub target : String
  pub is_absolute : fs.absolute named ≡ inr absolute_path
  pub resolves : fs.resolve absolute_path ≡ inr target
  pub is_directory : fs.is_directory target ≡ inr true
  pub cleaned : path ≡ fs.clean target

stays_below-StaysBelow :
    (o : Option String)
    → stays_below o ≡ true
    → (relative : String) × (o ≡ some relative) × StaysBelow relative
stays_below-StaysBelow none h = absurd (false≢true h)
stays_below-StaysBelow (some r) h = elim (Bool-cases (str_eq r ".")) [
  | inl y ↦ (r, refl, inl ((eq_iff r ".").0 y))
  | inr n ↦ elim (Bool-cases (str_eq r "..")) [
    | inl y ↦ absurd (cc (rw (n, y) at h))
    | inr m ↦ elim (Bool-cases (starts_with r "../")) [
      | inl y ↦ absurd (cc (rw (n, m, y) at h))
      | inr k ↦ (r, refl, inr (λ e. false≢true (sym m ∙ (eq_iff r "..").1 e), k))
    ]
  ]
]

within_any_root-IsBelow :
    (fs : Files) (path : String) (roots : List String)
    → within_any_root fs path roots ≡ true
    → IsBelow fs path roots
unfolding within_any_root
within_any_root-IsBelow fs path [] h = absurd (false≢true h)
within_any_root-IsBelow fs path (root ∷ roots) h =
    elim (Bool-cases (stays_below (fs.relative root path))) [
      | inl y ↦ let (r, e, b) = stays_below-StaysBelow _ y in this_root r e b
      | inr n ↦ other_root (within_any_root-IsBelow fs path roots (rw n at h))
    ]

canonical_directory-IsDirectoryAt :
    (fs : Files) (named path : String)
    → canonical_directory fs named ≡ inr path
    → IsDirectoryAt fs named path
unfolding canonical_directory
canonical_directory-IsDirectoryAt fs named path h = go (fs.absolute named) refl h
  where
    at_target :
        (a t : String) (r : String ⊎ Bool)
        → fs.absolute named ≡ inr a
        → fs.resolve a ≡ inr t
        → fs.is_directory t ≡ r
        → clean_directory fs t r ≡ inr path
        → IsDirectoryAt fs named path
    at_target a t (inl e) p q d h = absurd (cc h)
    at_target a t (inr false) p q d h = absurd (cc h)
    at_target a t (inr true) p q d h = record {
      absolute_path = a;
      target = t;
      is_absolute = p;
      resolves = q;
      is_directory = d;
      cleaned = cc h;
    }

    at_absolute :
        (a : String) (r : String ⊎ String)
        → fs.absolute named ≡ inr a
        → fs.resolve a ≡ r
        → resolved_directory fs r ≡ inr path
        → IsDirectoryAt fs named path
    at_absolute a (inl e) p q h = absurd (cc h)
    at_absolute a (inr t) p q h = at_target a t (fs.is_directory t) p q refl h

    go :
        (r : String ⊎ String)
        → fs.absolute named ≡ r
        → absolute_directory fs r ≡ inr path
        → IsDirectoryAt fs named path
    go (inl e) p h = absurd (cc h)
    go (inr a) p h = at_absolute a (fs.resolve a) p refl h

-- The workspace named is a directory in one of the policy's roots.
abbrev pub IsWithinRoots : Files → AccessPolicy → String → Type 0
IsWithinRoots fs p named =
    (path : String) × IsDirectoryAt fs named path × IsBelow fs path p.workspace_roots

located-IsWithinRoots :
    (fs : Files) (p : AccessPolicy) (named : String) (r : String ⊎ String)
    → canonical_directory fs named ≡ r
    → located fs p named r ≡ none
    → IsWithinRoots fs p named
located-IsWithinRoots fs p named (inl e) c h = absurd (cc h)
located-IsWithinRoots fs p named (inr path) c h =
    elim (Bool-cases (within_any_root fs path p.workspace_roots)) [
      | inl y ↦ (
        path,
        canonical_directory-IsDirectoryAt fs named path c,
        within_any_root-IsBelow fs path p.workspace_roots y,
      )
      | inr n ↦ absurd (cc (rw n at h))
    ]

check_workspace-none :
    (fs : Files) (p : AccessPolicy) (named : String)
    → check_workspace fs p named ≡ none
    → (p.restrict_workspace ≡ false) ⊎ IsWithinRoots fs p named
unfolding check_workspace
check_workspace-none fs p named h = elim (Bool-cases p.restrict_workspace) [
  | inl y ↦ inr (located-IsWithinRoots fs p named _ refl (rw y at h))
  | inr n ↦ inl n
]

check_command-none :
    (p : AccessPolicy) (command : List String)
    → p.restrict_commands ≡ true
    → check_command p command ≡ none
    → (is_empty command ≡ true) ⊎ IsAllowed command p.command_allowlist
unfolding check_command command_allowed
check_command-none p command r h = elim (Bool-cases (is_empty command)) [
  | inl y ↦ inl y
  | inr n ↦ elim (Bool-cases (command_allowed p command)) [
    | inl a ↦ inr ((command_allowed_iff p command).0 a)
    | inr f ↦ absurd (cc (rw (n, r, f) at h))
  ]
]

check_verification-none :
    (p : AccessPolicy) (cs : List (List String))
    → p.restrict_commands ≡ true
    → check_verification p cs ≡ none
    → All (λ c. IsAllowed c p.command_allowlist) cs
unfolding check_verification command_allowed
check_verification-none p [] r h = tt
check_verification-none p (c ∷ cs) r h = elim (Bool-cases (command_allowed p c)) [
  | inl a ↦ ((command_allowed_iff p c).0 a, check_verification-none p cs r (rw (r, a) at h))
  | inr f ↦ absurd (cc (rw (r, f) at h))
]

-- What it means that a task is authorized: where workspaces are restricted, its absolute path
-- resolves to a directory whose path from one of the roots is "." or leads nowhere above that root; where commands are restricted, its command, if it has one, and all of its
-- verification commands are allowed.
pub authorize_task-IsAllowed :
    (fs : Files) (p : AccessPolicy) (q : TaskAuthorization)
    → authorize_task fs p q ≡ none
    → ((p.restrict_workspace ≡ false) ⊎ IsWithinRoots fs p q.workspace)
      × ((p.restrict_commands ≡ false)
          ⊎ (((is_empty q.command ≡ true) ⊎ IsAllowed q.command p.command_allowlist)
              × All (λ c. IsAllowed c p.command_allowlist) q.verification_commands))
unfolding authorize_task
authorize_task-IsAllowed fs p q h =
    let (w, k) = first_refusal-none (check_workspace fs p q.workspace) _ h in
    let (c, v) = first_refusal-none (check_command p q.command) _ k in
    (
      check_workspace-none fs p q.workspace w,
      elim (Bool-cases p.restrict_commands) [
        | inl r ↦ inr (
          check_command-none p q.command r c,
          check_verification-none p q.verification_commands r v,
        )
        | inr n ↦ inl n
      ],
    )
