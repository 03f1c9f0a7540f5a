-- ===== src/Event/Bus/Rising.antt =====
-- Events in the order of their sequence numbers, for the replay of internal/event/bus.go.
use cyber_foreman.Prelude.{
  ℕ, ◌+◌, ◌≤◌, ◌<◌, String, str_eq, ◌≡◌, refl, ap, inl, inr, Bool, false, not, List, [], ◌∷◌, ◌++◌,
  length, keep, arith, Bool-cases,
}
use cyber_foreman.Event.{Event}
use cyber_foreman.Event.Bus.Defs.{without_task, wanted}

-- The sequence numbers rise from above `lo` to at most `hi`.
abbrev pub Rising : ℕ → List Event → ℕ → Type 0
Rising lo [] hi = lo ≤ hi
Rising lo (e ∷ es) hi = (lo < e.sequence) × Rising e.sequence es hi

abbrev pub other_task : String → Event → Bool
other_task t e = not (str_eq e.task_id t)

pub Rising-snoc :
    (lo hi : ℕ) (es : List Event) (e : Event)
    → Rising lo es hi
    → hi < e.sequence
    → Rising lo (es ++ (e ∷ [])) e.sequence
Rising-snoc lo hi [] e r h = omega arith
Rising-snoc lo hi (x ∷ es) e r h = (r.0, Rising-snoc x.sequence hi es e r.1 h)

Rising-lower : (lo lo' hi : ℕ) (es : List Event) → lo ≤ lo' → Rising lo' es hi → Rising lo es hi
Rising-lower lo lo' hi [] l r = omega arith
Rising-lower lo lo' hi (e ∷ es) l r = (omega arith, r.1)

pub Rising-keep :
    (p : Event → Bool) (lo hi : ℕ) (es : List Event) → Rising lo es hi → Rising lo (keep p es) hi
Rising-keep p lo hi [] r = r
Rising-keep p lo hi (e ∷ es) r = elim (Bool-cases (p e)) [
  | inl y ↦ rw y (r.0, Rising-keep p e.sequence hi es r.1)
  | inr n ↦
      rw n (
        Rising-lower lo e.sequence hi (keep p es) (omega arith)
          (Rising-keep p e.sequence hi es r.1))
]

pub keep-append :
    (p : Event → Bool) (xs ys : List Event) → keep p (xs ++ ys) ≡ keep p xs ++ keep p ys
keep-append p [] ys = refl
keep-append p (x ∷ xs) ys = elim (Bool-cases (p x)) [
  | inl y ↦ rw y (ap (λ l. x ∷ l) (keep-append p xs ys))
  | inr n ↦ rw n (keep-append p xs ys)
]

pub without_task-keep :
    (t : String) (es : List Event) (ns : List ℕ)
    → length es ≡ length ns
    → (without_task t es ns).0 ≡ keep (other_task t) es
unfolding without_task
without_task-keep t [] [] a = refl
without_task-keep t [] (n ∷ ns) a = absurd (omega arith)
without_task-keep t (e ∷ es) [] a = absurd (omega arith)
without_task-keep t (e ∷ es) (n ∷ ns) a = elim (Bool-cases (str_eq e.task_id t)) [
  | inl y ↦ rw y (without_task-keep t es ns (omega arith))
  | inr y ↦ rw y (ap (λ l. e ∷ l) (without_task-keep t es ns (omega arith)))
]

pub Rising-later :
    (lo hi : ℕ) (pre es : List Event) (e : Event) → Rising lo (pre ++ (e ∷ es)) hi → lo < e.sequence
Rising-later lo hi [] es e r = r.0
Rising-later lo hi (x ∷ pre) es e r = omega (arith, Rising-later x.sequence hi pre es e r.1)

-- Before an event whose sequence number is at most the next one asked for, nothing is wanted.
pub keep-earlier :
    (after : ℕ) (task : String) (lo hi : ℕ) (pre es : List Event) (e : Event)
    → Rising lo (pre ++ (e ∷ es)) hi
    → e.sequence ≤ after + 1
    → keep (wanted after task) pre ≡ []
keep-earlier after task lo hi [] es e r h = refl
keep-earlier after task lo hi (x ∷ pre) es e r h =
    let l = Rising-later x.sequence hi pre es e r.1 in
    let f : wanted after task x ≡ false = ground arith in
    rw f (keep-earlier after task x.sequence hi pre es e r.1 h)
