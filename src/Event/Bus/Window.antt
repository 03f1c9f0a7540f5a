-- ===== src/Event/Bus/Window.antt =====
-- The replay window of internal/event/bus.go stays within its limits under every operation.
use cyber_foreman.Prelude.{
  ℕ, ◌+◌, ◌-◌, ◌≤◌, String, str_eq, ◌≡◌, refl, ap, sym, ◌∙◌, map, ◌⊎◌, inl, inr, ◌&&◌, ◌||◌, List,
  [], ◌∷◌, ◌++◌, Option, none, some, ltb, length, arith, Bool-cases, or_false, lookup,
}
use mathlib.Core.List.{map-append}
use cyber_foreman.Event.{Event}
use cyber_foreman.Event.Bus.Defs.{
  Env, Bus, new_bus, trim, compact_event, record_history, publish_checked, publish_to, publish,
  subscribe, unsubscribe, without_task, forget_task, remember_task, subscribe_since,
  publish_journaled, stamp, replay, subscribed,
}

abbrev pub sum : List ℕ → ℕ
sum [] = 0
sum (n ∷ ns) = n + sum ns

sum-append : (xs ys : List ℕ) → sum (xs ++ ys) ≡ sum xs + sum ys
sum-append [] ys = omega arith
sum-append (x ∷ xs) ys = omega (arith, sum-append xs ys)

-- The window: its events with the size of each, and the bytes that they take together.
pub record IsWindow (size : Event → ℕ) (limit most : ℕ) (es : List Event) (ns : List ℕ) (bytes : ℕ)
    : Type 0 where
  pub sized : ns ≡ map size es
  pub counted : bytes ≡ sum (map size es)
  pub within : length es ≤ limit
  pub bounded : (bytes ≤ most) ⊎ (length es ≤ 1)

length-map : (f : Event → ℕ) (es : List Event) → length es ≡ length (map f es)
length-map f [] = refl
length-map f (e ∷ es) = omega (arith, length-map f es)

-- There are as many sizes as events.
pub aligned :
    {size : Event → ℕ} {limit most : ℕ} {es : List Event} {ns : List ℕ} {bytes : ℕ}
    → IsWindow size limit most es ns bytes
    → length es ≡ length ns
aligned {size} {es = es} w = length-map size es ∙ ap length (sym w.sized)

trim-IsWindow :
    (size : Event → ℕ) (limit most : ℕ) (es : List Event) (bytes : ℕ)
    → bytes ≡ sum (map size es)
    → let t = trim limit most es (map size es) bytes in IsWindow size limit most t.0 t.1 t.2
unfolding trim
trim-IsWindow size limit most [] bytes c = record {
  sized = refl;
  counted = c;
  within = ground arith;
  bounded = inr (ground arith);
}
trim-IsWindow size limit most (e ∷ es) bytes c =
    elim (Bool-cases (ltb limit (length (e ∷ es)) || (ltb most bytes && ltb 1 (length (e ∷ es))))) [
      | inl t ↦ rw t (trim-IsWindow size limit most es (bytes - size e) (omega arith))
      | inr f ↦
          rw f (record { sized = refl; counted = c; within = ground arith; bounded = ground arith })
    ]

-- What `trim` keeps is the end of what it is given.
pub trim_suffix :
    (limit most : ℕ) (es : List Event) (ns : List ℕ) (bytes : ℕ)
    → (pre : List Event) × (es ≡ pre ++ (trim limit most es ns bytes).0)
unfolding trim
trim_suffix limit most [] [] bytes = ([], refl)
trim_suffix limit most [] (n ∷ ns) bytes = ([], refl)
trim_suffix limit most (e ∷ es) [] bytes = ([], refl)
trim_suffix limit most (e ∷ es) (n ∷ ns) bytes =
    elim (Bool-cases (ltb limit (length (e ∷ es)) || (ltb most bytes && ltb 1 (length (e ∷ es))))) [
      | inl t ↦
          let (pre, h) = trim_suffix limit most es ns (bytes - n) in
          (e ∷ pre, rw t (ap (λ l. e ∷ l) h))
      | inr f ↦ ([], rw f refl)
    ]

without_task_lem :
    (size : Event → ℕ) (t : String) (es : List Event)
    → let r = without_task t es (map size es) in
      (r.1 ≡ map size r.0)
      × (r.2 ≡ sum (map size r.0))
      × (length r.0 ≤ length es)
      × (r.2 ≤ sum (map size es))
unfolding without_task
without_task_lem size t [] = (refl, omega arith, omega arith, omega arith)
without_task_lem size t (e ∷ es) =
    let (a, b, c, d) = without_task_lem size t es in
    elim (Bool-cases (str_eq e.task_id t)) [
      | inl y ↦ rw y (a, b, omega arith, omega arith)
      | inr y ↦ rw y (ap (λ l. size e ∷ l) a, omega arith, omega arith, omega arith)
    ]

abbrev pub IsValid : {J : Type 0} → Env J → Bus J → Type 0
IsValid env b =
    IsWindow env.event_size b.limit b.max_history_bytes b.history b.history_sizes b.history_bytes

module _ {J : Type 0} (env : Env J) where
  record_history-IsValid :
      (e : Event) (b : Bus J) → IsValid env b → IsValid env (record_history env e b)
  unfolding record_history
  record_history-IsValid e b v =
      let es = b.history ++ (compact_event env e ∷ []) in
      let bytes = b.history_bytes + env.event_size (compact_event env e) in
      let sizes : b.history_sizes ++ (env.event_size (compact_event env e) ∷ [])
          ≡ map env.event_size es =
        ap (λ l. l ++ (env.event_size (compact_event env e) ∷ [])) v.sized
        ∙ sym (map-append env.event_size b.history (compact_event env e ∷ [])) in
      rw sizes (
        trim-IsWindow env.event_size b.limit b.max_history_bytes es bytes (
          omega (
            arith,
            ap sum (map-append env.event_size b.history (compact_event env e ∷ [])),
            sum-append (map env.event_size b.history) (env.event_size (compact_event env e) ∷ []),
            v.counted,
          )))

  publish_to-IsValid :
      (j : Option J) (e : Event) (b : Bus J) → IsValid env b → IsValid env (publish_to env j e b).1
  unfolding publish_to
  publish_to-IsValid none e b v =
      record_history-IsValid (stamp (b.seq + 1) e) (record b { seq = b.seq + 1 }) v
  publish_to-IsValid (some j) e b v = journaled (env.append_event e j)
    where
      journaled : (r : (String ⊎ Event) × J) → IsValid env (publish_journaled env b r).1
      journaled (inl x, k) = v
      journaled (inr p, k) =
          record_history-IsValid p (record b { journal = some k; seq = p.sequence }) v

  publish-IsValid : (e : Event) (b : Bus J) → IsValid env b → IsValid env (publish env e b)
  unfolding publish_checked
  publish-IsValid e b v = elim (Bool-cases (or_false (lookup e.task_id b.forgotten))) [
    | inl f ↦ rw (f, publish) v
    | inr f ↦ rw (f, publish) (publish_to-IsValid b.journal (compact_event env e) b v)
  ]

  subscribe_since-IsValid :
      (after buffer : ℕ) (task : String) (b : Bus J)
      → IsValid env b
      → IsValid env (subscribe_since env after buffer task b).1
  unfolding subscribe_since
  subscribe_since-IsValid after buffer task b v =
      replayed (replay env b.journal after task b.history)
    where
      replayed : (r : Option (List Event)) → IsValid env (subscribed after buffer b r).1
      replayed none = v
      replayed (some es) = v

-- `ForgetTask` drops events and the bytes that they took.
pub forget_task-IsValid :
    {J : Type 0} (env : Env J) (t : String) (b : Bus J)
    → IsValid env b
    → IsValid env (forget_task t b)
unfolding forget_task
forget_task-IsValid env t b v =
    let (x, y, z, u) = without_task_lem env.event_size t b.history in
    rw v.sized (record {
      sized = x;
      counted = y;
      within = omega (arith, z, v.within);
      bounded = elim v.bounded [
        | inl i ↦ inl (omega (arith, i, u, v.counted))
        | inr i ↦ inr (omega (arith, i, z))
      ];
    })

-- The calls that change a bus.
pub data Call : Type 0 where
  publishing : Event → Call
  subscribing : ℕ → Call
  unsubscribing : ℕ → Call
  forgetting : String → Call
  remembering : String → Call
  following : ℕ → ℕ → String → Call

module _ {J : Type 0} (env : Env J) where
  unfoldable pub call : Call → Bus J → Bus J
  call (publishing e) b = publish env e b
  call (subscribing n) b = (subscribe n b).1
  call (unsubscribing i) b = unsubscribe i b
  call (forgetting t) b = forget_task t b
  call (remembering t) b = remember_task t b
  call (following after n t) b = (subscribe_since env after n t b).1

  unfoldable pub calls : List Call → Bus J → Bus J
  calls [] b = b
  calls (c ∷ cs) b = calls cs (call c b)

  pub call-IsValid : (c : Call) (b : Bus J) → IsValid env b → IsValid env (call c b)
  unfolding call subscribe unsubscribe remember_task
  call-IsValid (publishing e) b v = publish-IsValid env e b v
  call-IsValid (subscribing n) b v = v
  call-IsValid (unsubscribing i) b v = v
  call-IsValid (forgetting t) b v = forget_task-IsValid env t b v
  call-IsValid (remembering t) b v = v
  call-IsValid (following after n t) b v = subscribe_since-IsValid env after n t b v

  calls-IsValid : (cs : List Call) (b : Bus J) → IsValid env b → IsValid env (calls cs b)
  unfolding calls
  calls-IsValid [] b v = v
  calls-IsValid (c ∷ cs) b v = calls-IsValid cs (call c b) (call-IsValid c b v)

  -- After any calls on a new bus, with a journal or without, the size that is kept for each event of
  -- the replay window is the length of its JSON, the bytes counted are the sum of these lengths, there
  -- are no more events than the limit, and no more bytes than allowed unless a single event is kept.
  pub window_bounded :
      (limit : ℕ) (journal : Option J) (cs : List Call)
      → IsValid env (calls cs (new_bus limit journal))
  window_bounded limit journal cs =
      calls-IsValid cs (new_bus limit journal) (unfold new_bus in ground arith)
