-- ===== src/Event/Bus/Streams.antt =====
-- What a subscriber of internal/event/bus.go is handed, and the recent events of a task.
use cyber_foreman.Prelude.{
  if◌then◌else◌, ℕ, zero, suc, ◌==◌, ◌-◌, String, str_eq, ◌≡◌, refl, ap, sym, ◌∙◌, inl, inr, Bool,
  true, false, List, [], ◌∷◌, ◌++◌, Option, none, some, length, keep, take, drop, arith, Bool-cases,
  append_assoc, append-nil, length-append, drop-append,
}
use mathlib.Core.Path.{ap₂}
use mathlib.Core.List.{reverse, reverse-append, reverse-reverse}
use cyber_foreman.Event.{Event}
use cyber_foreman.Event.Bus.Rising.{keep-append}
use cyber_foreman.Event.Bus.Defs.{
  Env, announce, record_history, Bus, Subscriber, has_room, offer, deliver, collect,
  recent_task_events,
}

-- What happens to one subscription: the bus delivers an event, or the consumer takes one.
-- A delivery comes with what the bus is at that time but for the subscription itself.
pub data Turn (J : Type 0) : Type 0 where
  offered : Bus J → Event → Turn J
  received : Turn J

abbrev pub offers : {J : Type 0} → List (Turn J) → List Event
offers [] = []
offers (offered b e ∷ ts) = e ∷ offers ts
offers (received ∷ ts) = offers ts

-- The consumer takes the oldest event, if there is one; the list is what it has taken so far.
abbrev pub receive : Subscriber → List Event → Subscriber × List Event
receive s got = elim s.pending [
  | [] ↦ (s, got)
  | e ∷ es ↦ (record s { pending = es }, got ++ (e ∷ []))
]

-- The subscribers with other ids.
abbrev pub others : ℕ → List Subscriber → List Subscriber
others i [] = []
others i (s ∷ ss) = let rest = others i ss in if s.id == i then rest else s ∷ rest

-- The subscriber with this id.
unfoldable pub with_id : ℕ → List Subscriber → Option Subscriber
with_id i [] = none
with_id i (s ∷ ss) = let rest = with_id i ss in if s.id == i then some s else rest

-- The subscription over the turns; `none` once it is no longer among the bus's subscribers.
unfoldable pub feed :
    {J : Type 0}
    → Env J
    → List (Turn J)
    → Subscriber
    → List Event
    → Option (Subscriber × List Event)
feed env [] s got = some (s, got)
feed env (offered b e ∷ ts) s got =
    elim (with_id s.id (announce env e (record b { subs = s ∷ others s.id b.subs })).subs) [
      | none ↦ none
      | some t ↦ feed env ts t got
    ]
feed env (received ∷ ts) s got = feed env ts (receive s got).0 (receive s got).1

receive-keeps :
    (s : Subscriber) (got : List Event)
    → (receive s got).1 ++ (receive s got).0.pending ≡ got ++ s.pending
receive-keeps s got = go s.pending
  where
    go :
        (p : List Event)
        → (receive (record s { pending = p }) got).1
            ++ (receive (record s { pending = p }) got).0.pending
          ≡ got ++ p
    go [] = refl
    go (e ∷ es) = append_assoc got (e ∷ []) es

others-gone :
    (e : Event) (i : ℕ) (ss : List Subscriber) → with_id i (deliver e (others i ss)) ≡ none
unfolding deliver with_id
others-gone e i [] = refl
others-gone e i (s ∷ ss) = elim (Bool-cases (s.id == i)) [
  | inl y ↦ rw y (others-gone e i ss)
  | inr n ↦ elim (Bool-cases (has_room s)) [
    | inl y ↦ rw (n, y, n) (others-gone e i ss)
    | inr m ↦ rw (n, m) (others-gone e i ss)
  ]
]

module _ {J : Type 0} (env : Env J) where
  abbrev after_delivery : Bus J → Event → Subscriber → Option Subscriber
  after_delivery b e s =
      with_id s.id (announce env e (record b { subs = s ∷ others s.id b.subs })).subs

  delivered :
      (b : Bus J) (e : Event) (s : Subscriber)
      → has_room s ≡ true
      → after_delivery b e s ≡ some (offer e s)
  unfolding announce record_history deliver with_id
  delivered b e s h = let i : (s.id == s.id) ≡ true = ground arith in rw (h, i) refl

  dropped :
      (b : Bus J) (e : Event) (s : Subscriber) → has_room s ≡ false → after_delivery b e s ≡ none
  unfolding announce record_history deliver
  dropped b e s h = rw h (others-gone e s.id b.subs)

  -- A subscription that is still among the bus's subscribers after any deliveries, whoever else is subscribed,
  -- with its consumer taking events in between, has skipped nothing: what the consumer has taken, followed by
  -- what is still in the channel, is what was there at first followed by every event that was delivered, in
  -- order.
  pub feed_complete :
      (ts : List (Turn J)) (s : Subscriber) (got : List Event) {t : Subscriber} {all : List Event}
      → feed env ts s got ≡ some (t, all)
      → all ++ t.pending ≡ (got ++ s.pending) ++ offers ts
  unfolding feed
  feed_complete [] s got h = cc (h, append-nil (got ++ s.pending))
  feed_complete (offered b e ∷ ts) s got h = elim (Bool-cases (has_room s)) [
    | inl y ↦
        feed_complete ts (offer e s) got (rw (feed, delivered b e s y) at h) ∙ simp append_assoc
    | inr n ↦ cc (rw (feed, dropped b e s n) at h)
  ]
  feed_complete (received ∷ ts) s got h =
      feed_complete ts (receive s got).0 (receive s got).1 h
      ∙ ap (λ l. l ++ offers ts) (receive-keeps s got)

abbrev pub of_task : String → Event → Bool
of_task t e = str_eq e.task_id t

collect-take :
    (t : String) (n : ℕ) (es : List Event) → collect t n es ≡ take n (keep (of_task t) es)
unfolding collect
collect-take t zero es = refl
collect-take t (suc n) [] = refl
collect-take t (suc n) (e ∷ es) = elim (Bool-cases (str_eq e.task_id t)) [
  | inl y ↦ rw (y, collect) (ap (λ l. e ∷ l) (collect-take t n es))
  | inr f ↦ rw (f, collect) (collect-take t (suc n) es)
]

keep-reverse : (p : Event → Bool) (es : List Event) → keep p (reverse es) ≡ reverse (keep p es)
keep-reverse p [] = refl
keep-reverse p (e ∷ es) =
    ap (keep p) (reverse-append (e ∷ []) es)
    ∙ keep-append p (reverse es) (e ∷ [])
    ∙ ap (λ l. l ++ keep p (e ∷ [])) (keep-reverse p es)
    ∙ last (p e) refl
  where
    last : (b : Bool) → p e ≡ b → reverse (keep p es) ++ keep p (e ∷ []) ≡ reverse (keep p (e ∷ es))
    last true q = rw q (sym (reverse-append (e ∷ []) (keep p es)))
    last false q = rw q (append-nil (reverse (keep p es)))

length-reverse : (es : List Event) → length (reverse es) ≡ length es
length-reverse [] = refl
length-reverse (e ∷ es) =
    ap length (reverse-append (e ∷ []) es)
    ∙ length-append (reverse es) (e ∷ [])
    ∙ omega (arith, length-reverse es)

drop_nil : (n : ℕ) → [] ≡ drop {A = Event} n []
drop_nil zero = refl
drop_nil (suc n) = refl

drop_all : (es : List Event) → drop (length es) es ≡ []
drop_all [] = refl
drop_all (e ∷ es) = drop_all es

reverse-take : (n : ℕ) (es : List Event) → reverse (take n es) ≡ drop (length es - n) (reverse es)
reverse-take zero es =
    sym (drop_all (reverse es)) ∙ ap (λ n. drop n (reverse es)) (omega (arith, length-reverse es))
reverse-take (suc n) [] = drop_nil (length {A = Event} [] - suc n)
reverse-take (suc n) (e ∷ es) =
    reverse-append (e ∷ []) (take n es)
    ∙ ap (λ l. l ++ (e ∷ [])) (reverse-take n es)
    ∙ sym (drop-append (length es - n) (reverse es) (e ∷ []) (omega (arith, length-reverse es)))
    ∙ ap₂ drop (omega arith) (sym (reverse-append (e ∷ []) es))

-- The recent events of a task are the last ones of the window that belong to it, at most as many as
-- asked for, in the order in which they were published.
pub recent_task_events_lem :
    {J : Type 0} (t : String) (n : ℕ) (b : Bus J)
    → let mine = keep (of_task t) b.history in
      recent_task_events t n b ≡ drop (length mine - n) mine
unfolding recent_task_events
recent_task_events_lem t n b =
    let mine = keep (of_task t) b.history in
    ap reverse
      (collect-take t n (reverse b.history) ∙ ap (take n) (keep-reverse (of_task t) b.history))
    ∙ reverse-take n (reverse mine)
    ∙ ap₂ (λ k l. drop (k - n) l) (length-reverse mine) (reverse-reverse mine)
