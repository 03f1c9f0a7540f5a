-- ===== src/Event/Bus/Replay.antt =====
-- The replay of internal/event/bus.go against the log of all that was published. The bus keeps the end
-- of that log, less the tasks that were forgotten since.
use cyber_foreman.Prelude.{
  ℕ, ◌+◌, ◌≤◌, ◌<◌, String, ◌≡◌, ◌≢◌, refl, ap, sym, subst, ◌∙◌, inl, inr, true, false, List, [],
  ◌∷◌, ◌++◌, Option, none, some, if◌then◌else◌, keep, arith, Bool-cases, append_assoc, lookup,
  or_false,
}
use cyber_foreman.Event.{Event}
use cyber_foreman.Event.Bus.Defs.{
  Env, Bus, new_bus, compact_event, record_history, publish_checked, publish_to, publish, subscribe,
  unsubscribe, forget_task, remember_task, subscribe_since, announce, stamp, replay, subscribed,
  wanted, gap,
}
use cyber_foreman.Event.Bus.Rising.{
  Rising, other_task, Rising-snoc, Rising-keep, keep-append, without_task-keep, Rising-later,
  keep-earlier,
}
use cyber_foreman.Event.Bus.Window.{
  Call, publishing, subscribing, unsubscribing, forgetting, remembering, following, call, calls,
  trim_suffix, aligned, IsValid, call-IsValid, forget_task-IsValid,
}

-- The log is what came before the window and the window, in rising order.
pub record Tracks {J : Type 0} (env : Env J) (b : Bus J) (log : List Event) : Type 0 where
  pub in_memory : b.journal ≡ none
  pub valid : IsValid env b
  pub before : List Event
  pub suffix : log ≡ before ++ b.history
  pub rising : Rising 0 log b.seq

module _ {J : Type 0} (env : Env J) where
  compact-sequence : (e : Event) → (compact_event env e).sequence ≡ e.sequence
  unfolding compact_event
  compact-sequence e = ground arith

  -- The event that a publication stores.
  abbrev pub stored : Bus J → Event → Event
  stored b e = compact_event env (stamp (b.seq + 1) (compact_event env e))

  -- What a call adds to the log, or takes from it.
  unfoldable pub logged : Call → Bus J → List Event → List Event
  logged (publishing e) b log =
      if or_false (lookup e.task_id b.forgotten) then log else log ++ (stored b e ∷ [])
  logged (forgetting t) b log = keep (other_task t) log
  logged _ b log = log

  unfoldable pub log_of : List Call → Bus J → List Event → List Event
  log_of [] b log = log
  log_of (c ∷ cs) b log = log_of cs (call env c b) (logged c b log)

  announce-suffix :
      (x : Event) (c : Bus J)
      → (pre : List Event) × (c.history ++ (compact_event env x ∷ [])
          ≡ pre ++ (announce env x c).history)
  unfolding announce record_history
  announce-suffix x c =
      trim_suffix c.limit c.max_history_bytes (c.history ++ (compact_event env x ∷ []))
        (c.history_sizes ++ (env.event_size (compact_event env x) ∷ []))
        (c.history_bytes + env.event_size (compact_event env x))

  -- The bus that a publication leaves, where the task is not forgotten and there is no journal.
  abbrev announced : Event → Bus J → Bus J
  announced e b =
      announce env (stamp (b.seq + 1) (compact_event env e)) (record b { seq = b.seq + 1 })

  publish-announced :
      (e : Event) (b : Bus J)
      → b.journal ≡ none
      → or_false (lookup e.task_id b.forgotten) ≡ false
      → publish env e b ≡ announced e b
  unfolding publish_checked publish_to
  publish-announced e b m f = rw (f, publish) (go b.journal m)
    where
      go : (j : Option J) → j ≡ none → (publish_to env j (compact_event env e) b).1 ≡ announced e b
      go none q = refl
      go (some j) q = cc

  publish-forgotten :
      (e : Event) (b : Bus J) → or_false (lookup e.task_id b.forgotten) ≡ true → publish env e b ≡ b
  unfolding publish_checked
  publish-forgotten e b f = rw (f, publish)

  announced-Tracks :
      (e : Event) (b : Bus J) (log : List Event)
      → Tracks env b log
      → IsValid env (announced e b)
      → Tracks env (announced e b) (log ++ (stored b e ∷ []))
  unfolding announce record_history
  announced-Tracks e b log t v =
      let (pre, p) =
        announce-suffix (stamp (b.seq + 1) (compact_event env e)) (record b { seq = b.seq + 1 }) in
      record {
        in_memory = t.in_memory;
        valid = v;
        before = t.before ++ pre;
        suffix =
            ap (λ l. l ++ (stored b e ∷ [])) t.suffix
            ∙ append_assoc t.before b.history (stored b e ∷ [])
            ∙ ap (λ l. t.before ++ l) p
            ∙ sym (append_assoc t.before pre _);
        rising =
            let q = compact-sequence (stamp (b.seq + 1) (compact_event env e)) in
            subst (λ n. Rising 0 (log ++ (stored b e ∷ [])) n) q
              (Rising-snoc 0 b.seq log (stored b e) t.rising (omega (arith, q)));
      }

  call-Tracks :
      (c : Call) (b : Bus J) (log : List Event)
      → Tracks env b log
      → Tracks env (call env c b) (logged c b log)
  unfolding call logged subscribe unsubscribe remember_task forget_task subscribed subscribe_since
  call-Tracks (publishing e) b log t = elim (Bool-cases (or_false (lookup e.task_id b.forgotten))) [
    | inl y ↦ rw y (subst (λ c. Tracks env c log) (sym (publish-forgotten e b y)) t)
    | inr n ↦ rw n (
        subst (λ c. Tracks env c (log ++ (stored b e ∷ [])))
          (sym (publish-announced e b t.in_memory n))
          (announced-Tracks e b log t (
            subst (IsValid env) (publish-announced e b t.in_memory n)
              (call-IsValid env (publishing e) b t.valid))))
  ]
  call-Tracks (subscribing k) b log t = record {
    in_memory = t.in_memory;
    valid = t.valid;
    before = t.before;
    suffix = t.suffix;
    rising = t.rising;
  }
  call-Tracks (unsubscribing i) b log t = record {
    in_memory = t.in_memory;
    valid = t.valid;
    before = t.before;
    suffix = t.suffix;
    rising = t.rising;
  }
  call-Tracks (remembering i) b log t = record {
    in_memory = t.in_memory;
    valid = t.valid;
    before = t.before;
    suffix = t.suffix;
    rising = t.rising;
  }
  call-Tracks (forgetting k) b log t = record {
    in_memory = t.in_memory;
    valid = forget_task-IsValid env k b t.valid;
    before = keep (other_task k) t.before;
    suffix =
        ap (keep (other_task k)) t.suffix
        ∙ keep-append (other_task k) t.before b.history
        ∙ ap (λ l. keep (other_task k) t.before ++ l)
            (sym (without_task-keep k b.history b.history_sizes (aligned t.valid)));
    rising = Rising-keep (other_task k) 0 b.seq log t.rising;
  }
  call-Tracks (following after k u) b log t = followed (replay env b.journal after u b.history)
    where
      followed : (r : Option (List Event)) → Tracks env (subscribed after k b r).1 log
      followed none = t
      followed (some es) = record {
        in_memory = t.in_memory;
        valid = t.valid;
        before = t.before;
        suffix = t.suffix;
        rising = t.rising;
      }

  calls-Tracks :
      (cs : List Call) (b : Bus J) (log : List Event)
      → Tracks env b log
      → Tracks env (calls env cs b) (log_of cs b log)
  unfolding calls log_of
  calls-Tracks [] b log t = t
  calls-Tracks (c ∷ cs) b log t =
      calls-Tracks cs (call env c b) (logged c b log) (call-Tracks c b log t)

  -- The bus and the log after calls on a new bus without a journal.
  pub new-Tracks :
      (limit : ℕ) (cs : List Call)
      → Tracks env (calls env cs (new_bus limit none)) (log_of cs (new_bus limit none) [])
  new-Tracks limit cs = calls-Tracks cs (new_bus limit none) [] (record {
    in_memory = unfold new_bus in refl;
    valid = unfold new_bus in ground arith;
    before = [];
    suffix = unfold new_bus in refl;
    rising = omega arith;
  })

  -- A bus that holds the window and says that there is no gap replays the whole log.
  Tracks-replay :
      (b : Bus J) (log : List Event) (after : ℕ) (task : String)
      → Tracks env b log
      → 0 < after
      → b.history ≢ []
      → gap after b ≡ false
      → keep (wanted after task) b.history ≡ keep (wanted after task) log
  unfolding gap
  Tracks-replay b log after task t pos ne g = go b.history refl
    where
      go :
          (h : List Event)
          → b.history ≡ h
          → keep (wanted after task) b.history ≡ keep (wanted after task) log
      go [] q = absurd (ne q)
      go (e ∷ es) q =
          let r : Rising 0 (t.before ++ (e ∷ es)) b.seq =
            subst (λ l. Rising 0 l b.seq) (t.suffix ∙ ap (λ l. t.before ++ l) q) t.rising in
          let later = Rising-later 0 b.seq t.before es e r in
          let near : e.sequence ≤ after + 1 = ground (arith, t.in_memory) in
          sym (
            ap (keep (wanted after task)) t.suffix
            ∙ keep-append (wanted after task) t.before b.history
            ∙ ap (λ l. l ++ keep (wanted after task) b.history)
                (keep-earlier after task 0 b.seq t.before es e r near))

  -- A bus without a journal after the calls, and all that was published on it, less the tasks
  -- forgotten since.
  abbrev pub memory_bus : ℕ → List Call → Bus J
  memory_bus limit cs = calls env cs (new_bus limit none)

  abbrev pub published : ℕ → List Call → List Event
  published limit cs = log_of cs (new_bus limit none) []

  memory_replay :
      (after buffer : ℕ) (task : String) (b : Bus J) (es : List Event)
      → b.journal ≡ none
      → gap after b ≡ false
      → keep (wanted after task) b.history ≡ es
      → (subscribe_since env after buffer task b).0 ≡ some (b.next_id + 1, es, false)
  unfolding subscribe_since
  memory_replay after buffer task b es m g h = go b.journal m
    where
      go :
          (j : Option J)
          → j ≡ none
          → (subscribed after buffer b (replay env j after task b.history)).0
            ≡ some (b.next_id + 1, es, false)
      go none q = rw (h, g)
      go (some j) q = cc

  -- Over any calls on a new bus without a journal, a subscriber that asks for the events after a
  -- sequence number above 0 and is told that there is no gap is handed, in order, exactly the events
  -- with greater numbers among all that were published (of the task asked for, and less the tasks
  -- forgotten since), unless the window is empty.
  pub replay_complete :
      (limit : ℕ) (cs : List Call) (after buffer : ℕ) (task : String)
      → 0 < after
      → (memory_bus limit cs).history ≢ []
      → gap after (memory_bus limit cs) ≡ false
      → (subscribe_since env after buffer task (memory_bus limit cs)).0
        ≡ some (
          (memory_bus limit cs).next_id + 1,
          keep (wanted after task) (published limit cs),
          false,
        )
  replay_complete limit cs after buffer task pos ne g =
      let b = memory_bus limit cs in
      let t = new-Tracks limit cs in
      memory_replay after buffer task b _ t.in_memory g
        (Tracks-replay b (published limit cs) after task t pos ne g)

  -- Over any calls on a new bus without a journal, the replay window is the end of what was published,
  -- less the tasks forgotten since, and the sequence numbers rise strictly.
  pub window_suffix :
      (limit : ℕ) (cs : List Call)
      → (before : List Event) × (published limit cs ≡ before ++ (memory_bus limit cs).history)
        × Rising 0 (published limit cs) (memory_bus limit cs).seq
  window_suffix limit cs = let t = new-Tracks limit cs in (t.before, t.suffix, t.rising)
