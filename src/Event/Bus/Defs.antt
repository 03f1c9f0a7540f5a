-- ===== src/Event/Bus/Defs.antt =====
-- The state of internal/event/bus.go and its operations.
use cyber_foreman.Prelude.{
  ℕ, zero, suc, ◌+◌, ◌-◌, ◌⊎◌, inl, inr, String, append, itoa, str_eq, Bool, true, false, not, ◌&&◌,
  ◌||◌, List, [], ◌∷◌, ◌++◌, Option, none, some, if◌then◌else◌, ltb, ◌==◌, length, keep, Map,
  lookup, insert, delete, or_false,
}
use mathlib.Core.List.{reverse}
use cyber_foreman.Event.{Event, EventData, fields, flag, number}

-- What the bus calls and does not implement: the sizes of `json.Marshal`'s texts (`none` for an
-- error), and the journal of internal/storage/store.go, over a state `J` of its own.
pub record Env (J : Type 0) : Type 0 where
  pub data_size : EventData → Option ℕ
  pub event_size : Event → ℕ
  pub append_event : Event → J → (String ⊎ Event) × J
  pub events_after : ℕ → String → J → Option (List Event)

-- A buffered channel of events, and whether it was closed.
pub record Subscriber : Type 0 where
  pub id : ℕ
  pub capacity : ℕ
  pub pending : List Event

pub record Bus (J : Type 0) : Type 0 where
  pub next_id : ℕ
  pub seq : ℕ
  pub limit : ℕ
  pub max_history_bytes : ℕ
  pub history_bytes : ℕ
  pub history : List Event
  pub history_sizes : List ℕ
  pub subs : List Subscriber
  pub closed : List Subscriber
  pub journal : Option J
  pub forgotten : Map Bool

abbrev pub default_max_history_bytes : ℕ
default_max_history_bytes = 16_777_216

abbrev pub max_stored_event_data : ℕ
max_stored_event_data = 262_144

-- `NewBusWithHistory`, and `NewBusWithJournal` for a journal.
unfoldable pub new_bus : {J : Type 0} → ℕ → Option J → Bus J
new_bus limit journal = record {
  next_id = 0;
  seq = 0;
  limit = if ltb limit 1 then 1 else limit;
  max_history_bytes = default_max_history_bytes;
  history_bytes = 0;
  history = [];
  history_sizes = [];
  subs = [];
  closed = [];
  journal = journal;
  forgotten = [];
}

abbrev truncated_data : ℕ → EventData
truncated_data n = fields (("truncated", flag true) ∷ ("original_bytes", number n) ∷ [])

abbrev bounded_data : Option ℕ → Event → Event
bounded_data none e = e
bounded_data (some n) e =
    if ltb max_stored_event_data n then record e { payload = truncated_data n } else e

-- The loop of `recordHistory`, on the events and sizes that are left: the oldest goes while there are
-- more than the limit, or more bytes than allowed and another event to keep.
unfoldable pub trim : ℕ → ℕ → List Event → List ℕ → ℕ → List Event × List ℕ × ℕ
trim limit most (e ∷ es) (n ∷ ns) bytes =
    let rest = trim limit most es ns (bytes - n) in
    if ltb limit (length (e ∷ es)) || (ltb most bytes && ltb 1 (length (e ∷ es)))
    then rest
    else (e ∷ es, n ∷ ns, bytes)
trim limit most es ns bytes = (es, ns, bytes)

-- A send that does not block: the event goes in if there is room.
unfoldable pub has_room : Subscriber → Bool
has_room s = ltb (length s.pending) s.capacity

abbrev pub offer : Event → Subscriber → Subscriber
offer e s = record s { pending = s.pending ++ (e ∷ []) }

-- The loop over the subscribers in `PublishChecked`: who has room gets the event.
unfoldable pub deliver : Event → List Subscriber → List Subscriber
unfolding has_room
deliver e [] = []
deliver e (s ∷ ss) = let rest = deliver e ss in if has_room s then offer e s ∷ rest else rest

-- The slow ones, whose channel is closed.
unfoldable pub slow : List Subscriber → List Subscriber
unfolding has_room
slow [] = []
slow (s ∷ ss) = let rest = slow ss in if has_room s then rest else s ∷ rest

-- The event with the next number, where there is no journal.
abbrev pub stamp : ℕ → Event → Event
stamp n e = record e { sequence = n; id = append "evt-" (itoa n); version = "v1" }

abbrev room : ℕ → ℕ
room buffer = if ltb buffer 1 then 1 else buffer

-- The loop of `ForgetTask` over the events and their sizes.
unfoldable pub without_task : String → List Event → List ℕ → List Event × List ℕ × ℕ
without_task t (e ∷ es) (n ∷ ns) =
    let rest = without_task t es ns in
    if str_eq e.task_id t then rest else (e ∷ rest.0, n ∷ rest.1, n + rest.2)
without_task t _ _ = ([], [], 0)

-- The loop of `RecentTaskEvents`, over the history from its end.
unfoldable pub collect : String → ℕ → List Event → List Event
collect t zero es = []
collect t (suc n) [] = []
collect t (suc n) (e ∷ es) = elim (str_eq e.task_id t) [
  | true ↦ e ∷ collect t n es
  | false ↦ collect t (suc n) es
]

abbrev pub wanted : ℕ → String → Event → Bool
wanted after task e = ltb after e.sequence && (str_eq task "" || str_eq e.task_id task)

abbrev pub oldest : List Event → ℕ
oldest [] = 0
oldest (e ∷ es) = e.sequence

abbrev is_memory : {J : Type 0} → Option J → Bool
is_memory none = true
is_memory (some j) = false

module _ {J : Type 0} where
  -- `Subscribe`.
  unfoldable pub subscribe : ℕ → Bus J → ℕ × Bus J
  subscribe buffer b =
      let id = b.next_id + 1 in
      (
        id,
        record b {
          next_id = id;
          subs = record { id = id; capacity = room buffer; pending = [] } ∷ b.subs;
        },
      )

  -- The goroutine of a subscription, once its context is done.
  unfoldable pub unsubscribe : ℕ → Bus J → Bus J
  unsubscribe id b = record b {
    subs = keep (λ s. not (s.id == id)) b.subs;
    closed = keep (λ s. s.id == id) b.subs ++ b.closed;
  }

  -- `ForgetTask`.
  unfoldable pub forget_task : String → Bus J → Bus J
  forget_task t b =
      let (h, ns, bytes) = without_task t b.history b.history_sizes in
      record b {
        forgotten = insert t true b.forgotten;
        history = h;
        history_sizes = ns;
        history_bytes = bytes;
      }

  -- `RememberTask`.
  unfoldable pub remember_task : String → Bus J → Bus J
  remember_task t b = record b { forgotten = delete t b.forgotten }

  -- `RecentTaskEvents`.
  unfoldable pub recent_task_events : String → ℕ → Bus J → List Event
  unfolding collect
  recent_task_events t limit b = reverse (collect t limit (reverse b.history))

  unfoldable pub gap : ℕ → Bus J → Bool
  gap after b =
      is_memory b.journal
      && (ltb 0 after && (ltb 0 (oldest b.history) && ltb (after + 1) (oldest b.history)))

  unfoldable pub install : ℕ → ℕ → List Event → Bus J → Bus J
  install id buffer es b = record b {
    next_id = id;
    subs =
        record {
          id = id;
          capacity = room (if ltb buffer (length es + 1) then length es + 1 else buffer);
          pending = es;
        }
        ∷ b.subs;
  }

  -- `subscribeSince` once the replay is read: the id and the replay of the new subscriber and the
  -- gap, or the journal's error.
  unfoldable pub subscribed :
      ℕ → ℕ → Bus J → Option (List Event) → Option (ℕ × List Event × Bool) × Bus J
  unfolding gap install
  subscribed after buffer b none = (none, b)
  subscribed after buffer b (some es) =
      (some (b.next_id + 1, es, gap after b), install (b.next_id + 1) buffer es b)

module _ {J : Type 0} (env : Env J) where
  -- `compactEvent`.
  unfoldable pub compact_event : Event → Event
  compact_event e = bounded_data (env.data_size e.payload) e

  -- `recordHistory`.
  unfoldable pub record_history : Event → Bus J → Bus J
  record_history e b =
      let stored = compact_event e in
      let size = env.event_size stored in
      let (h, ns, bytes) =
        trim b.limit b.max_history_bytes (b.history ++ (stored ∷ []))
          (b.history_sizes ++ (size ∷ [])) (b.history_bytes + size) in
      record b { history = h; history_sizes = ns; history_bytes = bytes }

  -- The end of `PublishChecked`, once the event has its sequence number.
  unfoldable pub announce : Event → Bus J → Bus J
  announce e b =
      let c = record_history e b in
      record c { subs = deliver e c.subs; closed = slow c.subs ++ c.closed }

  unfoldable pub publish_journaled : Bus J → (String ⊎ Event) × J → Option String × Bus J
  publish_journaled b (inl failure, j) = (some failure, record b { journal = some j })
  publish_journaled b (inr p, j) =
      (none, announce p (record b { journal = some j; seq = p.sequence }))

  unfoldable pub publish_to : Option J → Event → Bus J → Option String × Bus J
  unfolding publish_journaled announce
  publish_to (some j) e b = publish_journaled b (env.append_event e j)
  publish_to none e b = (none, announce (stamp (b.seq + 1) e) (record b { seq = b.seq + 1 }))

  -- `PublishChecked`; the error is that of the journal. `Publish` drops it.
  unfoldable pub publish_checked : Event → Bus J → Option String × Bus J
  unfolding publish_to
  publish_checked e b =
      if or_false (lookup e.task_id b.forgotten)
      then (none, b)
      else publish_to b.journal (compact_event e) b

  abbrev pub publish : Event → Bus J → Bus J
  publish e b = (publish_checked e b).1

  abbrev pub replay : Option J → ℕ → String → List Event → Option (List Event)
  replay none after task h = some (keep (wanted after task) h)
  replay (some j) after task h = env.events_after after task j

  -- `subscribeSince`.
  unfoldable pub subscribe_since : ℕ → ℕ → String → Bus J → Option (ℕ × List Event × Bool) × Bus J
  unfolding subscribed
  subscribe_since after buffer task b =
      subscribed after buffer b (replay b.journal after task b.history)
