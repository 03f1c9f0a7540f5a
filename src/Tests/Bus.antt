-- ===== src/Tests/Bus.antt =====
-- internal/event at concrete inputs.
use cyber_foreman.Prelude.{
  String, ◌≡◌, ◌≢◌, ◌+◌, refl, false, inr, List, [], ◌∷◌, ◌++◌, none, some, arith, ap, keep, length,
  lookup, insert,
}
use cyber_foreman.Domain.{task_created}
use cyber_foreman.Event.{Event, new_event, nil}
use cyber_foreman.Event.Bus.Defs.{
  Bus, deliver, Env, Subscriber, new_bus, gap, wanted, subscribe_since, trim, publish_checked,
  publish_to, has_room, announce, record_history, compact_event, forget_task, without_task,
}
use cyber_foreman.Event.Bus.Window.{
  Call, publishing, forgetting, calls, call, IsValid, window_bounded,
}
use cyber_foreman.Event.Bus.Rising.{Rising}
use cyber_foreman.Event.Bus.Replay.{
  memory_bus, published, log_of, logged, replay_complete, window_suffix,
}
use cyber_foreman.Event.Bus.Streams.{Turn, offered, received, offers, with_id, feed, feed_complete}

abbrev pub env : Env Unit
env = record {
  data_size = λ d. some 10;
  event_size = λ e. 100;
  append_event = λ e j. (inr e, j);
  events_after = λ n t j. none;
}

abbrev created : String → Event
created t = new_event t "" task_created 5 nil

abbrev script : List Call
script = publishing (created "a") ∷ publishing (created "b") ∷ publishing (created "a") ∷ []

window_bounded_example : IsValid env (calls env script (new_bus {J = Unit} 2 none))
window_bounded_example = window_bounded env 2 none script

window_suffix_example :
    (before : List Event) × (published env 2 script ≡ before ++ (memory_bus env 2 script).history)
    × Rising 0 (published env 2 script) (memory_bus env 2 script).seq
window_suffix_example = window_suffix env 2 script

two_kept : length (memory_bus env 2 script).history ≡ 2
unfolding calls call new_bus publish_checked publish_to announce record_history trim compact_event
    lookup
two_kept = refl

not_empty : (memory_bus env 2 script).history ≢ []
not_empty e = absurd (omega (arith, two_kept, ap_length e))
  where
    ap_length :
        (memory_bus env 2 script).history ≡ [] → length (memory_bus env 2 script).history ≡ 0
    ap_length q = ap length q

no_gap : gap 1 (memory_bus env 2 script) ≡ false
unfolding gap calls call new_bus publish_checked publish_to announce record_history trim
    compact_event lookup
no_gap = refl

replay_complete_example :
    (subscribe_since env 1 4 "a" (memory_bus env 2 script)).0
    ≡ some
        ((memory_bus env 2 script).next_id + 1, keep (wanted 1 "a") (published env 2 script), false)
replay_complete_example = replay_complete env 2 script 1 4 "a" (omega arith) not_empty no_gap

-- An empty window hides a gap: of three events the first two fall out of a window of one, and once the
-- task of the third is forgotten the window is empty. A subscriber that has seen the first event is told
-- of no gap, and is not handed the second.
abbrev hidden : List Call
hidden =
    publishing (created "a")
    ∷ publishing (created "a")
    ∷ publishing (created "b")
    ∷ forgetting "b"
    ∷ []

gap-hidden :
    (gap 1 (memory_bus env 1 hidden) ≡ false)
    × ((subscribe_since env 1 4 "a" (memory_bus env 1 hidden)).0 ≡ some (1, [], false))
    × (length (keep (wanted 1 "a") (published env 1 hidden)) ≡ 1)
unfolding gap calls call new_bus publish_checked publish_to announce record_history trim
    compact_event lookup insert forget_task without_task subscribe_since log_of logged
gap-hidden = (refl, refl, refl)

abbrev reader : Subscriber
reader = record { id = 1; capacity = 2; pending = [] }

-- The bus, with another subscriber.
abbrev shared : Bus Unit
shared = record (new_bus 2 none) { subs = record { id = 2; capacity = 1; pending = [] } ∷ [] }

abbrev turns : List (Turn Unit)
turns =
    offered shared (created "a")
    ∷ received
    ∷ offered shared (created "b")
    ∷ offered shared (created "c")
    ∷ []

reader_kept :
    feed env turns reader []
    ≡ some (record reader { pending = created "b" ∷ created "c" ∷ [] }, created "a" ∷ [])
unfolding feed with_id announce record_history deliver has_room new_bus
reader_kept = refl

feed_complete_example :
    (created "a" ∷ []) ++ (created "b" ∷ created "c" ∷ []) ≡ ([] ++ []) ++ offers turns
feed_complete_example = feed_complete env turns reader [] reader_kept
