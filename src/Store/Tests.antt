-- ===== src/Store/Tests.antt =====
-- Runs of the store, and its theorems at concrete inputs.
use webpprof.Prelude.{ℕ, ◌≡◌, refl, List, [], ◌∷◌, some, none, true, false, arith, String, length}
use webpprof.Prelude.Assoc.{lookup, insert, delete}
use webpprof.Order.{at, front, grow, push_back, pop_front, remove, reset, new_entry_order}
use webpprof.Entry.{Entry, Kind, zero_entry, entry_size, kind_text}
use webpprof.Store.{
  EntryStore, StorageKind, put, purge_expired, purge_loop, evict_one, remove_oldest, forget, evict,
  evict_loop, over_limit, detach, attach, store, store_detached, reject, broadcast, delivered,
  cut_off, storage_batch, has_backend, clear,
}
use webpprof.Store.Window.{find, total}
use webpprof.Store.Replay.{
  replay, replay_record, replay_operation, replay_put, replay_clear, remove_memory, compacted,
}
use webpprof.Store.Replay.Session.{Call, IsLive, step, run, replay-run}
use webpprof.Store.Streams.{StreamEvent}
use webpprof.Store.Streams.Channels.{channel}
use webpprof.Store.Streams.Delivery.{Subscribed, CutOff, run_stream-delivers}
use webpprof.Store.{StreamMessage}
use webpprof.Store.Query.{
  EventFilters, scan, in_range, scope_ids, visit, visit_children, children_of, list_before_filtered,
  matches_event_filters, matches_tags,
}
use webpprof.Store.Query.Newest.{is_listed, list-newest}
use webpprof.Store.Positions.{request_entries_lem}
use webpprof.Store.Reads.{collect, request_entries, belongs_to}
use webpprof.Prelude.{take, filter, ◌⊎◌}
use mathlib.Core.List.{reverse}
use mathlib.Core.Option
use webpprof.Prelude.Text.{to_lower, text_eq, trim_space, trim_left}
use webpprof.Store.Reads.{get}
use webpprof.Store.Holds.{Holds}
use webpprof.Store.Samples.{busy, window, busy-Holds}
use webpprof.Store.Bounds.{IsWithin, put-Stored, put-rejected, cutoff}
use webpprof.Store.Put.{Stored, stamped, extended}
use webpprof.Store.Frame.{SameSettings}
use webpprof.Store.Evict.{delete_records}
use webpprof.Store.{put_record}
use webpprof.Store.Window.{expire, expired, surplus, with_entry}
use webpprof.Prelude.{◌++◌}
use webpprof.Store.Retention.{put-IsWithin, get-put}

program : Unit {0}
unfolding lookup insert delete at front grow push_back pop_front remove reset new_entry_order
    entry_size kind_text put purge_expired purge_loop evict_one remove_oldest forget evict
    evict_loop over_limit detach attach store store_detached reject broadcast delivered cut_off
    storage_batch has_backend clear get
program = tt

abbrev fresh : EntryStore
fresh = record {
  entries = [];
  order = new_entry_order 2;
  bytes = 0;
  next_cursor = 0;
  dropped = 0;
  evicted = 0;
  retention = 100;
  max_events = 2;
  max_bytes = 1000;
  stream_buffer = 1;
  subscribers = (1, []) ∷ [];
  closed_channels = [];
  next_subscriber = 1;
  is_closed = false;
  storage_kind = StorageKind.journal;
  storage_file = true;
  storage = false;
  storage_issued = 0;
}

abbrev query : String → ℕ → Entry
query id at = record zero_entry { id = id; kind = Kind.query; recorded_at = at; payload = "{}" }

abbrev after : EntryStore → Entry → ℕ → EntryStore
after s e now = (put s e now).2

abbrev three : EntryStore
three = after (after (after fresh (query "a" 10) 10) (query "b" 20) 20) (query "c" 30) 30

three_lem :
    (three.bytes ≡ 336)
    × (three.evicted ≡ 1)
    × (three.next_cursor ≡ 3)
    × (length three.closed_channels ≡ 1)
    × ((get three "a" 30).0 ≡ none)
    × ((get three "b" 30).0 ≡ some (record (query "b" 20) { cursor = 2 }))
    × ((get three "b" 121).0 ≡ none)
unfolding program
three_lem = (refl, refl, refl, refl, refl, refl, refl)

fresh-Holds : Holds fresh []
unfolding program find total
fresh-Holds = record {
  order_valid = omega arith;
  order_ids = refl;
  distinct = tt;
  found = λ k. refl;
  bytes = refl;
}

fresh-IsWithin : IsWithin fresh []
unfolding total
fresh-IsWithin = record {
  holds = fresh-Holds;
  events = omega arith;
  bytes = omega arith;
  some_event = omega arith;
  small = omega arith;
}

put-IsWithin_example : (v : List Entry) × IsWithin (put fresh (query "a" 10) 10).2 v
put-IsWithin_example = put-IsWithin fresh [] (query "a" 10) 10 fresh-IsWithin refl

get-put_example :
    (get (put fresh (query "a" 10) 10).2 "a" 110).0 ≡ some (record (query "a" 10) { cursor = 1 })
unfolding program
get-put_example =
    get-put fresh [] (query "a" 10) 10 110 fresh-IsWithin refl (omega arith) (omega arith)

put-Stored_example :
    Stored fresh
      (stamped fresh (query "a" 10))
      (with_entry 2 1000 (stamped fresh (query "a" 10)) (expire (cutoff fresh 10) []))
      ((delete_records (expired (cutoff fresh 10) [])
          ++ delete_records (
              surplus 2 1000
                (extended (stamped fresh (query "a" 10)) (expire (cutoff fresh 10) []))))
        ++ put_record (stamped fresh (query "a" 10)) 1 ∷ [])
      (put fresh (query "a" 10) 10)
unfolding program
put-Stored_example = put-Stored fresh [] (query "a" 10) 10 fresh-IsWithin refl (omega arith)

abbrev tiny : EntryStore
tiny = record fresh { max_bytes = 50 }

tiny-IsWithin : IsWithin tiny []
unfolding program find total
tiny-IsWithin = record {
  holds = record {
    order_valid = omega arith;
    order_ids = refl;
    distinct = tt;
    found = λ k. refl;
    bytes = refl;
  };
  events = omega arith;
  bytes = omega arith;
  some_event = omega arith;
  small = omega arith;
}

put-rejected_example :
    ((put tiny (query "a" 10) 10).0 ≡ false)
    × Holds (put tiny (query "a" 10) 10).2 (expire (cutoff tiny 10) [])
    × SameSettings tiny (put tiny (query "a" 10) 10).2
    × ((put tiny (query "a" 10) 10).2.next_cursor ≡ 0)
    × ((put tiny (query "a" 10) 10).1.records ≡ delete_records (expired (cutoff tiny 10) []))
unfolding program
put-rejected_example = put-rejected tiny [] (query "a" 10) 10 tiny-IsWithin refl (omega arith)

program_more : Unit {0}
unfolding program replay replay_record replay_operation replay_put replay_clear remove_memory step
    run compacted collect scan in_range scope_ids visit visit_children children_of
    list_before_filtered matches_event_filters matches_tags channel trim_space trim_left
program_more = tt

fresh-IsLive : IsLive fresh []
unfolding program
fresh-IsLive = record { within = fresh-IsWithin; opened = refl; backend = refl }

abbrev calls : List Call
calls =
    Call.put (query "a" 10) 10
    ∷ Call.put (query "b" 20) 20
    ∷ Call.put (query "a" 30) 30
    ∷ Call.get "b" 125
    ∷ []

-- after a restart from what was written, the same entry is left
restart_lem : (replay fresh (run fresh calls).0).order.count ≡ 1
unfolding program_more
restart_lem = refl

replay-run_example :
    (v : List Entry) × IsLive (run fresh calls).1 v × Holds (replay fresh (run fresh calls).0) v
unfolding program
replay-run_example =
    replay-run calls fresh fresh [] fresh-IsLive (refl, (refl, (refl, (tt, tt)))) fresh-Holds

-- a reader that receives once between the messages
abbrev stream_events : List StreamEvent
stream_events =
    StreamEvent.sent (StreamMessage.cleared 1)
    ∷ StreamEvent.received 1
    ∷ StreamEvent.sent (StreamMessage.cleared 2)
    ∷ []

run_stream-delivers_example : Subscribed fresh 1 [] stream_events ⊎ CutOff fresh 1 [] stream_events
unfolding program_more
run_stream-delivers_example = run_stream-delivers stream_events fresh 1 [] refl

abbrev no_filters : EventFilters
no_filters = record {
  kind = "";
  request_id = "";
  scope_id = "";
  tags = [];
  query = "";
  method = "";
  path_contains = "";
  status = 0;
  min_duration_ns = 0;
  max_duration_ns = 0;
  after = 0;
  before = 0;
}

list-newest_example :
    (list_before_filtered to_lower text_eq (λ text. none) busy no_filters 1 30).0
    ≡ reverse (
        take 1 (
          filter
            (is_listed to_lower text_eq (λ text. none) (purge_expired busy 30).1 no_filters)
            (reverse (expire (cutoff busy 30) window))))
list-newest_example =
    list-newest to_lower text_eq (λ text. none) busy window no_filters 1 30 busy-Holds

request_entries_lem_example :
    (request_entries busy "r" 30).0
    ≡ Option.map
        (λ r. (r, filter (belongs_to "r") (expire (cutoff busy 30) window)))
        (find "r" (expire (cutoff busy 30) window))
request_entries_lem_example = request_entries_lem busy window "r" 30 busy-Holds
