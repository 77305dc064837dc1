-- ===== src/Store/Samples.antt =====
-- A store that holds a request and a query of it, for the tests.
use webpprof.Prelude.{◌+◌, pos, refl, [], ◌∷◌, List, true, false, arith, inl}
use webpprof.Prelude.Assoc.{lookup}
use webpprof.Order.{at, grow, push_back, new_entry_order}
use webpprof.Entry.{Entry, Kind, zero_entry, entry_size, tags_size, kind_text}
use webpprof.Store.{EntryStore, StorageKind}
use webpprof.Store.Window.{find, total}
use webpprof.Store.Holds.{Holds}

abbrev pub request : Entry
request = record zero_entry {
  cursor = 1;
  id = "r";
  kind = Kind.request;
  started_at = 10;
  recorded_at = 10;
  duration_ns = pos 600000000;
  payload = "{}";
}

abbrev pub query : Entry
query = record zero_entry {
  cursor = 2;
  id = "q";
  kind = Kind.query;
  request_id = "r";
  parent_id = "r";
  started_at = 20;
  recorded_at = 20;
  duration_ns = pos 400000000;
  payload = "{}";
}

abbrev pub window : List Entry
window = request ∷ query ∷ []

abbrev pub busy : EntryStore
busy = record {
  entries = ("r", request) ∷ ("q", query) ∷ [];
  order = push_back (push_back (new_entry_order 2) "r") "q";
  bytes = entry_size request + entry_size query;
  next_cursor = 2;
  dropped = 0;
  evicted = 0;
  retention = 100;
  max_events = 2;
  max_bytes = 1000;
  stream_buffer = 1;
  subscribers = [];
  closed_channels = [];
  next_subscriber = 0;
  is_closed = false;
  storage_kind = StorageKind.journal;
  storage_file = true;
  storage = false;
  storage_issued = 2;
}

pub busy-Holds : Holds busy window
unfolding lookup at grow push_back new_entry_order entry_size tags_size kind_text find total
busy-Holds = record {
  order_valid = record { fits = omega arith; head_in = inl (omega arith) };
  order_ids = refl;
  distinct = (refl, (refl, tt));
  found = λ k. refl;
  bytes = refl;
}
