-- ===== src/Store/Streams.antt =====
-- store.go: `subscribe`, the function that it returns to unsubscribe, and `close` up to the wait for
-- the storage; and how the readers of the channels take from them.
pub mod Channels
pub mod Delivery
use webpprof.Prelude.{ℕ, Bool, true, Option, none, some, List, [], ◌∷◌, ◌++◌, ◌==◌, if◌then◌else◌}
use webpprof.Store.{EntryStore, StreamMessage, Subscriber, next, broadcast}

-- `subscribe`: the id of the new channel, or none for a channel that is closed at once
unfoldable pub subscribe : EntryStore → Option ℕ × EntryStore
subscribe s =
    if s.is_closed
    then (none, s)
    else let id = next s.next_subscriber in
      (some id, record s { next_subscriber = id; subscribers = s.subscribers ++ (id, []) ∷ [] })

-- the channel of an id, and the others
unfoldable pub channels_of : ℕ → List Subscriber → List Subscriber
channels_of id [] = []
channels_of id (c ∷ rest) = let cs = channels_of id rest in if c.0 == id then c ∷ cs else cs

unfoldable pub channels_but : ℕ → List Subscriber → List Subscriber
channels_but id [] = []
channels_but id (c ∷ rest) = let cs = channels_but id rest in if c.0 == id then cs else c ∷ cs

-- a second call finds no channel, so the `sync.Once` changes nothing
unfoldable pub unsubscribe : EntryStore → ℕ → EntryStore
unsubscribe s id = record s {
  subscribers = channels_but id s.subscribers;
  closed_channels = channels_of id s.subscribers ++ s.closed_channels;
}

-- `close` up to `mu.Unlock`, with the number of batches that it waits for
unfoldable pub close : EntryStore → Option ℕ × EntryStore
close s = if s.is_closed then (none, s) else (
  some s.storage_issued,
  record s {
    is_closed = true;
    subscribers = [];
    closed_channels = s.subscribers ++ s.closed_channels;
  },
)

-- a receive from the channel of an id: the message that was sent first, if there is one
unfoldable pub receive_from : ℕ → List Subscriber → List StreamMessage × List Subscriber
receive_from id [] = ([], [])
receive_from id ((j, []) ∷ rest) =
    let (m, others) = receive_from id rest in
    if j == id then ([], (j, []) ∷ rest) else (m, (j, []) ∷ others)
receive_from id ((j, first ∷ buffer) ∷ rest) =
    let (m, others) = receive_from id rest in
    if j == id then (first ∷ [], (j, buffer) ∷ rest) else (m, (j, first ∷ buffer) ∷ others)

-- what happens to the channels: a message is sent to all of them, or the reader of one receives
pub data StreamEvent : Type 0 where
  sent : StreamMessage → StreamEvent
  received : ℕ → StreamEvent

-- what the reader of the channel `id` gets
unfoldable pub stream_step : ℕ → EntryStore → StreamEvent → List StreamMessage × EntryStore
stream_step id s (StreamEvent.sent m) = ([], broadcast s m)
stream_step id s (StreamEvent.received j) =
    let (m, subscribers) = receive_from j s.subscribers in
    ((if j == id then m else []), record s { subscribers = subscribers })

unfoldable pub run_stream : ℕ → EntryStore → List StreamEvent → List StreamMessage × EntryStore
run_stream id s [] = ([], s)
run_stream id s (e ∷ events) =
    let (m, s') = stream_step id s e in let (ms, s'') = run_stream id s' events in (m ++ ms, s'')
