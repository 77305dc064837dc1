-- ===== src/Store/Streams/Delivery.antt =====
-- What reaches a subscriber.
use mathlib.Core.List.{append_assoc, append-nil}
use webpprof.Prelude.{
  ℕ, ◌≤◌, ◌≡◌, inl, inr, ◌⊎◌, refl, ap, ◌∙◌, sym, some, List, [], ◌∷◌, ◌++◌, length, ltb, arith,
  Bool-cases, true, ◌==◌,
}
use mathlib.Core.Path.{subst}
use webpprof.Store.{EntryStore, StreamMessage, broadcast, cut_off}
use webpprof.Store.Streams.{StreamEvent, stream_step, run_stream}
use webpprof.Store.Streams.Channels.{
  IsIn, IsIn-append, channel, channel-IsIn, channel-delivered, receive_from-empty,
  receive_from-first, receive_from-other, cut_off-IsIn,
}

-- the messages that are sent
abbrev pub sent_of : StreamEvent → List StreamMessage
sent_of (StreamEvent.sent m) = m ∷ []
sent_of (StreamEvent.received id) = []

abbrev pub sent_in : List StreamEvent → List StreamMessage
sent_in [] = []
sent_in (e ∷ events) = sent_of e ++ sent_in events

-- The channel of `id` is open after the events: its reader has got the first of the messages that were in it or sent
-- since, in their order, and the others wait in it.
pub record Subscribed (s : EntryStore) (id : ℕ) (buffer : List StreamMessage)
    (events : List StreamEvent) : Type 0 where
  pub rest : List StreamMessage
  pub order : (run_stream id s events).0 ++ rest ≡ buffer ++ sent_in events
  pub open_still : channel id (run_stream id s events).1.subscribers ≡ some rest

-- The channel was open up to a message that it had no room for, and was closed then, with what waited in it.
pub record CutOff (s : EntryStore) (id : ℕ) (buffer : List StreamMessage)
    (events : List StreamEvent) : Type 0 where
  pub before : List StreamEvent
  pub message : StreamMessage
  pub after : List StreamEvent
  pub split : before ++ StreamEvent.sent message ∷ after ≡ events
  pub until : Subscribed s id buffer before
  pub full : s.stream_buffer ≤ length until.rest
  pub closed : IsIn (id, until.rest) (broadcast (run_stream id s before).1 message).closed_channels

-- a step that moves messages from what is sent to the channel and from it to the reader
record Moves (id : ℕ) (s : EntryStore) (e : StreamEvent) (buffer buffer' : List StreamMessage)
    : Type 0 where
  limit : (stream_step id s e).1.stream_buffer ≡ s.stream_buffer
  order :
      (ms : List StreamMessage)
      → (stream_step id s e).0 ++ (buffer' ++ ms) ≡ buffer ++ (sent_of e ++ ms)

Subscribed-step :
    (id : ℕ) (s : EntryStore) (e : StreamEvent) (buffer buffer' : List StreamMessage)
    (events : List StreamEvent)
    → Moves id s e buffer buffer'
    → Subscribed (stream_step id s e).1 id buffer' events
    → Subscribed s id buffer (e ∷ events)
unfolding run_stream
Subscribed-step id s e buffer buffer' events moves rest = record {
  rest = rest.rest;
  order =
      let m = (stream_step id s e).0 in
      append_assoc m (run_stream id (stream_step id s e).1 events).0 rest.rest
      ∙ (ap (λ x. m ++ x) rest.order ∙ moves.order (sent_in events));
  open_still = rest.open_still;
}

CutOff-step :
    (id : ℕ) (s : EntryStore) (e : StreamEvent) (buffer buffer' : List StreamMessage)
    (events : List StreamEvent)
    → Moves id s e buffer buffer'
    → CutOff (stream_step id s e).1 id buffer' events
    → CutOff s id buffer (e ∷ events)
unfolding run_stream Subscribed-step
CutOff-step id s e buffer buffer' events moves c = record {
  before = e ∷ c.before;
  message = c.message;
  after = c.after;
  split = ap (◌∷◌ e) c.split;
  until = Subscribed-step id s e buffer buffer' c.before moves c.until;
  full = subst (λ n. n ≤ length c.until.rest) moves.limit c.full;
  closed = c.closed;
}

later_on :
    (id : ℕ) (s : EntryStore) (e : StreamEvent) (buffer buffer' : List StreamMessage)
    (events : List StreamEvent)
    → Moves id s e buffer buffer'
    → Subscribed (stream_step id s e).1 id buffer' events
      ⊎ CutOff (stream_step id s e).1 id buffer' events
    → Subscribed s id buffer (e ∷ events) ⊎ CutOff s id buffer (e ∷ events)
later_on id s e buffer buffer' events moves (inl x) =
    inl (Subscribed-step id s e buffer buffer' events moves x)
later_on id s e buffer buffer' events moves (inr c) =
    inr (CutOff-step id s e buffer buffer' events moves c)

received-own :
    (id : ℕ) (s : EntryStore) (buffer : List StreamMessage) (events : List StreamEvent)
    → channel id s.subscribers ≡ some buffer
    → let s' = (stream_step id s (StreamEvent.received id)).1 in
      ((rest : List StreamMessage)
        → channel id s'.subscribers ≡ some rest
        → Subscribed s' id rest events ⊎ CutOff s' id rest events)
      → Subscribed s id buffer (StreamEvent.received id ∷ events)
        ⊎ CutOff s id buffer (StreamEvent.received id ∷ events)
unfolding stream_step
received-own id s [] events there going =
    let (nothing, left) = receive_from-empty id s.subscribers there in
    let self : (id == id) ≡ true = ground arith in
    later_on id s (StreamEvent.received id) [] [] events
      (record { limit = refl; order = λ ms. rw (stream_step, self) (ap (λ x. x ++ ms) nothing) })
      (going [] left)
received-own id s (m ∷ buffer) events there going =
    let (oldest, left) = receive_from-first id m buffer s.subscribers there in
    let self : (id == id) ≡ true = ground arith in
    later_on id s (StreamEvent.received id) (m ∷ buffer) buffer events
      (record {
        limit = refl;
        order = λ ms. rw (stream_step, self) (ap (λ x. x ++ (buffer ++ ms)) oldest);
      })
      (going buffer left)

-- A reader of an open channel that receives as often as it likes, between sends and the receives of others, gets
-- every message that is sent, in order: what it has got and what waits in the channel are the messages that were there
-- and those sent. Only a message that finds the channel full closes it, and what waits there stays in it.
pub run_stream-delivers :
    (events : List StreamEvent) (s : EntryStore) (id : ℕ) (buffer : List StreamMessage)
    → channel id s.subscribers ≡ some buffer
    → Subscribed s id buffer events ⊎ CutOff s id buffer events
unfolding run_stream stream_step broadcast
run_stream-delivers [] s id buffer h =
    inl (record { rest = buffer; order = sym (append-nil buffer); open_still = h })
run_stream-delivers (StreamEvent.sent m ∷ events) s id buffer h =
    elim (Bool-cases (ltb (length buffer) s.stream_buffer)) [
      | inl room ↦
          later_on id s (StreamEvent.sent m) buffer (buffer ++ m ∷ []) events
            (record { limit = refl; order = λ ms. append_assoc buffer (m ∷ []) ms })
            (run_stream-delivers events (broadcast s m) id (buffer ++ m ∷ [])
              (channel-delivered s.stream_buffer id m buffer s.subscribers room h))
      | inr over ↦ inr (record {
        before = [];
        message = m;
        after = events;
        split = refl;
        until = record { rest = buffer; order = sym (append-nil buffer); open_still = h };
        full = ground arith;
        closed = IsIn-append (cut_off s.stream_buffer s.subscribers) s.closed_channels (
            cut_off-IsIn s.stream_buffer id buffer s.subscribers over
              (channel-IsIn id buffer s.subscribers h));
      })
    ]
run_stream-delivers (StreamEvent.received j ∷ events) s id buffer h = elim (Bool-cases (j == id)) [
  | inr other ↦
      later_on id s (StreamEvent.received j) buffer buffer events
        (record { limit = refl; order = λ ms. rw (stream_step, other) refl })
        (run_stream-delivers events (stream_step id s (StreamEvent.received j)).1 id buffer
          (receive_from-other id j s.subscribers other ∙ h))
  | inl own ↦
      let same : id ≡ j = ground arith in
      subst
        (λ k.
          Subscribed s id buffer (StreamEvent.received k ∷ events)
          ⊎ CutOff s id buffer (StreamEvent.received k ∷ events))
        same
        (received-own id s buffer events h
          (run_stream-delivers events (stream_step id s (StreamEvent.received id)).1 id))
]
