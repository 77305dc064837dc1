-- ===== src/Store/Reads.antt =====
-- store.go: the reads of `entryStore`. Each purges first, and hands the purge's records to `persist`.
use mathlib.Core.Option
use webpprof.Prelude.{
  ℕ, zero, suc, String, str_eq, Bool, ◌||◌, Option, List, [], ◌∷◌, if◌then◌else◌,
}
use webpprof.Prelude.Assoc.{lookup}
use webpprof.Order
use webpprof.Entry.{Entry}
use webpprof.Store.{EntryStore, StorageBatch, storage_batch, purge_expired, entry_at}

-- `get`; the copy that it returns is the same value
unfoldable pub get : EntryStore → String → ℕ → Option Entry × StorageBatch × EntryStore
get s id now =
    let (records, s') = purge_expired s now in
    let (batch, s'') = storage_batch s' records in (lookup id s'.entries, batch, s'')

-- a loop `for index := 0; index < s.order.len(); index++` that collects entries: `rounds`
-- iterations, from `index` on
unfoldable pub collect : EntryStore → (Entry → Bool) → ℕ → ℕ → List Entry
collect s wanted zero index = []
collect s wanted (suc rounds) index =
    let entry = entry_at s (Order.at s.order index) in
    let rest = collect s wanted rounds (suc index) in if wanted entry then entry ∷ rest else rest

-- the condition of the loop of `requestEntries`
unfoldable pub belongs_to : String → Entry → Bool
belongs_to request_id e =
    str_eq e.id request_id
    || (str_eq e.request_id request_id || str_eq e.origin_request_id request_id)

unfoldable pub request_entries :
    EntryStore → String → ℕ → Option (Entry × List Entry) × StorageBatch × EntryStore
request_entries s request_id now =
    let (records, s') = purge_expired s now in
    let (batch, s'') = storage_batch s' records in
    let entries = collect s' (belongs_to request_id) s'.order.count 0 in
    (Option.map (λ request. (request, entries)) (lookup request_id s'.entries), batch, s'')
