-- ===== src/Store/Query/Newest.antt =====
-- What `listBeforeFiltered` lists.
use mathlib.Core.List.{reverse, reverse_aux}
use webpprof.Prelude.{
  ℕ, zero, suc, ◌+◌, ◌≤◌, ◌<◌, ◌≡◌, Bool, ◌&&◌, List, [], ◌∷◌, length, get_or, take, filter, refl,
  ap, ◌∙◌, arith, Bool-cases, inl, inr, String, Option,
}
use webpprof.Prelude.Text.{Text}
use webpprof.Entry.{Entry, zero_entry}
use webpprof.Store.{EntryStore, purge_expired}
use webpprof.Store.Window.{expire}
use webpprof.Store.Holds.{Holds, count-Holds}
use webpprof.Store.Bounds.{cutoff}
use webpprof.Store.Evict.{purge_expired-Evicted}
use webpprof.Store.Positions.{entry_at-index}
use webpprof.Store.Query.{
  EventFilters, RequestLine, scan, list_before_filtered, in_range, in_scope, scope_ids,
  effective_limit, matches_event_filters,
}

-- the first `n` of `w`, the last of them first
abbrev down : List Entry → ℕ → List Entry
down w zero = []
down w (suc n) = get_or w n zero_entry ∷ down w n

scan-down :
    (s : EntryStore) (w : List Entry) (ranged wanted : Entry → Bool) (n room : ℕ)
    → Holds s w
    → n ≤ length w
    → (scan s ranged wanted n room).0 ≡ take room (filter (λ e. ranged e && wanted e) (down w n))
unfolding scan
scan-down s w ranged wanted zero zero h le = refl
scan-down s w ranged wanted zero (suc room) h le = refl
scan-down s w ranged wanted (suc n) zero h le = refl
scan-down s w ranged wanted (suc n) (suc room) h le =
    rw (entry_at-index s w n h (omega arith)) elim (Bool-cases (ranged e && wanted e)) [
      | inl found ↦ rw found (ap (◌∷◌ e) (scan-down s w ranged wanted n room h (omega arith)))
      | inr other ↦ rw other (scan-down s w ranged wanted n (suc room) h (omega arith))
    ]
  where
    e : Entry
    e = get_or w n zero_entry

down-from :
    (w u : List Entry) (i : ℕ)
    → ((k : ℕ) → k < length u → get_or w (i + k) zero_entry ≡ get_or u k zero_entry)
    → down w (i + length u) ≡ reverse_aux u (down w i)
down-from w [] i h = ap (down w) (omega arith)
down-from w (e ∷ u) i h =
    ap (down w) (omega arith)
    ∙ down-from w u (suc i)
        (λ k less. ap (λ j. get_or w j zero_entry) (omega arith) ∙ h (suc k) (omega arith))
    ∙ ap (λ x. reverse_aux u (x ∷ down w i))
        (ap (λ j. get_or w j zero_entry) (omega arith) ∙ h 0 (omega arith))

down-reverse : (w : List Entry) → down w (length w) ≡ reverse w
down-reverse w =
    ap (down w) (omega arith)
    ∙ down-from w w 0 (λ k less. ap (λ j. get_or w j zero_entry) (omega arith))

module _ (to_lower : Text → Text) (equal_fold : Text → Text → Bool)
    (decode_request : String → Option RequestLine) where
  -- what a listing from a store that holds `w` looks for
  abbrev pub is_listed : EntryStore → EventFilters → Entry → Bool
  is_listed s f e =
      in_range f e
      && (in_scope (scope_ids s f.scope_id) e
          && matches_event_filters to_lower equal_fold decode_request e f)

  -- `listBeforeFiltered` returns the newest entries that match, as many as the limit allows, oldest first, from the
  -- window without the entries at its front that were recorded before the cutoff; an entry behind a younger one stays,
  -- however old it is.
  pub list-newest :
      (s : EntryStore) (w : List Entry) (f : EventFilters) (limit now : ℕ)
      → Holds s w
      → (list_before_filtered to_lower equal_fold decode_request s f limit now).0
        ≡ reverse (
            take
              (effective_limit limit)
              (filter (is_listed (purge_expired s now).1 f) (reverse (expire (cutoff s now) w))))
  unfolding list_before_filtered
  list-newest s w f limit now h =
      let p = purge_expired-Evicted s w now h in
      let live = expire (cutoff s now) w in
      let t = (purge_expired s now).1 in
      ap reverse (
        ap
          (λ n.
            (scan t (in_range f)
              (λ e.
                in_scope (scope_ids t f.scope_id) e
                && matches_event_filters to_lower equal_fold decode_request e f)
              n (effective_limit limit)).0)
          (count-Holds p.holds)
        ∙ scan-down t live (in_range f)
            (λ e.
              in_scope (scope_ids t f.scope_id) e
              && matches_event_filters to_lower equal_fold decode_request e f)
            (length live) (effective_limit limit) p.holds (omega arith)
        ∙ ap (λ u. take (effective_limit limit) (filter (is_listed t f) u)) (down-reverse live))
