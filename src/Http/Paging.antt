-- ===== src/Http/Paging.antt =====
-- http.go: what a page of `listEvents` holds.
use mathlib.Core.List.{reverse, reverse_aux}
use webpprof.Prelude.{
  ℕ, zero, suc, ◌+◌, ◌≤◌, ◌<◌, ◌≡◌, refl, ap, ◌∙◌, String, Bool, true, false, Option, List, [], ◌∷◌,
  length, ltb, take, filter, ℤ, pos, negsuc, arith, Bool-cases, lt→ltb, ltb→lt, sym, inl, inr,
}
use webpprof.Prelude.Text.{Text}
use webpprof.Entry.{Entry}
use webpprof.Store.{EntryStore, purge_expired}
use webpprof.Store.Window.{expire}
use webpprof.Store.Holds.{Holds}
use webpprof.Store.Bounds.{cutoff}
use webpprof.Store.Query.{EventFilters, RequestLine, effective_limit, list_before_filtered}
use webpprof.Store.Query.Newest.{is_listed, list-newest}
use webpprof.Http.Listing.{page_limit, page_of, without_first, list_events}

page_limit-bounds : (limit : ℤ) → (1 ≤ page_limit limit) × (page_limit limit ≤ 1000)
page_limit-bounds (negsuc n) = (omega arith, omega arith)
page_limit-bounds (pos n) = ground arith

length-reverse_aux {ℓ} :
    {A : Type ℓ} (xs ys : List A) → length (reverse_aux xs ys) ≡ length xs + length ys
length-reverse_aux [] ys = omega arith
length-reverse_aux (x ∷ xs) ys = length-reverse_aux xs (x ∷ ys) ∙ omega arith

length-take : (n : ℕ) (xs : List Entry) → n ≤ length xs → length (take n xs) ≡ n
length-take zero xs h = refl
length-take (suc n) [] h = omega arith
length-take (suc n) (x ∷ xs) h = ap suc (length-take n xs (omega arith))

take_all : (n : ℕ) (xs : List Entry) → length xs ≤ n → take n xs ≡ xs
take_all zero [] h = refl
take_all zero (x ∷ xs) h = absurd (omega arith)
take_all (suc n) [] h = refl
take_all (suc n) (x ∷ xs) h = ap (◌∷◌ x) (take_all n xs (omega arith))

without_first-reverse_aux :
    (n : ℕ) (xs ys : List Entry)
    → n < length xs
    → without_first (reverse_aux (take (suc n) xs) ys) ≡ reverse_aux (take n xs) ys
without_first-reverse_aux n [] ys h = absurd (omega arith)
without_first-reverse_aux zero (x ∷ xs) ys h = refl
without_first-reverse_aux (suc n) (x ∷ xs) ys h =
    without_first-reverse_aux n xs (x ∷ ys) (omega arith)

-- one more than asked for is read, and the oldest of them left out
page-take :
    (limit scanned : ℕ) (xs : List Entry)
    → let page = page_of limit (reverse (take (suc limit) xs)) scanned in
      (page.events ≡ reverse (take limit xs)) × (page.has_more ≡ ltb limit (length xs))
page-take limit scanned xs =
    let size = length-reverse_aux (take (suc limit) xs) [] in
    elim (Bool-cases (ltb limit (length xs))) [
      | inl more ↦
          let h = ltb→lt limit (length xs) more in
          let full = length-take (suc limit) xs (omega arith) in
          let m : ltb limit (length (reverse (take (suc limit) xs))) ≡ true =
            lt→ltb limit (length (reverse (take (suc limit) xs))) (omega arith) in
          (rw m (without_first-reverse_aux limit xs [] h), m ∙ sym more)
      | inr all ↦
          let h : length xs ≤ limit = ground arith in
          let whole = take_all (suc limit) xs (omega arith) in
          let m : ltb limit (length (reverse (take (suc limit) xs))) ≡ false =
            ap (λ ys. ltb limit (length (reverse ys))) whole
            ∙ ap (ltb limit) (length-reverse_aux xs [] ∙ omega arith)
            ∙ all in
          (rw m (ap reverse (whole ∙ sym (take_all limit xs h))), m ∙ sym all)
    ]

module _ (to_lower : Text → Text) (equal_fold : Text → Text → Bool)
    (decode_request : String → Option RequestLine) where
  -- what a page is taken from: the entries that match, newest first, without those that a purge takes from the
  -- front of the window
  abbrev pub matching : EntryStore → List Entry → EventFilters → ℕ → List Entry
  matching s w f now =
      filter (is_listed to_lower equal_fold decode_request (purge_expired s now).1 f)
        (reverse (expire (cutoff s now) w))

  -- A page of `listEvents` holds the newest entries that match, oldest first and as many as the limit, which is 200 where
  -- it is not from 1 to 1000, from the window without the entries at its front that were recorded before the
  -- cutoff; `has_more` tells whether there are more of them than that.
  pub list_events-page :
      (s : EntryStore) (w : List Entry) (f : EventFilters) (limit : ℤ) (now : ℕ)
      → Holds s w
      → let page = (list_events to_lower equal_fold decode_request s f limit now).0 in
        let found = matching s w f now in
        (page.events ≡ reverse (take (page_limit limit) found))
        × (page.has_more ≡ ltb (page_limit limit) (length found))
  unfolding list_events
  list_events-page s w f limit now h =
      let (low, high) = page_limit-bounds limit in
      let listed =
        list-newest to_lower equal_fold decode_request s w f (page_limit limit + 1) now h in
      let enough : effective_limit (page_limit limit + 1) ≡ suc (page_limit limit) = ground arith in
      let scanned =
        (list_before_filtered to_lower equal_fold decode_request s f (page_limit limit + 1)
          now).1 in
      rw (list_events, listed, enough) (page-take (page_limit limit) scanned (matching s w f now))
