-- ===== src/Store/Streams/Channels.antt =====
-- The channel of a subscriber through a message and a receive.
use webpprof.Prelude.{
  ℕ, ◌≡◌, inl, inr, refl, ap, ◌∙◌, sym, false, Option, none, some, List, [], ◌∷◌, ◌++◌, length, ltb,
  arith, Bool-cases, true, ◌==◌, if◌then◌else◌,
}
use webpprof.Store.{StreamMessage, Subscriber, delivered, cut_off}
use webpprof.Store.Streams.{receive_from}

module _ {ℓ} {A : Type ℓ} where
  pub data IsIn (x : A) : List A → Type ℓ where
    first : {y : A} {ys : List A} → x ≡ y → IsIn x (y ∷ ys)
    later : {y : A} {ys : List A} → IsIn x ys → IsIn x (y ∷ ys)

  pub IsIn-append : {x : A} (xs ys : List A) → IsIn x xs → IsIn x (xs ++ ys)
  IsIn-append [] ys i = elim i [ ]
  IsIn-append (z ∷ xs) ys (first e) = first e
  IsIn-append (z ∷ xs) ys (later i) = later (IsIn-append xs ys i)

-- what waits in the channel of an id
unfoldable pub channel : ℕ → List Subscriber → Option (List StreamMessage)
channel id [] = none
channel id ((j, buffer) ∷ subs) =
    let rest = channel id subs in if j == id then some buffer else rest

pub channel-IsIn :
    (id : ℕ) (buffer : List StreamMessage) (subs : List Subscriber)
    → channel id subs ≡ some buffer
    → IsIn (id, buffer) subs
unfolding channel
channel-IsIn id buffer [] h = cc
channel-IsIn id buffer ((j, b) ∷ subs) h = elim (Bool-cases (j == id)) [
  | inl e ↦
      let same : some b ≡ some buffer = rw e at h in
      let named : j ≡ id = ground arith in
      IsIn.first (ap (λ n. (n, buffer)) (sym named) ∙ ap (λ x. (j, x)) (cc same))
  | inr e ↦
      let there : channel id subs ≡ some buffer = rw e at h in
      IsIn.later (channel-IsIn id buffer subs there)
]

-- A channel with room gets the message;
pub channel-delivered :
    (size id : ℕ) (m : StreamMessage) (buffer : List StreamMessage) (subs : List Subscriber)
    → ltb (length buffer) size ≡ true
    → channel id subs ≡ some buffer
    → channel id (delivered size m subs) ≡ some (buffer ++ m ∷ [])
unfolding channel delivered
channel-delivered size id m buffer [] room h = cc
channel-delivered size id m buffer ((j, b) ∷ subs) room h = elim (Bool-cases (j == id)) [
  | inl e ↦
      let same : some b ≡ some buffer = rw e at h in
      let equal : b ≡ buffer = cc same in
      rw (ap (λ x. ltb (length x) size) equal ∙ room, e) (ap (λ x. some (x ++ m ∷ [])) equal)
  | inr e ↦
      let there : channel id subs ≡ some buffer = rw e at h in
      let ih = channel-delivered size id m buffer subs room there in
      elim (Bool-cases (ltb (length b) size)) [ inl fits ↦ rw (fits, e) ih | inr full ↦ rw full ih ]
]

-- a receive takes the message that was sent first, and from no other channel.
pub receive_from-empty :
    (id : ℕ) (subs : List Subscriber)
    → channel id subs ≡ some []
    → ((receive_from id subs).0 ≡ []) × (channel id (receive_from id subs).1 ≡ some [])
unfolding channel receive_from
receive_from-empty id [] h = cc
receive_from-empty id ((j, []) ∷ subs) h = elim (Bool-cases (j == id)) [
  | inl e ↦ rw e (refl, rw e refl)
  | inr e ↦
      let there : channel id subs ≡ some [] = rw e at h in
      let ih = receive_from-empty id subs there in rw e (ih.0, rw e ih.1)
]
receive_from-empty id ((j, x ∷ b) ∷ subs) h = elim (Bool-cases (j == id)) [
  | inl e ↦ let same : some (x ∷ b) ≡ some [] = rw e at h in cc same
  | inr e ↦
      let there : channel id subs ≡ some [] = rw e at h in
      let ih = receive_from-empty id subs there in rw e (ih.0, rw e ih.1)
]

pub receive_from-first :
    (id : ℕ) (m : StreamMessage) (buffer : List StreamMessage) (subs : List Subscriber)
    → channel id subs ≡ some (m ∷ buffer)
    → ((receive_from id subs).0 ≡ m ∷ []) × (channel id (receive_from id subs).1 ≡ some buffer)
unfolding channel receive_from
receive_from-first id m buffer [] h = cc
receive_from-first id m buffer ((j, []) ∷ subs) h = elim (Bool-cases (j == id)) [
  | inl e ↦ let same : some [] ≡ some (m ∷ buffer) = rw e at h in cc same
  | inr e ↦
      let there : channel id subs ≡ some (m ∷ buffer) = rw e at h in
      let ih = receive_from-first id m buffer subs there in rw e (ih.0, rw e ih.1)
]
receive_from-first id m buffer ((j, x ∷ b) ∷ subs) h = elim (Bool-cases (j == id)) [
  | inl e ↦
      let same : some (x ∷ b) ≡ some (m ∷ buffer) = rw e at h in rw e (cc same, rw e (cc same))
  | inr e ↦
      let there : channel id subs ≡ some (m ∷ buffer) = rw e at h in
      let ih = receive_from-first id m buffer subs there in rw e (ih.0, rw e ih.1)
]

pub receive_from-other :
    (id j : ℕ) (subs : List Subscriber)
    → (j == id) ≡ false
    → channel id (receive_from j subs).1 ≡ channel id subs
unfolding channel receive_from
receive_from-other id j [] ne = refl
receive_from-other id j ((k, []) ∷ subs) ne = elim (Bool-cases (k == j)) [
  | inl e ↦ rw e refl
  | inr e ↦ rw e (ap (λ x. if k == id then some [] else x) (receive_from-other id j subs ne))
]
receive_from-other id j ((k, x ∷ b) ∷ subs) ne = elim (Bool-cases (k == j)) [
  | inl e ↦ let apart : (k == id) ≡ false = ground arith in rw (e, apart) refl
  | inr e ↦ rw e (ap (λ y. if k == id then some (x ∷ b) else y) (receive_from-other id j subs ne))
]

-- A channel without room is closed as it is.
pub cut_off-IsIn :
    (size id : ℕ) (buffer : List StreamMessage) (subs : List Subscriber)
    → ltb (length buffer) size ≡ false
    → IsIn (id, buffer) subs
    → IsIn (id, buffer) (cut_off size subs)
unfolding cut_off
cut_off-IsIn size id buffer [] full i = elim i [ ]
cut_off-IsIn size id buffer ((j, b) ∷ subs) full (first e) =
    rw (ap (λ x. ltb (length x.1) size) (sym e) ∙ full) (first e)
cut_off-IsIn size id buffer ((j, b) ∷ subs) full (later i) =
    elim (Bool-cases (ltb (length b) size)) [
      | inl fits ↦ rw fits (cut_off-IsIn size id buffer subs full i)
      | inr over ↦ rw over (later (cut_off-IsIn size id buffer subs full i))
    ]
