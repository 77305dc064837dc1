-- ===== src/Store/Query/Scope.antt =====
-- store.go: `scopeIDsLocked` and the entries below its root.
pub mod Visit
use mathlib.Core.Path.{subst}
use webpprof.Prelude.{
  ℕ, zero, suc, ◌+◌, ◌≤◌, ◌<◌, ◌≡◌, refl, sym, ap, ◌∙◌, String, str_eq, Bool, true, false, not,
  ◌&&◌, ◌||◌, Option, none, some, List, [], ◌∷◌, ◌++◌, length, if◌then◌else◌, arith, Bool-cases,
  inl, inr, ◌⊎◌, ◌↔◌, All,
}
use webpprof.Prelude.Assoc.{Assoc}
use webpprof.Prelude.Text.{Text, codes, text_eq, text_eq_sound, text_eq_refl}
use webpprof.Entry.{Entry}
use webpprof.Store.{EntryStore}
use webpprof.Prelude.Text.{trim_space}
use webpprof.Store.Query.{scope_ids, is_one_of, children_of, visit_children, visit}

-- `id` is among `ids`
abbrev pub In : Text → List Text → Type 0
In id ids = is_one_of id ids ≡ true

-- `id` is the root, or a child of an id that is reached
pub data Reached (entries : Assoc Entry) (root : Text) : Text → Type 0 where
  here : Reached entries root root
  below :
      {parent child : Text}
      → Reached entries root parent
      → In child (children_of parent entries)
      → Reached entries root child

pub In-cons : (id x : Text) (ids : List Text) → In id (x ∷ ids) → (id ≡ x) ⊎ In id ids
unfolding is_one_of
In-cons id x ids h = elim (Bool-cases (text_eq x id)) [
  | inl e ↦ inl (sym (text_eq_sound x id e))
  | inr e ↦ inr (ground arith)
]

pub In-empty : (x : Text) → In x [] → ⊥
unfolding is_one_of
In-empty x h = ground arith

pub In-head : (x : Text) (ids : List Text) → In x (x ∷ ids)
unfolding is_one_of
In-head x ids = let same = text_eq_refl x in ground arith

pub In-later : (id x : Text) (ids : List Text) → In id ids → In id (x ∷ ids)
unfolding is_one_of
In-later id x ids h = ground arith

-- the texts of the ids of the entries
abbrev pub entry_ids : Assoc Entry → List Text
entry_ids [] = []
entry_ids ((key, e) ∷ entries) = codes e.id ∷ entry_ids entries

pub children_of-entry_ids :
    (parent child : Text) (entries : Assoc Entry)
    → In child (children_of parent entries)
    → In child (entry_ids entries)
unfolding children_of
children_of-entry_ids parent child [] h = h
children_of-entry_ids parent child ((key, e) ∷ entries) h =
    elim (Bool-cases (
      not (str_eq e.parent_id "")
      && (not (str_eq e.id e.parent_id) && text_eq (codes e.parent_id) parent))) [
        | inl is_child ↦
            elim (In-cons child (codes e.id) (children_of parent entries)
              (rw (children_of, is_child) at h)) [
                | inl same ↦
                    subst (λ x. In child (x ∷ entry_ids entries)) same
                      (In-head child (entry_ids entries))
                | inr later ↦
                    In-later child (codes e.id) (entry_ids entries)
                      (children_of-entry_ids parent child entries later)
              ]
        | inr other ↦
            In-later child (codes e.id) (entry_ids entries)
              (children_of-entry_ids parent child entries (rw (children_of, other) at h))
      ]

-- how many entries have an id that is not among `ids`
abbrev pub fresh : List Text → List Text → ℕ
fresh ids [] = 0
fresh ids (x ∷ xs) = (if is_one_of x ids then 0 else 1) + fresh ids xs

fresh-cons : (ids xs : List Text) (x : Text) → fresh (x ∷ ids) xs ≤ fresh ids xs
unfolding is_one_of
fresh-cons ids [] x = omega arith
fresh-cons ids (y ∷ xs) x = ground (arith, fresh-cons ids xs x)

pub fresh-taken :
    (ids xs : List Text) (x : Text)
    → In x xs
    → is_one_of x ids ≡ false
    → suc (fresh (x ∷ ids) xs) ≤ fresh ids xs
fresh-taken ids [] x h new = absurd (In-empty x h)
fresh-taken ids (y ∷ xs) x h new = elim (In-cons x y xs h) [
  | inl same ↦
      let now = subst (λ z. In z (x ∷ ids)) same (In-head x ids) in
      let before : is_one_of y ids ≡ false = subst (λ z. is_one_of z ids ≡ false) same new in
      let rest = fresh-cons ids xs x in rw (now, before) (omega arith)
  | inr later ↦
      let rest = fresh-taken ids xs x later new in
      elim (Bool-cases (is_one_of y ids)) [
        | inl e ↦ let also = In-later y x ids e in rw (e, also) (omega arith)
        | inr e ↦ elim (Bool-cases (is_one_of y (x ∷ ids))) [
          | inl e' ↦ rw (e, e') (omega arith)
          | inr e' ↦ rw (e, e') (omega arith)
        ]
      ]
]
