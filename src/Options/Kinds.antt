-- ===== src/Options/Kinds.antt =====
-- options.go: the sets and lists of kinds, and of origins, that the options collect.
use webpprof.Prelude.{
  ◌≡◌, refl, true, false, not, ◌||◌, List, [], ◌∷◌, All, arith, Bool-cases, inl, inr, eq_iff,
}
use webpprof.Prelude.Text.{Text, text_eq, trim_space}
use webpprof.Entry.{Kind, kind_text, is_kind}
use webpprof.Capture.{supports_callsite}
use webpprof.Options.{has_kind, add_kind, remove_kind}
use webpprof.Options.Settings.{
  supports_sidebar, collect_sidebar, collect_callsite, has_origin, collect_origins,
}

abbrev pub Callsites : List Kind → Type 0
Callsites = All (λ k. supports_callsite k ≡ true)

add_kind-Callsites :
    (k : Kind) (kinds : List Kind)
    → supports_callsite k ≡ true
    → Callsites kinds
    → Callsites (add_kind k kinds)
unfolding add_kind
add_kind-Callsites k kinds s all = elim (Bool-cases (has_kind k kinds)) [
  | inl e ↦ rw (add_kind, e) all
  | inr e ↦ rw (add_kind, e) (s, all)
]

pub add_query-Callsites :
    (kinds : List Kind) → Callsites kinds → Callsites (add_kind Kind.query kinds)
unfolding supports_callsite kind_text
add_query-Callsites kinds all = add_kind-Callsites Kind.query kinds refl all

pub remove_kind-Callsites :
    (k : Kind) (kinds : List Kind) → Callsites kinds → Callsites (remove_kind k kinds)
unfolding remove_kind
remove_kind-Callsites k [] all = tt
remove_kind-Callsites k (kind ∷ kinds) (here, all) = elim (Bool-cases (is_kind kind k)) [
  | inl e ↦ rw (remove_kind, e) (remove_kind-Callsites k kinds all)
  | inr e ↦ rw (remove_kind, e) (here, remove_kind-Callsites k kinds all)
]

pub collect_callsite-Callsites :
    (kinds kept : List Kind) → Callsites kept → Callsites (collect_callsite kinds kept)
unfolding collect_callsite
collect_callsite-Callsites [] kept all = all
collect_callsite-Callsites (k ∷ kinds) kept all = elim (Bool-cases (supports_callsite k)) [
  | inl e ↦
      rw (collect_callsite, e)
        (collect_callsite-Callsites kinds (add_kind k kept) (add_kind-Callsites k kept e all))
  | inr e ↦ rw (collect_callsite, e) (collect_callsite-Callsites kinds kept all)
]

-- each kind has a section in the sidebar, and none comes twice
abbrev pub Sidebar : List Kind → Type 0
Sidebar [] = Unit
Sidebar (k ∷ kinds) =
    (supports_sidebar k ≡ true) × All (λ kind. is_kind kind k ≡ false) kinds × Sidebar kinds

-- none of `kinds` is among `seen`
abbrev pub New : List Kind → List Kind → Type 0
New seen = All (λ k. has_kind k seen ≡ false)

is_kind_sym : (k kind : Kind) → is_kind k kind ≡ false → is_kind kind k ≡ false
is_kind_sym k kind h =
    ground (arith, eq_iff (kind_text k) (kind_text kind), eq_iff (kind_text kind) (kind_text k))

weaken-New : (k : Kind) (seen kinds : List Kind) → New (k ∷ seen) kinds → New seen kinds
weaken-New k seen [] all = tt
weaken-New k seen (kind ∷ kinds) (here, all) = (ground arith, weaken-New k seen kinds all)

New-differs :
    (k : Kind) (seen kinds : List Kind)
    → New (k ∷ seen) kinds
    → All (λ kind. is_kind kind k ≡ false) kinds
New-differs k seen [] all = tt
New-differs k seen (kind ∷ kinds) (here, all) =
    (is_kind_sym k kind (ground arith), New-differs k seen kinds all)

collect_sidebar-New :
    (kinds seen : List Kind)
    → New seen (collect_sidebar kinds seen) × Sidebar (collect_sidebar kinds seen)
unfolding collect_sidebar
collect_sidebar-New [] seen = (tt, tt)
collect_sidebar-New (k ∷ kinds) seen =
    elim (Bool-cases (not (supports_sidebar k) || has_kind k seen)) [
      | inl e ↦ rw (collect_sidebar, e) (collect_sidebar-New kinds seen)
      | inr e ↦
          let (new, rest) = collect_sidebar-New kinds (k ∷ seen) in
          rw (collect_sidebar, e)
            (
              (ground arith, weaken-New k seen (collect_sidebar kinds (k ∷ seen)) new),
              (ground arith, New-differs k seen (collect_sidebar kinds (k ∷ seen)) new, rest),
            )
    ]

pub collect_sidebar-Sidebar : (kinds : List Kind) → Sidebar (collect_sidebar kinds [])
collect_sidebar-Sidebar kinds = (collect_sidebar-New kinds []).1

abbrev pub Origins : List Text → Type 0
Origins = All (λ origin. text_eq origin [] ≡ false)

pub collect_origins-Origins :
    (origins kept : List Text) → Origins kept → Origins (collect_origins origins kept)
unfolding collect_origins
collect_origins-Origins [] kept all = all
collect_origins-Origins (o ∷ origins) kept all = elim (Bool-cases (text_eq (trim_space o) [])) [
  | inl e ↦ rw (collect_origins, e) (collect_origins-Origins origins kept all)
  | inr e ↦ elim (Bool-cases (has_origin (trim_space o) kept)) [
    | inl seen ↦ rw (collect_origins, e, seen) (collect_origins-Origins origins kept all)
    | inr new ↦
        rw (collect_origins, e, new)
          (collect_origins-Origins origins (trim_space o ∷ kept) (e, all))
  ]
]
