-- ===== src/Capture/Conservation.antt =====
-- What the Log methods hand to the store.
use mathlib.Core.List.{append_assoc, append-nil, map-append}
use webpprof.Prelude.{
  ◌≡◌, refl, sym, ap, ◌∙◌, ◌++◌, map, String, Option, some, List, [], ◌∷◌, Bool-cases, Option-cases,
  inl, inr,
}
use webpprof.Prelude.Assoc.{Assoc}
use webpprof.Entry.{Entry, Kind}
use webpprof.Contracts.{Meta, Entity}
use webpprof.Capture.{is_among, Environment, Profiler, record_entity}
use webpprof.Capture.Tags.{attach_request}
use webpprof.Capture.LogRequest.{log_all}

-- an entity with its kind and metadata
pub record Item : Type 0 where
  pub kind : Kind
  pub base : Meta
  pub entity : Entity

-- the kind, request, tags and payload of an entry
abbrev pub Shown : Type 0
Shown = Kind × String × Assoc String × Option String

abbrev pub shown : List Entry → List Shown
shown = map (λ (e : Entry). (e.kind, e.request_id, e.tags, some e.payload))

-- what is expected of the entries of some entities: their payload is the redacted document of the entity
abbrev pub made : Environment → List Item → List Shown
made env =
    map (λ (i : Item). (i.kind, i.base.request_id, i.base.tags, env.marshal_redacted i.entity))

-- every kind is recorded, and every value can be marshalled
pub record RecordsAll (env : Environment) : Type 0 where
  pub kinds : env.config.disabled_kinds ≡ []
  pub marshals : (e : Entity) → (text : String) × (env.marshal_redacted e ≡ some text)

-- `f` leaves the captures, and hands these entities to the store, in this order, if every kind is recorded
pub record Hands (env : Environment) (items : List Item) (f : Profiler → Profiler) : Type 0 where
  pub puts : RecordsAll env → (p : Profiler) → shown (f p).puts ≡ shown p.puts ++ made env items
  pub captures : (p : Profiler) → (f p).captures ≡ p.captures

pub Hands-then :
    {env : Environment} {xs ys : List Item} {f g : Profiler → Profiler}
    → Hands env xs f
    → Hands env ys g
    → Hands env (xs ++ ys) (λ p. g (f p))
Hands-then {env} {xs} {ys} {f} {g} a b = record {
  puts = λ all p.
      b.puts all (f p)
      ∙ (ap (λ zs. zs ++ made env ys) (a.puts all p)
          ∙ (append_assoc (shown p.puts) (made env xs) (made env ys)
              ∙ ap (λ zs. shown p.puts ++ zs) (sym (map-append _ xs ys))));
  captures = λ p. b.captures (f p) ∙ a.captures p;
}

pub record_entity-Hands :
    (env : Environment) (kind : Kind) (meta : Meta) (e : Entity)
    → Hands env
        (record { kind = kind; base = meta; entity = e } ∷ [])
        (λ p. record_entity env p kind meta e)
unfolding record_entity
record_entity-Hands env kind meta e = record {
  puts = λ all p. rw (all.kinds, (all.marshals e).1) (map-append _ p.puts _);
  captures = λ p. elim (Bool-cases (is_among kind env.config.disabled_kinds)) [
    | inl disabled ↦ rw disabled
    | inr enabled ↦ elim (Option-cases (env.marshal_redacted e)) [
      | inl failed ↦ rw (enabled, failed)
      | inr (text, made) ↦ rw (enabled, made)
    ]
  ];
}

-- the entities of a request, attached to it
abbrev pub attached {ℓ} :
    {A : Type ℓ} → (A → Meta) → (Meta → A → A) → String → Assoc String → List A → List A
attached base with_base id tags = map (λ x. with_base (attach_request (base x) id tags) x)

module _ {ℓ} {A : Type ℓ} (env : Environment) (base : A → Meta) (with_base : Meta → A → A)
    (log : Profiler → A → Profiler) (item : A → Item)
    (one : (x : A) → Hands env (item x ∷ []) (λ p. log p x)) where
  pub log_all-Hands :
      (id : String) (tags : Assoc String) (xs : List A)
      → Hands env
          (map item (attached base with_base id tags xs))
          (λ p. log_all base with_base log p id tags xs)
  unfolding log_all
  log_all-Hands id tags [] = record {
    puts = λ all p. sym (append-nil (shown p.puts));
    captures = λ p. refl;
  }
  log_all-Hands id tags (x ∷ xs) =
      let y = with_base (attach_request (base x) id tags) x in
      Hands-then (one y) (log_all-Hands id tags xs)
