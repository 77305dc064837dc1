-- ===== src/Redact/Keys.antt =====
-- Which keys `isSensitiveKey` takes, and that a second redaction changes nothing.
use webpprof.Prelude.{
  ◌⊎◌, ◌↔◌, ◌≡◌, refl, ap, ap₂, inl, inr, Bool, true, false, ◌||◌, Bool-cases, if◌then◌else◌, arith,
  List, [], ◌∷◌, ◌++◌,
}
use webpprof.Prelude.Text.{
  Text, text_eq, has_suffix, has_suffix-append, text_eq_refl, text_eq_sound, has_suffix_sound,
}
use webpprof.Redact.{
  Value, Items, Fields, null, bool, number, text, array, object, nil, item, end, field,
  is_sensitive_key, redact, redact_items, redact_fields, redacted_value, redacted_items,
  redacted_fields, names_one_of, normalized, sensitive_keys,
}

-- `a` is one of the texts.
abbrev pub OneOf : Text → List Text → Type 0
OneOf a [] = ⊥
OneOf a (b ∷ rest) = (a ≡ b) ⊎ OneOf a rest

-- A name that is a secret's: one of the ten, alone or behind a `_`.
pub data IsSecretName (key : Text) : Type 0 where
  exact : (name : Text) → OneOf name sensitive_keys → key ≡ name → IsSecretName key
  behind :
      (prefix name : Text)
      → OneOf name sensitive_keys
      → key ≡ prefix ++ b'_' ∷ name
      → IsSecretName key

-- one key of the list is met
data Met (key : Text) (keys : List Text) : Type 0 where
  whole : (name : Text) → OneOf name keys → key ≡ name → Met key keys
  tail : (prefix name : Text) → OneOf name keys → key ≡ prefix ++ b'_' ∷ name → Met key keys

Met-later : (key k : Text) (keys : List Text) → Met key keys → Met key (k ∷ keys)
Met-later key k keys (whole name o e) = whole name (inr o) e
Met-later key k keys (tail p name o e) = tail p name (inr o) e

Met-first :
    (key k : Text) (keys : List Text)
    → text_eq key k || has_suffix key (b'_' ∷ k) ≡ true
    → Met key (k ∷ keys)
Met-first key k keys h = elim (Bool-cases (text_eq key k)) [
  | inl e ↦ whole k (inl refl) (text_eq_sound key k e)
  | inr e ↦ let (p, q) = has_suffix_sound key (b'_' ∷ k) (ground arith) in tail p k (inl refl) q
]

names_sound : (key : Text) (keys : List Text) → names_one_of key keys ≡ true → Met key keys
unfolding names_one_of
names_sound key [] h = cc
names_sound key (k ∷ keys) h = elim (Bool-cases (names_one_of key keys)) [
  | inl e ↦ Met-later key k keys (names_sound key keys e)
  | inr e ↦ Met-first key k keys (ground arith)
]

names_complete : (key : Text) (keys : List Text) → Met key keys → names_one_of key keys ≡ true
unfolding names_one_of
names_complete key [] (whole name o e) = elim o [ ]
names_complete key [] (tail p name o e) = elim o [ ]
names_complete key (k ∷ keys) (whole name (inl o) e) = ground (arith, text_eq_refl k)
names_complete key (k ∷ keys) (whole name (inr o) e) =
    ground (arith, names_complete key keys (whole name o e))
names_complete key (k ∷ keys) (tail p name (inl o) e) =
    ground (arith, has_suffix-append p (b'_' ∷ k))
names_complete key (k ∷ keys) (tail p name (inr o) e) =
    ground (arith, names_complete key keys (tail p name o e))

to_secret : (key : Text) → Met key sensitive_keys → IsSecretName key
to_secret key (whole name o e) = exact name o e
to_secret key (tail p name o e) = behind p name o e

of_secret : (key : Text) → IsSecretName key → Met key sensitive_keys
of_secret key (exact name o e) = whole name o e
of_secret key (behind p name o e) = tail p name o e

-- `isSensitiveKey` takes exactly the keys that, trimmed, in lower case and with `-` and `.` read as
-- `_`, are one of the ten names or end in `_` and one of them.
pub is_sensitive_key_iff :
    (key : Text) → (is_sensitive_key key ≡ true) ↔ IsSecretName (normalized key)
unfolding is_sensitive_key
is_sensitive_key_iff key = (
  λ h. to_secret (normalized key) (names_sound (normalized key) sensitive_keys h),
  λ h. names_complete (normalized key) sensitive_keys (of_secret (normalized key) h),
)

mutual
  unfolding redacted_value

  hidden_twice : (v : Value) → redacted_value (redacted_value v) ≡ redacted_value v
  hidden_twice null = refl
  hidden_twice (bool b) = refl
  hidden_twice (number n) = refl
  hidden_twice (text s) = refl
  hidden_twice (array xs) = ap array (hidden_items xs)
  hidden_twice (object fs) = ap object (hidden_fields fs)

  hidden_items : (xs : Items) → redacted_items (redacted_items xs) ≡ redacted_items xs
  hidden_items nil = refl
  hidden_items (item v xs) = ap₂ item (hidden_twice v) (hidden_items xs)

  hidden_fields : (fs : Fields) → redacted_fields (redacted_fields fs) ≡ redacted_fields fs
  hidden_fields end = refl
  hidden_fields (field k v fs) = ap₂ (field k) (hidden_twice v) (hidden_fields fs)

twice :
    (b : Bool) (v : Value)
    → redact (redact v) ≡ redact v
    → (if b
        then redacted_value (if b then redacted_value v else redact v)
        else redact (if b then redacted_value v else redact v))
      ≡ (if b then redacted_value v else redact v)
twice true v h = hidden_twice v
twice false v h = h

mutual
  unfolding redact

  again_value : (v : Value) → redact (redact v) ≡ redact v
  again_value null = refl
  again_value (bool b) = refl
  again_value (number n) = refl
  again_value (text s) = refl
  again_value (array xs) = ap array (again_items xs)
  again_value (object fs) = ap object (again_fields fs)

  again_items : (xs : Items) → redact_items (redact_items xs) ≡ redact_items xs
  again_items nil = refl
  again_items (item v xs) = ap₂ item (again_value v) (again_items xs)

  again_fields : (fs : Fields) → redact_fields (redact_fields fs) ≡ redact_fields fs
  again_fields end = refl
  again_fields (field k v fs) =
      ap₂ (field k) (twice (is_sensitive_key k) v (again_value v)) (again_fields fs)

-- A second `redact` changes nothing.
redact_idem : (v : Value) → redact (redact v) ≡ redact v
redact_idem v = again_value v
