-- ===== src/Redact/Secrets.antt =====
-- What redaction hides and what it keeps.
use webpprof.Prelude.{◌≡◌, refl, Bool, true, false, if◌then◌else◌}
use webpprof.Redact.{
  Value, Items, Fields, null, bool, number, text, array, object, nil, item, end, field, redacted,
  is_sensitive_key, redact, redact_items, redact_fields, redacted_value, redacted_items,
  redacted_fields,
}

-- No scalar but null and the mark.
abbrev mutual
  pub Masked : Value → Type 0
  Masked null = Unit
  Masked (bool b) = ⊥
  Masked (number n) = ⊥
  Masked (text s) = s ≡ redacted
  Masked (array xs) = MaskedItems xs
  Masked (object fs) = MaskedFields fs

  pub MaskedItems : Items → Type 0
  MaskedItems nil = Unit
  MaskedItems (item v xs) = Masked v × MaskedItems xs

  pub MaskedFields : Fields → Type 0
  MaskedFields end = Unit
  MaskedFields (field k v fs) = Masked v × MaskedFields fs

-- Under every sensitive key, at any depth, only nulls and marks are left.
abbrev mutual
  pub HidesSecrets : Value → Type 0
  HidesSecrets null = Unit
  HidesSecrets (bool b) = Unit
  HidesSecrets (number n) = Unit
  HidesSecrets (text s) = Unit
  HidesSecrets (array xs) = ItemsHide xs
  HidesSecrets (object fs) = FieldsHide fs

  pub ItemsHide : Items → Type 0
  ItemsHide nil = Unit
  ItemsHide (item v xs) = HidesSecrets v × ItemsHide xs

  pub FieldsHide : Fields → Type 0
  FieldsHide end = Unit
  FieldsHide (field k v fs) =
      (if is_sensitive_key k then Masked v else HidesSecrets v) × FieldsHide fs

mutual
  unfolding redacted_value

  redacted_value-Masked : (v : Value) → Masked (redacted_value v)
  redacted_value-Masked null = tt
  redacted_value-Masked (bool b) = refl
  redacted_value-Masked (number n) = refl
  redacted_value-Masked (text s) = refl
  redacted_value-Masked (array xs) = redacted_items-MaskedItems xs
  redacted_value-Masked (object fs) = redacted_fields-MaskedFields fs

  redacted_items-MaskedItems : (xs : Items) → MaskedItems (redacted_items xs)
  redacted_items-MaskedItems nil = tt
  redacted_items-MaskedItems (item v xs) = (redacted_value-Masked v, redacted_items-MaskedItems xs)

  redacted_fields-MaskedFields : (fs : Fields) → MaskedFields (redacted_fields fs)
  redacted_fields-MaskedFields end = tt
  redacted_fields-MaskedFields (field k v fs) =
      (redacted_value-Masked v, redacted_fields-MaskedFields fs)

hidden :
    (b : Bool) (v : Value)
    → HidesSecrets (redact v)
    → (if b
        then Masked (if b then redacted_value v else redact v)
        else HidesSecrets (if b then redacted_value v else redact v))
hidden true v h = redacted_value-Masked v
hidden false v h = h

mutual
  unfolding redact

  hides_value : (v : Value) → HidesSecrets (redact v)
  hides_value null = tt
  hides_value (bool b) = tt
  hides_value (number n) = tt
  hides_value (text s) = tt
  hides_value (array xs) = hides_items xs
  hides_value (object fs) = hides_fields fs

  hides_items : (xs : Items) → ItemsHide (redact_items xs)
  hides_items nil = tt
  hides_items (item v xs) = (hides_value v, hides_items xs)

  hides_fields : (fs : Fields) → FieldsHide (redact_fields fs)
  hides_fields end = tt
  hides_fields (field k v fs) = (hidden (is_sensitive_key k) v (hides_value v), hides_fields fs)

-- After `redact`, whatever stands under a sensitive key, at any depth and inside any arrays and maps
-- there, is null or the text "[REDACTED]".
pub redact-HidesSecrets : (v : Value) → HidesSecrets (redact v)
redact-HidesSecrets v = hides_value v

-- `w` is `v` with the mark in place of every scalar but null: the same keys and the same elements, in the same
-- places.
abbrev mutual
  pub MaskOf : Value → Value → Type 0
  MaskOf null w = w ≡ null
  MaskOf (array xs) (array ys) = ItemsMask xs ys
  MaskOf (array xs) w = ⊥
  MaskOf (object fs) (object gs) = FieldsMask fs gs
  MaskOf (object fs) w = ⊥
  MaskOf (bool b) w = w ≡ text redacted
  MaskOf (number n) w = w ≡ text redacted
  MaskOf (text s) w = w ≡ text redacted

  pub ItemsMask : Items → Items → Type 0
  ItemsMask nil nil = Unit
  ItemsMask (item v xs) (item w ys) = MaskOf v w × ItemsMask xs ys
  ItemsMask xs ys = ⊥

  pub FieldsMask : Fields → Fields → Type 0
  FieldsMask end end = Unit
  FieldsMask (field k v fs) (field j w gs) = (k ≡ j) × MaskOf v w × FieldsMask fs gs
  FieldsMask fs gs = ⊥

mutual
  unfolding redacted_value

  mask_value : (v : Value) → MaskOf v (redacted_value v)
  mask_value null = refl
  mask_value (bool b) = refl
  mask_value (number n) = refl
  mask_value (text s) = refl
  mask_value (array xs) = mask_items xs
  mask_value (object fs) = mask_fields fs

  mask_items : (xs : Items) → ItemsMask xs (redacted_items xs)
  mask_items nil = tt
  mask_items (item v xs) = (mask_value v, mask_items xs)

  mask_fields : (fs : Fields) → FieldsMask fs (redacted_fields fs)
  mask_fields end = tt
  mask_fields (field k v fs) = (refl, mask_value v, mask_fields fs)

-- `v` and `w` have the same keys and elements, in the same places, and the same values outside sensitive keys;
-- under a sensitive key `w` has the mask of the value.
abbrev mutual
  pub SameOutside : Value → Value → Type 0
  SameOutside (array xs) (array ys) = ItemsSame xs ys
  SameOutside (object fs) (object gs) = FieldsSame fs gs
  SameOutside v w = v ≡ w

  pub ItemsSame : Items → Items → Type 0
  ItemsSame nil nil = Unit
  ItemsSame (item v xs) (item w ys) = SameOutside v w × ItemsSame xs ys
  ItemsSame xs ys = ⊥

  pub FieldsSame : Fields → Fields → Type 0
  FieldsSame end end = Unit
  FieldsSame (field k v fs) (field j w gs) =
      (k ≡ j) × (if is_sensitive_key k then MaskOf v w else SameOutside v w) × FieldsSame fs gs
  FieldsSame fs gs = ⊥

same_outside :
    (b : Bool) (v : Value)
    → SameOutside v (redact v)
    → (if b
        then MaskOf v (if b then redacted_value v else redact v)
        else SameOutside v (if b then redacted_value v else redact v))
same_outside true v h = mask_value v
same_outside false v h = h

mutual
  unfolding redact

  same_value : (v : Value) → SameOutside v (redact v)
  same_value null = refl
  same_value (bool b) = refl
  same_value (number n) = refl
  same_value (text s) = refl
  same_value (array xs) = same_items xs
  same_value (object fs) = same_fields fs

  same_items : (xs : Items) → ItemsSame xs (redact_items xs)
  same_items nil = tt
  same_items (item v xs) = (same_value v, same_items xs)

  same_fields : (fs : Fields) → FieldsSame fs (redact_fields fs)
  same_fields end = tt
  same_fields (field k v fs) =
      (refl, same_outside (is_sensitive_key k) v (same_value v), same_fields fs)

-- `redact` keeps every key and array element in its place, also under a sensitive key, and every value that is
-- not under a sensitive key; under one it keeps null, and any other scalar becomes the text "[REDACTED]".
pub redact-SameOutside : (v : Value) → SameOutside v (redact v)
redact-SameOutside v = same_value v
