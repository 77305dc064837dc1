-- ===== src/Redact.antt =====
-- redact.go: secrets in JSON documents. A document is what `json.Unmarshal` makes of `any`; a map is
-- a list of fields. The functions rewrite a document in place; here they return it.
pub mod Secrets
pub mod Keys
mod Tests
use webpprof.Prelude.{ℕ, Bool, true, false, ◌||◌, List, [], ◌∷◌, map, if◌then◌else◌, ◌==◌, ◌++◌}
use webpprof.Prelude.Text.{Text, codes, text_eq, to_lower, trim_space, has_suffix}

mutual
  pub data Value : Type 0 where
    null : Value
    bool : Bool → Value
    number : Text → Value
    text : Text → Value
    array : Items → Value
    object : Fields → Value

  pub data Items : Type 0 where
    nil : Items
    item : Value → Items → Items

  pub data Fields : Type 0 where
    end : Fields
    field : Text → Value → Fields → Fields

abbrev pub sensitive_keys : List Text
sensitive_keys = map codes (
    "authorization" ∷ "cookie" ∷ "password" ∷ "passwd" ∷ "token" ∷ "secret" ∷ "api_key" ∷ "apikey"
    ∷ "jwt" ∷ "dsn" ∷ [])

abbrev pub redacted : Text
redacted = codes "[REDACTED]"

-- `strings.NewReplacer("-", "_", ".", "_")`
unfoldable pub separator : ℕ → ℕ
separator c = if c == b'-' || c == b'.' then b'_' else c

unfoldable pub normalized : Text → Text
normalized key = map separator (to_lower (trim_space key))

unfoldable pub names_one_of : Text → List Text → Bool
names_one_of key [] = false
names_one_of key (sensitive ∷ rest) =
    text_eq key sensitive || has_suffix key (b'_' ∷ sensitive) || names_one_of key rest

unfoldable pub is_sensitive_key : Text → Bool
is_sensitive_key key = names_one_of (normalized key) sensitive_keys

unfoldable mutual
  pub redacted_value : Value → Value
  redacted_value null = null
  redacted_value (bool b) = text redacted
  redacted_value (number n) = text redacted
  redacted_value (text s) = text redacted
  redacted_value (array xs) = array (redacted_items xs)
  redacted_value (object fs) = object (redacted_fields fs)

  pub redacted_items : Items → Items
  redacted_items nil = nil
  redacted_items (item v xs) = item (redacted_value v) (redacted_items xs)

  pub redacted_fields : Fields → Fields
  redacted_fields end = end
  redacted_fields (field k v fs) = field k (redacted_value v) (redacted_fields fs)

unfoldable mutual
  pub redact : Value → Value
  redact null = null
  redact (bool b) = bool b
  redact (number n) = number n
  redact (text s) = text s
  redact (array xs) = array (redact_items xs)
  redact (object fs) = object (redact_fields fs)

  pub redact_items : Items → Items
  redact_items nil = nil
  redact_items (item v xs) = item (redact v) (redact_items xs)

  pub redact_fields : Fields → Fields
  redact_fields end = end
  redact_fields (field k v fs) =
      field k (if is_sensitive_key k then redacted_value v else redact v) (redact_fields fs)
