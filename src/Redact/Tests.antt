-- ===== src/Redact/Tests.antt =====
-- Runs of the redaction, and its theorems at concrete inputs.
use webpprof.Prelude.{◌≡◌, refl, true, false, ◌↔◌}
use webpprof.Prelude.Text.{codes, lower, trim_space, trim_left, has_suffix, has_prefix}
use webpprof.Redact.{
  Value, null, number, text, array, object, nil, item, end, field, redacted, redact, redacted_value,
  is_sensitive_key, names_one_of, normalized, separator,
}
use webpprof.Redact.Keys.{IsSecretName, is_sensitive_key_iff}
use webpprof.Redact.Secrets.{HidesSecrets, SameOutside, redact-HidesSecrets, redact-SameOutside}

program : Unit {0}
unfolding redact redacted_value is_sensitive_key names_one_of normalized separator lower trim_space
    trim_left has_suffix has_prefix
program = tt

abbrev document : Value
document = object (
    field (codes "X-Api.Key") (array (item (text (codes "s3cret")) (item null nil)))
      (field (codes "page") (number (codes "7")) end))

redact-document :
    redact document
    ≡ object (
        field
          (codes "X-Api.Key")
          (array (item (text redacted) (item null nil)))
          (field (codes "page") (number (codes "7")) end))
unfolding program
redact-document = refl

tokenizer : is_sensitive_key (codes "tokenizer") ≡ false
unfolding program
tokenizer = refl

is_sensitive_key_iff_example :
    (is_sensitive_key (codes "X-Api.Key") ≡ true) ↔ IsSecretName (normalized (codes "X-Api.Key"))
is_sensitive_key_iff_example = is_sensitive_key_iff (codes "X-Api.Key")

redact-HidesSecrets_example : HidesSecrets (redact document)
redact-HidesSecrets_example = redact-HidesSecrets document

redact-SameOutside_example : SameOutside document (redact document)
redact-SameOutside_example = redact-SameOutside document
