-- ===== src/Options/Patterns.antt =====
-- options.go: the patterns of requests that are excluded. `strings.ToUpper`, `strings.ToLower` and
-- `path.Match`, which fails on a malformed pattern, are parameters.
use webpprof.Prelude.{
  Bool, false, not, ◌&&◌, ◌||◌, Option, none, some, List, [], ◌∷◌, ◌++◌, if◌then◌else◌,
}
use webpprof.Prelude.Text.{Text, codes, text_eq, is_space, has_prefix, has_suffix, trim_suffix}

pub record RequestPattern : Type 0 where
  pub method : Text
  pub path : Text

-- a word in front of the others, unless it is empty
abbrev pub with_word : Text → List Text → List Text
with_word [] words = words
with_word (c ∷ word) words = (c ∷ word) ∷ words

-- the first word, which may be empty, and the words after it
unfoldable pub split_fields : Text → Text × List Text
split_fields [] = ([], [])
split_fields (c ∷ text) =
    let (word, words) = split_fields text in
    if is_space c then ([], with_word word words) else (c ∷ word, words)

-- `strings.Fields`
unfoldable pub fields : Text → List Text
fields text = let (word, words) = split_fields text in with_word word words

module _ (to_upper : Text → Text) where
  -- the `switch` of `parseRequestPatterns`
  unfoldable pub parse_fields : List Text → Option RequestPattern
  parse_fields [] = none
  parse_fields (path ∷ []) = some (record { method = []; path = path })
  parse_fields (method ∷ path ∷ []) = some (record { method = to_upper method; path = path })
  parse_fields (method ∷ path ∷ third ∷ others) = none

  unfoldable pub parse_request_patterns : List Text → List RequestPattern
  parse_request_patterns [] = []
  parse_request_patterns (pattern ∷ patterns) =
      let rest = parse_request_patterns patterns in
      elim (parse_fields (fields pattern)) [ none ↦ rest | some p ↦ p ∷ rest ]

module _ (to_lower : Text → Text) (path_match : Text → Text → Option Bool) where
  -- the three ways to match a path
  unfoldable pub matches_path : Text → Text → Bool
  matches_path pattern path =
      let prefix = trim_suffix pattern (codes "/*") in
      if has_suffix pattern (codes "/*")
      then text_eq path prefix || has_prefix path (prefix ++ codes "/")
      else if has_prefix pattern (codes "*.")
      then has_suffix (to_lower path) (to_lower (without_star pattern))
      else elim (path_match pattern path) [ none ↦ false | some matched ↦ matched ]
    where
      -- `strings.TrimPrefix(p.path, "*")`
      without_star : Text → Text
      without_star [] = []
      without_star (c ∷ text) = if text_eq (c ∷ []) (codes "*") then text else c ∷ text

  -- `matches`, of a request's method and path
  unfoldable pub matches : RequestPattern → Text → Text → Bool
  matches p method path =
      let other_method = not (text_eq p.method []) && not (text_eq p.method method) in
      if text_eq p.path [] || other_method then false else matches_path p.path path

  -- the loop over `excluded` of `ExcludingRequests` and `ShouldCaptureRequest`
  unfoldable pub excludes : List RequestPattern → Text → Text → Bool
  excludes [] method path = false
  excludes (p ∷ patterns) method path = matches p method path || excludes patterns method path
