-- ===== src/Modifier/Filters.antt =====
-- `Rewrite` with filters alone, on requests with well-formed headers.
use goreplay.Base.{
  ◌≡◌, refl, ap, Bool, true, false, not, ◌&&◌, ◌||◌, Bytes, codes, Outcome, done, ◌>>=◌, List, [],
  ◌∷◌, equal, if◌then◌else◌,
}
use goreplay.Proto.Headers.{header_value, set_header}
use goreplay.Proto.Headers.Fields.{Field, render, message, value_of}
use goreplay.Proto.Headers.Refine.{IsMessage}
use goreplay.Proto.Headers.Edits.{header_value-message}
use goreplay.Proto.Title.Requests.{title, IsRequest, has_request_title-request, method-request}
use goreplay.Proto.Path.{set_path_param}
use goreplay.Proto.Path.Laws.{path-request}
use goreplay.Modifier.{
  Regexp, HeaderFilter, HashFilter, Config, is_nil, any_of, every, each, ◌then◌, method_allowed,
  url_allowed, url_not_denied, header_allowed, header_not_denied, auth_passes, auth_allowed,
  hash_passes, header_hash_allowed, param_hash_allowed, filters, rewrite_url, rewrite_headers,
  rewrite,
}

abbrev all_of {ℓ} : {A : Type ℓ} → (A → Bool) → List A → Bool
all_of f [] = true
all_of f (x ∷ xs) = f x && all_of f xs

-- What the options ask of a request with the method `m`, the path `p` and the fields `fs`.
module _ (c : Config) (m p : Bytes) (fs : List Field) where
  abbrev method_wanted : Bool
  method_wanted = is_nil c.methods || any_of (equal m) c.methods

  abbrev path_wanted : Bool
  path_wanted =
      (is_nil c.url_regexps || any_of (λ r. r.matches p) c.url_regexps)
      && not (any_of (λ r. r.matches p) c.url_negative_regexps)

  abbrev present : HeaderFilter → Bool
  present f = not (is_nil (value_of f.name fs)) && f.regexp.matches (value_of f.name fs)

  abbrev auth_wanted : Regexp → Bool
  auth_wanted r =
      is_nil (value_of (codes "Authorization") fs)
      || auth_passes c.codecs r (value_of (codes "Authorization") fs)

  abbrev hash_wanted : HashFilter → Bool
  hash_wanted f = is_nil (value_of f.name fs) || hash_passes c.codecs f.percent (value_of f.name fs)

  abbrev headers_wanted : Bool
  headers_wanted =
      all_of present c.header_filters
      && (all_of (λ f. not (present f)) c.header_negative_filters
          && (all_of auth_wanted c.basic_auth_filters && all_of hash_wanted c.header_hash_filters))

  abbrev pub accepts : Bool
  accepts = method_wanted && (path_wanted && headers_wanted)

then-done : (a b : Bool) → done a then done b ≡ done (a && b)
then-done true b = refl
then-done false b = refl

every-all_of {ℓ} :
    {A : Type ℓ} (f : A → Outcome Bool) (g : A → Bool)
    → ((x : A) → f x ≡ done (g x))
    → (xs : List A) → every f xs ≡ done (all_of g xs)
unfolding every
every-all_of f g h [] = refl
every-all_of f g h (x ∷ xs) = rw (h x) (rw (every-all_of f g h xs) (then-done (g x) (all_of g xs)))

-- An empty list of options skips the test.
skip_or : (a b : Bool) → (if a then done true else done b) ≡ done (a || b)
skip_or true b = refl
skip_or false b = refl

or_choice : (a b : Bool) → (if a then true else b) ≡ a || b
or_choice true b = refl
or_choice false b = refl

and_choice : (a b : Bool) → (if a then false else b) ≡ not a && b
and_choice true b = refl
and_choice false b = refl

skip_not_any {ℓ} :
    {A : Type ℓ} (f : A → Bool) (xs : List A)
    → (if is_nil xs then done true else done (not (any_of f xs))) ≡ done (not (any_of f xs))
unfolding any_of
skip_not_any f [] = refl
skip_not_any f (x ∷ xs) = refl

conjunction :
    (a b h n u s : Bool)
    → done a then done b then done h then done n then done u then done s then done true
      ≡ done ((a && b) && (h && (n && (u && s))))
conjunction false b h n u s = refl
conjunction true false h n u s = refl
conjunction true true false n u s = refl
conjunction true true true false u s = refl
conjunction true true true true false s = refl
conjunction true true true true true true = refl
conjunction true true true true true false = refl

module _ (c : Config) (m p v body : Bytes) (fs : List Field) (w : IsRequest m p v)
    (wf : IsMessage (title m p v) fs) where
  abbrev payload : Bytes
  payload = message (title m p v) fs body

  value : (name : Bytes) → header_value payload name ≡ done (value_of name fs)
  value name = header_value-message (title m p v) fs body wf name

  method_allowed-message : method_allowed c payload ≡ done (method_wanted c m p fs)
  unfolding method_allowed
  method_allowed-message =
      rw (method-request m p v (render fs (b'\r' ∷ b'\n' ∷ body)) w, method_allowed)
        (skip_or (is_nil c.methods) (any_of (equal m) c.methods))

  url_allowed-message :
      url_allowed c payload ≡ done (is_nil c.url_regexps || any_of (λ r. r.matches p) c.url_regexps)
  unfolding url_allowed
  url_allowed-message =
      rw (path-request m p v (render fs (b'\r' ∷ b'\n' ∷ body)) w, url_allowed)
        (skip_or (is_nil c.url_regexps) (any_of (λ r. r.matches p) c.url_regexps))

  url_not_denied-message :
      url_not_denied c payload ≡ done (not (any_of (λ r. r.matches p) c.url_negative_regexps))
  unfolding url_not_denied
  url_not_denied-message =
      rw (path-request m p v (render fs (b'\r' ∷ b'\n' ∷ body)) w, url_not_denied)
        (skip_not_any (λ r. r.matches p) c.url_negative_regexps)

  header_allowed-message : (f : HeaderFilter) → header_allowed payload f ≡ done (present c m p fs f)
  unfolding header_allowed
  header_allowed-message f =
      rw (value f.name, header_allowed)
        (ap done (and_choice (is_nil (value_of f.name fs)) (f.regexp.matches (value_of f.name fs))))

  header_not_denied-message :
      (f : HeaderFilter) → header_not_denied payload f ≡ done (not (present c m p fs f))
  unfolding header_not_denied
  header_not_denied-message f = rw (value f.name, header_not_denied) refl

  auth_allowed-message :
      (r : Regexp) → auth_allowed c.codecs payload r ≡ done (auth_wanted c m p fs r)
  unfolding auth_allowed
  auth_allowed-message r =
      rw (value (codes "Authorization"), auth_allowed)
        (ap done (or_choice (is_nil (value_of (codes "Authorization") fs)) _))

  header_hash_allowed-message :
      (f : HashFilter) → header_hash_allowed c.codecs payload f ≡ done (hash_wanted c m p fs f)
  unfolding header_hash_allowed
  header_hash_allowed-message f =
      rw (value f.name, header_hash_allowed) (ap done (or_choice (is_nil (value_of f.name fs)) _))

  filters-message :
      c.param_hash_filters ≡ []
      → filters c payload ≡ done (path_wanted c m p fs && headers_wanted c m p fs)
  unfolding filters every
  filters-message none_by_param =
      rw (url_allowed-message, filters)
        (rw url_not_denied-message (
          rw (every-all_of _ (present c m p fs) header_allowed-message c.header_filters) (
            rw
              (every-all_of _ (λ f. not (present c m p fs f)) header_not_denied-message
                c.header_negative_filters)
              (rw (every-all_of _ (auth_wanted c m p fs) auth_allowed-message c.basic_auth_filters)
                (rw
                  (every-all_of _ (hash_wanted c m p fs) header_hash_allowed-message
                    c.header_hash_filters)
                  (rw by_param (conjunction _ _ _ _ _ _)))))))
    where
      by_param : every (param_hash_allowed c.codecs payload) c.param_hash_filters ≡ done true
      by_param = ap (every (param_hash_allowed c.codecs payload)) none_by_param

-- A configuration that changes nothing and does not look at parameters of the query.
pub record IsFilter (c : Config) : Type 0 where
  pub no_headers : c.headers ≡ []
  pub no_params : c.params ≡ []
  pub no_url_rewrites : c.url_rewrites ≡ []
  pub no_header_rewrites : c.header_rewrites ≡ []
  pub no_param_filters : c.param_hash_filters ≡ []

module _ (c : Config) (payload : Bytes) (only : IsFilter c) where
  headers_kept : each (λ u h. set_header u h.name h.value) c.headers payload ≡ done payload
  unfolding each
  headers_kept = ap (λ hs. each (λ u h. set_header u h.name h.value) hs payload) only.no_headers

  params_kept : each (λ u q. set_path_param u q.name q.value) c.params payload ≡ done payload
  unfolding each
  params_kept = ap (λ qs. each (λ u q. set_path_param u q.name q.value) qs payload) only.no_params

  url_kept : rewrite_url c payload ≡ done payload
  unfolding rewrite_url
  url_kept = rw (ap is_nil only.no_url_rewrites, rewrite_url) refl

  fields_kept : rewrite_headers c.header_rewrites payload ≡ done payload
  unfolding rewrite_headers
  fields_kept = ap (λ hs. rewrite_headers hs payload) only.no_header_rewrites

outcome :
    (text : Bytes) (a b : Bool)
    → (if not a then done [] else (if not b then done [] else done text))
      ≡ done (if a && b then text else [])
outcome text true true = refl
outcome text true false = refl
outcome text false b = refl

-- With filters alone `Rewrite` keeps a request with well-formed headers byte for byte if its method, its
-- path and its headers satisfy every option of the configuration, and drops it otherwise.
pub rewrite-accepts :
    (c : Config) (m p v body : Bytes) (fs : List Field)
    → IsFilter c
    → IsRequest m p v
    → IsMessage (title m p v) fs
    → rewrite c (message (title m p v) fs body)
      ≡ done (if accepts c m p fs then message (title m p v) fs body else [])
unfolding rewrite
rewrite-accepts c m p v body fs only w wf =
    rw (has_request_title-request m p v (render fs (b'\r' ∷ b'\n' ∷ body)) w, rewrite)
      (rw (method_allowed-message c m p v body fs w wf, ◌>>=◌)
        (rw (headers_kept c (message (title m p v) fs body) only) (
          rw (params_kept c (message (title m p v) fs body) only) (
            rw (filters-message c m p v body fs w wf only.no_param_filters) (
              rw (url_kept c (message (title m p v) fs body) only) (
                rw (fields_kept c (message (title m p v) fs body) only)
                  (outcome _ (method_wanted c m p fs) _)))))))
