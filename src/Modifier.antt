-- ===== src/Modifier.antt =====
-- http_modifier.go: `HTTPModifier.Rewrite`, with the configuration of http_modifier_settings.go. A
-- compiled regular expression is its two methods; the FNV hash and the base64 decoder are functions
-- of the configuration's record `Codecs`.
pub mod Filters
pub mod Options
pub mod Settings
pub mod OptionExamples
pub mod Examples
use goreplay.Base.{
  ℕ, ◌%◌, Bool, true, false, not, ◌&&◌, ◌||◌, Bytes, codes, Outcome, done, ◌>>=◌, Option, none,
  some, List, [], ◌∷◌, drop, length, ltb, leb, ◌==◌, if◌then◌else◌, equal, has_prefix,
}
use goreplay.Proto.Headers.{header_value, set_header}
use goreplay.Proto.Title.{has_request_title, method}
use goreplay.Proto.Path.{path, set_path, path_param, set_path_param}

pub record Regexp : Type 0 where
  pub matches : Bytes → Bool
  pub replace_all : Bytes → Bytes → Bytes

pub record HeaderFilter : Type 0 where
  pub name : Bytes
  pub regexp : Regexp

pub record HashFilter : Type 0 where
  pub name : Bytes
  pub percent : ℕ

pub record Setting : Type 0 where
  pub name : Bytes
  pub value : Bytes

pub record UrlRewrite : Type 0 where
  pub src : Regexp
  pub target : Bytes

pub record HeaderRewrite : Type 0 where
  pub header : Bytes
  pub src : Regexp
  pub target : Bytes

-- `fnv.New32a` on one write, and `base64.StdEncoding.DecodeString` without its error.
pub record Codecs : Type 0 where
  pub hash : Bytes → ℕ
  pub decode : Bytes → Bytes

pub record Config : Type 0 where
  pub codecs : Codecs
  pub url_negative_regexps : List Regexp
  pub url_regexps : List Regexp
  pub url_rewrites : List UrlRewrite
  pub header_rewrites : List HeaderRewrite
  pub header_filters : List HeaderFilter
  pub header_negative_filters : List HeaderFilter
  pub basic_auth_filters : List Regexp
  pub header_hash_filters : List HashFilter
  pub param_hash_filters : List HashFilter
  pub params : List Setting
  pub headers : List Setting
  pub methods : List Bytes

abbrev pub is_nil {ℓ} : {A : Type ℓ} → List A → Bool
is_nil [] = true
is_nil (x ∷ xs) = false

unfoldable pub any_of {ℓ} : {A : Type ℓ} → (A → Bool) → List A → Bool
any_of f [] = false
any_of f (x ∷ xs) = f x || any_of f xs

-- A loop that returns at the first element which fails.
unfoldable pub every {ℓ} : {A : Type ℓ} → (A → Outcome Bool) → List A → Outcome Bool
every f [] = done true
every f (x ∷ xs) = let rest = every f xs in do ok ← f x; if ok then rest else done false

-- A loop that changes the payload.
unfoldable pub each {ℓ} :
    {A : Type ℓ} → (Bytes → A → Outcome Bytes) → List A → Bytes → Outcome Bytes
each f [] payload = done payload
each f (x ∷ xs) payload = do next ← f payload x; each f xs next

infixl 6 ◌then◌
abbrev ◌then◌ : Outcome Bool → Outcome Bool → Outcome Bool
a then b = do ok ← a; if ok then b else done false

unfoldable pub method_allowed : Config → Bytes → Outcome Bool
method_allowed c payload =
    if is_nil c.methods
    then done true
    else (do name ← method payload; done (any_of (equal name) c.methods))

unfoldable pub url_allowed : Config → Bytes → Outcome Bool
url_allowed c payload =
    if is_nil c.url_regexps
    then done true
    else (do p ← path payload; done (any_of (λ r. r.matches p) c.url_regexps))

unfoldable pub url_not_denied : Config → Bytes → Outcome Bool
url_not_denied c payload =
    if is_nil c.url_negative_regexps
    then done true
    else (do p ← path payload; done (not (any_of (λ r. r.matches p) c.url_negative_regexps)))

unfoldable pub header_allowed : Bytes → HeaderFilter → Outcome Bool
header_allowed payload f = do
  value ← header_value payload f.name
  done (if is_nil value then false else f.regexp.matches value)

unfoldable pub header_not_denied : Bytes → HeaderFilter → Outcome Bool
header_not_denied payload f = do
  value ← header_value payload f.name
  done (not (not (is_nil value) && f.regexp.matches value))

-- The user and password of an `Authorization` with the prefix `Basic `; any other one passes.
unfoldable pub auth_passes : Codecs → Regexp → Bytes → Bool
auth_passes codecs r value =
    if has_prefix value (codes "Basic ") then r.matches (codecs.decode (drop 6 value)) else true

unfoldable pub auth_allowed : Codecs → Bytes → Regexp → Outcome Bool
auth_allowed codecs payload r = do
  value ← header_value payload (codes "Authorization")
  done (if is_nil value then true else auth_passes codecs r value)

unfoldable pub hash_passes : Codecs → ℕ → Bytes → Bool
hash_passes codecs percent value = ltb (codecs.hash value % 100) percent

unfoldable pub header_hash_allowed : Codecs → Bytes → HashFilter → Outcome Bool
header_hash_allowed codecs payload f = do
  value ← header_value payload f.name
  done (if is_nil value then true else hash_passes codecs f.percent value)

unfoldable pub param_hash_allowed : Codecs → Bytes → HashFilter → Outcome Bool
param_hash_allowed codecs payload f = do
  found ← path_param payload f.name
  done (elim found [ none ↦ true | some r ↦ hash_passes codecs f.percent r.value ])

-- The filters between the settings and the rewrites, in their order.
unfoldable pub filters : Config → Bytes → Outcome Bool
filters c payload =
    url_allowed c payload
    then url_not_denied c payload
    then every (header_allowed payload) c.header_filters
    then every (header_not_denied payload) c.header_negative_filters
    then every (auth_allowed c.codecs payload) c.basic_auth_filters
    then every (header_hash_allowed c.codecs payload) c.header_hash_filters
    then every (param_hash_allowed c.codecs payload) c.param_hash_filters

-- The first rewrite whose expression matches the path.
unfoldable pub rewrite_path : List UrlRewrite → Bytes → Bytes → Outcome Bytes
rewrite_path [] p payload = done payload
rewrite_path (f ∷ fs) p payload =
    let rest = rewrite_path fs p payload in
    if f.src.matches p then set_path payload (f.src.replace_all p f.target) else rest

unfoldable pub rewrite_url : Config → Bytes → Outcome Bytes
rewrite_url c payload =
    if is_nil c.url_rewrites
    then done payload
    else (do p ← path payload; rewrite_path c.url_rewrites p payload)

-- A missing or empty header ends the loop.
unfoldable pub rewrite_headers : List HeaderRewrite → Bytes → Outcome Bytes
rewrite_headers [] payload = done payload
rewrite_headers (f ∷ fs) payload = do
  value ← header_value payload f.header
  next ← (if is_nil value then done payload else rewrite_header value)
  (let rest = rewrite_headers fs next in if is_nil value then done payload else rest)
  where
    rewrite_header : Bytes → Outcome Bytes
    rewrite_header value =
        if f.src.matches value
        then set_header payload f.header (f.src.replace_all value f.target)
        else done payload

-- `Rewrite`: an empty result drops the request.
unfoldable pub rewrite : Config → Bytes → Outcome Bytes
rewrite c payload = do
  titled ← has_request_title payload
  if not titled then done payload else (do
    allowed ← method_allowed c payload
    if not allowed then done [] else (do
      with_headers ← each (λ u h. set_header u h.name h.value) c.headers payload
      with_params ← each (λ u q. set_path_param u q.name q.value) c.params with_headers
      passed ← filters c with_params
      if not passed
          then done []
          else (do moved ← rewrite_url c with_params; rewrite_headers c.header_rewrites moved)))

-- `NewHTTPModifier`: nil when there is nothing to do.
unfoldable pub new_modifier : Config → Option Config
new_modifier c =
    if is_nil c.url_regexps
      && (is_nil c.url_negative_regexps
          && (is_nil c.url_rewrites
              && (is_nil c.header_rewrites
                  && (is_nil c.header_filters
                      && (is_nil c.header_negative_filters
                          && (is_nil c.basic_auth_filters
                              && (is_nil c.header_hash_filters
                                  && (is_nil c.param_hash_filters
                                      && (is_nil c.params
                                          && (is_nil c.headers && is_nil c.methods))))))))))
    then none
    else some c
