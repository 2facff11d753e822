-- ===== src/Modifier/Examples.antt =====
-- Runs of `Rewrite`, and its theorem at a concrete request.
use goreplay.Base.{◌≡◌, ◌≢◌, Lacks, refl, inl, Bytes, codes, done, [], ◌∷◌, length, arith, equal}
use goreplay.Proto.Headers.{equal_fold}
use goreplay.Proto.Headers.Fields.{message}
use goreplay.Proto.Headers.Refine.{IsMessage}
use goreplay.Proto.Title.{one_of}
use goreplay.Proto.Title.Requests.{title, IsRequest}
use goreplay.Proto.Examples.{host, host-IsField}
use goreplay.Modifier.{Regexp, Config, any_of, auth_passes, hash_passes, rewrite}
use goreplay.Modifier.Filters.{rewrite-accepts}

abbrev literally : Bytes → Regexp
literally text = record { matches = equal text; replace_all = λ s target. s }

-- Requests of the method GET to the host a.b with any path but /b; half of the hosts by their hash.
abbrev options : Config
options = record {
  codecs = record { hash = length; decode = λ s. s };
  url_negative_regexps = literally (codes "/b") ∷ [];
  url_regexps = [];
  url_rewrites = [];
  header_rewrites = [];
  header_filters = record { name = codes "Host"; regexp = literally (codes "a.b") } ∷ [];
  header_negative_filters = [];
  basic_auth_filters = literally (codes "u:p") ∷ [];
  header_hash_filters = record { name = codes "host"; percent = 50 } ∷ [];
  param_hash_filters = [];
  params = [];
  headers = [];
  methods = codes "POST" ∷ codes "GET" ∷ [];
}

get-IsRequest :
    (p : Bytes)
    → (p ≢ []) × Lacks b' ' p × Lacks b'\n' p
    → IsRequest (codes "GET") p (codes "HTTP/1.1")
unfolding one_of equal
get-IsRequest p fits = record { is_method = refl; path_text = fits; version = inl refl }

one_host-IsMessage : IsMessage (title (codes "GET") (codes "/a") (codes "HTTP/1.1")) (host ∷ [])
one_host-IsMessage = record { title_no_newline = omega arith; fields = (host-IsField, tt) }

rewrite-accepts_example :
    rewrite options
      (message (title (codes "GET") (codes "/a") (codes "HTTP/1.1")) (host ∷ []) (codes "xy"))
    ≡ done (message (title (codes "GET") (codes "/a") (codes "HTTP/1.1")) (host ∷ []) (codes "xy"))
unfolding any_of equal auth_passes hash_passes equal_fold
rewrite-accepts_example =
    rewrite-accepts options (codes "GET") (codes "/a") (codes "HTTP/1.1") (codes "xy") (host ∷ [])
      (record {
        no_headers = refl;
        no_params = refl;
        no_url_rewrites = refl;
        no_header_rewrites = refl;
        no_param_filters = refl;
      })
      (get-IsRequest (codes "/a") ((λ e. cc), omega arith, omega arith)) one_host-IsMessage
