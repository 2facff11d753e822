-- ===== src/Elasticsearch/Fields.antt =====
-- The headers that are indexed.
use goreplay.Base.{◌≡◌, refl, Bytes, done, ◌>>=◌, List, [], ◌∷◌, map}
use goreplay.Proto.Headers.Fields.{Field, message, value_of}
use goreplay.Proto.Headers.Refine.{IsMessage}
use goreplay.Proto.Headers.Edits.{header_value-message}
use goreplay.Elasticsearch.{header_values}

-- Of a well-formed payload the values of its fields are indexed, and no bytes for a name that it does not have.
pub header_values-message :
    (title : Bytes) (fs : List Field) (body : Bytes)
    → IsMessage title fs
    → (names : List Bytes)
    → header_values (message title fs body) names ≡ done (map (λ name. value_of name fs) names)
unfolding header_values
header_values-message title fs body w [] = refl
header_values-message title fs body w (name ∷ names) =
    rw (header_value-message title fs body w name)
      (rw (header_values-message title fs body w names, ◌>>=◌) refl)
