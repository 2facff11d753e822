-- ===== src/Proto/Title/Examples.antt =====
-- Titles and paths at concrete payloads.
use goreplay.Base.{◌≡◌, refl, inr, true, codes, done, panic, arith, ◌++◌, equal}
use goreplay.Proto.Title.{has_request_title, has_response_title, one_of, parse_status}
use goreplay.Proto.Title.Status.{status_text}
use goreplay.Proto.Title.Requests.{request, IsRequest, has_request_title-request}
use goreplay.Proto.Title.Faults.{bare_status, has_response_title-panics}
use goreplay.Proto.Path.{path, set_path}
use goreplay.Proto.Path.Laws.{path-set_path}

get_a-IsRequest : IsRequest (codes "GET") (codes "/a") (codes "HTTP/1.0")
unfolding one_of equal
get_a-IsRequest = record {
  is_method = refl;
  path_text = ((λ e. cc), omega arith, omega arith);
  version = inr refl;
}

has_request_title-request_example :
    has_request_title (request (codes "GET") (codes "/a") (codes "HTTP/1.0") (codes "\r\n"))
    ≡ done true
has_request_title-request_example =
    has_request_title-request (codes "GET") (codes "/a") (codes "HTTP/1.0") (codes "\r\n")
      get_a-IsRequest

path-set_path_example :
    (set_path (request (codes "GET") (codes "/a") (codes "HTTP/1.0") (codes "\r\n")) (codes "/bcd")
      ≡ done (request (codes "GET") (codes "/bcd") (codes "HTTP/1.0") (codes "\r\n")))
    × (path (request (codes "GET") (codes "/bcd") (codes "HTTP/1.0") (codes "\r\n"))
        ≡ done (codes "/bcd"))
path-set_path_example =
    path-set_path (codes "GET") (codes "/a") (codes "HTTP/1.0") (codes "\r\n") (codes "/bcd")
      get_a-IsRequest ((λ e. cc), omega arith, omega arith)

has_response_title-panics_example :
    has_response_title (bare_status (codes "200") ++ codes "\r\nA: b") ≡ panic
has_response_title-panics_example =
    has_response_title-panics b'2' b'0' b'0' (codes "A: b") (codes "OK") 200
      (unfold parse_status in refl) (unfold status_text in refl) (omega arith) (omega arith)
