-- ===== src/Proto/Path/Laws.antt =====
-- `Path` and `SetPath` on payloads that begin with a request line.
use goreplay.Base.{
  ◌+◌, ◌≡◌, sym, ap, ◌∙◌, Bytes, done, ◌>>=◌, [], ◌∷◌, ◌++◌, length, length-append, append_assoc,
  arith, slice, slice-append,
}
use goreplay.ByteUtils.{replace}
use goreplay.ByteUtils.Laws.{replace-append}
use goreplay.Proto.Path.{path_start, path_end, path, set_path}
use goreplay.Proto.Title.Requests.{
  request, IsRequest, IsPathText, has_title-request, find_first_space, find_second_space,
  behind_first_space,
}

module _ (m p v rest : Bytes) (w : IsRequest m p v) where
  abbrev payload : Bytes
  payload = request m p v rest

  abbrev front : Bytes
  front = m ++ (b' ' ∷ [])

  abbrev back : Bytes
  back = b' ' ∷ (v ++ (b'\r' ∷ b'\n' ∷ rest))

  seam : (q : Bytes) → request m q v rest ≡ front ++ (q ++ back)
  seam q = simp append_assoc

  front_size : length front ≡ length m + 1
  front_size = length-append m (b' ' ∷ [])

  path_start-request : path_start payload ≡ length m + 1
  unfolding path_start
  path_start-request = rw (find_first_space m p v rest w, path_start)

  path_end-request : path_end payload ≡ done (length m + 1 + length p)
  unfolding path_end
  path_end-request = rw path_start-request (
      rw (behind_first_space m p v rest w)
        (rw (find_second_space m p v rest w, ◌>>=◌) (rw path_start-request)))

  -- `Path` is the text between the first two spaces of the request line.
  pub path-request : path payload ≡ done p
  unfolding path
  path-request = rw (has_title-request m p v rest w) (
      rw path_end-request (
        rw path_start-request (
          ap (λ u. slice u (length m + 1) (length m + 1 + length p)) (seam p)
          ∙ slice-append front p back _ _ (omega (arith, front_size)) (omega (arith, front_size)))))

  set_path-request_lem : (q : Bytes) → set_path payload q ≡ done (request m q v rest)
  unfolding set_path
  set_path-request_lem q = rw (has_title-request m p v rest w) (
      rw path_start-request (
        rw (behind_first_space m p v rest w) (
          rw (find_second_space m p v rest w, ◌>>=◌)
            (rw path_start-request (
              ap (λ u. replace u (length m + 1) (length m + 1 + length p) q) (seam p)
              ∙ replace-append front p back q _ _ (omega (arith, front_size))
                  (omega (arith, front_size))
              ∙ ap done (sym (seam q)))))))

-- `SetPath` exchanges the path of a request line and keeps every other byte of the payload, and
-- `Path` reads the new path back if it is a path text.
pub path-set_path :
    (m p v rest q : Bytes)
    → IsRequest m p v
    → IsPathText q
    → (set_path (request m p v rest) q ≡ done (request m q v rest))
      × (path (request m q v rest) ≡ done q)
path-set_path m p v rest q w fits = (
  set_path-request_lem m p v rest w q,
  path-request m q v rest
      (record { is_method = w.is_method; path_text = fits; version = w.version }),
)
