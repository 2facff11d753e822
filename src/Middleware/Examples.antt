-- ===== src/Middleware/Examples.antt =====
-- Lines at concrete payloads.
use goreplay.Base.{◌≡◌, Bytes, codes, done, none, [], ◌∷◌, arith}
use goreplay.Middleware.{copy, read}
use goreplay.Middleware.Lines.{read-copy}

read-copy_example :
    (text : Bytes) × (copy none (codes "1 a\nGET" ∷ (codes "\n" ∷ [])) ≡ done text)
    × (read 4 text ≡ done (codes "1 a\nGET" ∷ (codes "\n" ∷ [])))
read-copy_example = read-copy (codes "1 a\nGET" ∷ (codes "\n" ∷ [])) 4 (omega arith) (omega arith)
