-- ===== src/ByteUtils/Tests.antt =====
-- Runs of byteutils/byteutils.go.
use goreplay.Base.{◌≡◌, refl, codes, done, panic, arith}
use goreplay.ByteUtils.Laws.{surgery}
use goreplay.ByteUtils.{overwrite, copy_from, copy_between, grow, cut, insert, replace}

cut_test : cut (codes "123456") 2 4 ≡ done (codes "1256")
unfolding cut copy_from overwrite
cut_test = refl

insert_test : insert (codes "123456") 2 (codes "abcd") ≡ done (codes "12abcd3456")
unfolding insert copy_from copy_between overwrite grow
insert_test = refl

replace_longer : replace (codes "123456") 1 4 (codes "abcdefg") ≡ done (codes "1abcdefg56")
unfolding replace copy_from copy_between overwrite grow
replace_longer = refl

replace_shorter : replace (codes "123456") 1 4 (codes "a") ≡ done (codes "1a56")
unfolding replace copy_from copy_between overwrite grow
replace_shorter = refl

replace_out_of_range : replace (codes "12") 1 4 (codes "abcd") ≡ panic
unfolding replace copy_from copy_between overwrite grow
replace_out_of_range = refl

surgery_example :
    (cut (codes "123456") 2 4 ≡ done (codes "1256"))
    × (insert (codes "123456") 2 (codes "ab") ≡ done (codes "12ab3456"))
    × (replace (codes "123456") 2 4 (codes "ab") ≡ done (codes "12ab56"))
surgery_example = surgery (codes "123456") (codes "ab") 2 4 (omega arith) (omega arith)
