-- ===== src/Join/Tests.antt =====
-- A small join.
use starkstream_dna.Base.{some, [], ◌∷◌, ◌≡◌, ok}
use starkstream_dna.Join.{build_one, get_one}
use starkstream_dna.Join.Find.{insert_all, last_of, get_one-insert_all}

get_one-insert_all_example :
    get_one (build_one (insert_all ((3, 10) ∷ (1, 11) ∷ (3, 12) ∷ []) [])) 3 ≡ ok (some 12)
unfolding last_of
get_one-insert_all_example = get_one-insert_all ((3, 10) ∷ (1, 11) ∷ (3, 12) ∷ []) 3
