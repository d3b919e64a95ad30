-- ===== src/Tests/Keygen.antt =====
-- A generator of src/keygen.c for 200 keys of 8 bytes, of which a fifth is hot.
use udepot_hopscotch.Base.{ℕ, ◌+◌, ◌*◌, ◌%◌, ◌<◌, ◌≡◌, refl, arith}
use udepot_hopscotch.Keygen.{
  Keygen, locality, fault, keygen_init, shuffle_key_pool, set_key_dist, get_next_key,
}
use udepot_hopscotch.Keygen.Shuffle.{IsRearranged, set_key_dist-IsRearranged}
use udepot_hopscotch.Keygen.Choice.{
  IsSized, Chosen, set_key_dist-IsSized, get_next_key-Chosen, get_next_key-fault,
}

abbrev rand : ℕ → ℕ
rand n = n * 7 + 3

abbrev fresh : Keygen
fresh = keygen_init rand 200 8

abbrev mixed : Keygen
mixed = set_key_dist rand fresh locality 80 20

set_key_dist-IsRearranged_example : IsRearranged fresh.nr_key fresh.key_pool mixed.key_pool
set_key_dist-IsRearranged_example = set_key_dist-IsRearranged rand fresh locality 80 20

mixed-IsSized : IsSized mixed
mixed-IsSized =
    set_key_dist-IsSized rand 200 8 80 20 locality (omega arith) (omega arith) (omega arith)
      (omega arith)

get_next_key-Chosen_example : Chosen rand mixed (get_next_key rand mixed).0 mixed.key_dist
get_next_key-Chosen_example = get_next_key-Chosen rand mixed mixed-IsSized

-- The pool of two keys, of which one was given out.
abbrev two : Keygen
two = record (keygen_init rand 2 6) { load_cnt = 1 }

one_left : two.load_cnt + 1 ≡ two.nr_key
unfolding keygen_init
one_left = refl

abbrev few : Keygen
few = set_key_dist rand (keygen_init rand 2 6) locality 80 20

drawn : rand few.rands % 100 < 80
unfolding keygen_init set_key_dist shuffle_key_pool
drawn = omega arith

get_next_key-fault_example : (get_next_key rand few).0 ≡ fault
get_next_key-fault_example = get_next_key-fault rand 2 6 80 20 (omega arith) drawn
