-- ===== src/Combinators/Tests.antt =====
-- Runs of rustdv/rustdv-sim/src/combinators.rs.
use rustdv.Base.{ℕ, zero, suc, ◌≡◌, refl, List, [], ◌∷◌, some, ready}
use rustdv.Combinators.{Step, completes, suspends, join_all, poll_join_all, drive}
use rustdv.Combinators.Joins.{after, outputs, joined, quietly, drive-join_all}

-- A future that ends at the poll at which its count is down, with the number that it was given
abbrev countdown : ℕ × ℕ → Step (ℕ × ℕ) ℕ
countdown (zero, v) = completes v
countdown (suc n, v) = suspends (n, v)

abbrev three : List (ℕ × ℕ)
three = (2, 10) ∷ (0, 11) ∷ (1, 12) ∷ []

drive-join_all_example :
    drive (poll_join_all (quietly countdown)) 3 (tt {0}) (join_all three)
    ≡ (tt, joined (outputs countdown 3 three))
drive-join_all_example = drive-join_all countdown tt 2 three

three_together : joined (outputs countdown 3 three) ≡ ready (some (10 ∷ 11 ∷ 12 ∷ []))
unfolding outputs after
three_together = refl
