-- ===== src/Geometry/Tests.antt =====
-- A cyclic order of three members.
use arcana.Common.{ℕ, zero, suc, ◌<◌, ◌≡◌, refl, [], ◌∷◌, get_or, arith}
use arcana.Graph.Types.{invalid_id}
use arcana.Geometry.Cyclic.{CyclicOrder, cyclic_next, cyclic_prev, IsDistinct, cyclic_next-prev}

abbrev ring : CyclicOrder
ring = record { region = 0; members = 5 ∷ 3 ∷ 8 ∷ [] }

after_last : cyclic_next ring 8 ≡ 5
unfolding cyclic_next
after_last = refl

ring-IsDistinct : IsDistinct ring.members
ring-IsDistinct = record { apart = places }
  where
    places :
        (i j : ℕ)
        → i < 3
        → j < 3
        → get_or ring.members i invalid_id ≡ get_or ring.members j invalid_id
        → i ≡ j
    places zero zero h k e = refl
    places zero (suc zero) h k e = absurd (omega (arith, e))
    places zero (suc (suc zero)) h k e = absurd (omega (arith, e))
    places (suc zero) zero h k e = absurd (omega (arith, e))
    places (suc zero) (suc zero) h k e = refl
    places (suc zero) (suc (suc zero)) h k e = absurd (omega (arith, e))
    places (suc (suc zero)) zero h k e = absurd (omega (arith, e))
    places (suc (suc zero)) (suc zero) h k e = absurd (omega (arith, e))
    places (suc (suc zero)) (suc (suc zero)) h k e = refl
    places (suc (suc (suc i))) j h k e = absurd (omega (arith, h))
    places i (suc (suc (suc j))) h k e = absurd (omega (arith, k))

cyclic_next-prev_example :
    (cyclic_prev ring (cyclic_next ring (get_or ring.members 2 invalid_id))
      ≡ get_or ring.members 2 invalid_id)
    × (cyclic_next ring (cyclic_prev ring (get_or ring.members 2 invalid_id))
        ≡ get_or ring.members 2 invalid_id)
cyclic_next-prev_example = cyclic_next-prev ring ring-IsDistinct 2 (omega arith)
