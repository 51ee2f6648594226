-- ===== src/Common/Arena/Tests.antt =====
-- An arena at concrete sizes.
use arcana.Common.{ℕ, ◌≡◌, refl, true, [], ◌∷◌}
use arcana.Common.Arena.{Arena, Range, Alloc, allocated, failed, overrun, arena_init, arena_alloc}
use arcana.Common.Arena.Ranges.{begin, more, Apart, AllCovered, Allocations-Apart}

arena_of : Alloc → Arena
arena_of (allocated _ a) = a
arena_of failed = arena_init
arena_of overrun = arena_init

unfoldable first : Arena
unfolding arena_of arena_alloc
first = arena_of (arena_alloc true arena_init 10)

unfoldable second : Arena
unfolding first
second = arena_of (arena_alloc true first 70000)

abbrev range : ℕ → ℕ → ℕ → Range
range block start size = record { block = block; start = start; size = size }

first_runs : arena_alloc true arena_init 10 ≡ allocated (range 0 0 16) first
unfolding first
first_runs = refl

second_runs : arena_alloc true first 70000 ≡ allocated (range 1 0 70000) second
unfolding second
second_runs = refl

Allocations-Apart_example :
    Apart (range 1 0 70000 ∷ range 0 0 16 ∷ [])
    × AllCovered (70000 ∷ 10 ∷ []) (range 1 0 70000 ∷ range 0 0 16 ∷ [])
Allocations-Apart_example =
    Allocations-Apart second (70000 ∷ 10 ∷ []) (range 1 0 70000 ∷ range 0 0 16 ∷ [])
      (more true 70000 (range 1 0 70000) (more true 10 (range 0 0 16) begin first_runs) second_runs)
