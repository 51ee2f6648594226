-- ===== src/Semantic/Tests.antt =====
-- Scopes at concrete names.
use arcana.Common.{ℕ, ◌≡◌, refl, false, Option, none, some, List, [], ◌∷◌}
use arcana.Semantic.Scope.{Scope, scope_push, scope_pop, scope_find, scope_add}
use arcana.Semantic.Blocks.{empty, local, Block-find, scope_find-scope_add}
use arcana.Bytecode.Pool.{bytes_eq}

abbrev fresh : Scope
fresh = record {
  locals = λ _. record { name = []; slot = 0 };
  local_count = 0;
  scope_starts = λ _. 0;
  scope_depth = 0;
}

-- x
abbrev x : List ℕ
x = 120 ∷ []

abbrev base : Scope
base = record fresh { locals = λ j. record { name = x; slot = 0 }; local_count = 1 }

scope_of : Option Scope → Scope
scope_of none = base
scope_of (some s) = s

added_of : Option (Scope × ℕ) → Scope
added_of none = base
added_of (some (s, _)) = s

unfoldable opened : Scope
unfolding scope_of scope_push
opened = scope_of (scope_push base)

-- The block declares `x` again.
unfoldable inner : Scope
unfolding opened added_of scope_add
inner = added_of (scope_add opened x)

unfoldable closed : Scope
unfolding inner scope_of scope_pop
closed = scope_of (scope_pop inner)

opens : scope_push base ≡ some opened
unfolding opened
opens = refl

adds : scope_add opened x ≡ some (inner, 1)
unfolding inner
adds = refl

closes : scope_pop inner ≡ some closed
unfolding closed
closes = refl

shadowed : scope_find inner x ≡ some 1
unfolding inner scope_find
shadowed = refl

Block-find_example :
    ((name : List ℕ) → scope_find closed name ≡ scope_find base name)
    × (closed.local_count ≡ base.local_count)
    × (closed.scope_depth ≡ base.scope_depth)
Block-find_example = Block-find base opened inner closed opens (local x 1 adds empty) closes

scope_find-scope_add_example :
    (scope_find inner x ≡ some 1)
    × (1 ≡ opened.local_count)
    × ((other : List ℕ)
        → bytes_eq x other ≡ false
        → scope_find inner other ≡ scope_find opened other)
scope_find-scope_add_example = scope_find-scope_add opened inner x 1 adds
