-- ===== src/Semantic/Scope.antt =====
-- src/semantic/scope.c: a stack of scopes over one array of locals.
use arcana.Common.{ℕ, zero, suc, ◌+◌, ◌-◌, Option, none, some, List, ltb, ◌==◌, if◌then◌else◌}
use arcana.Bytecode.Pool.{bytes_eq}

abbrev pub scope_max_locals : ℕ
scope_max_locals = 256

abbrev pub scope_max_depth : ℕ
scope_max_depth = 64

pub record Local : Type 0 where
  pub name : List ℕ
  pub slot : ℕ

-- The arrays hold what was last written, also above the counts.
pub record Scope : Type 0 where
  pub locals : ℕ → Local
  pub local_count : ℕ
  pub scope_starts : ℕ → ℕ
  pub scope_depth : ℕ

-- The two counts are set; the arrays keep what the memory held.
unfoldable pub scope_init : Scope → Scope
scope_init s = record s { local_count = 0; scope_depth = 0 }

-- `none` is a failed assertion.
unfoldable pub scope_push : Scope → Option Scope
scope_push s =
    if ltb s.scope_depth scope_max_depth
    then some (record s {
      scope_starts = λ j. if j == s.scope_depth then s.local_count else s.scope_starts j;
      scope_depth = s.scope_depth + 1;
    })
    else none

unfoldable pub scope_pop : Scope → Option Scope
scope_pop s =
    if ltb 0 s.scope_depth
    then some (record s {
      local_count = s.scope_starts (s.scope_depth - 1);
      scope_depth = s.scope_depth - 1;
    })
    else none

-- The loop from the `n`-th local down; `none` is -1.
unfoldable pub find_below : (ℕ → Local) → ℕ → List ℕ → Option ℕ
unfolding bytes_eq
find_below locals zero name = none
find_below locals (suc n) name =
    let rest = find_below locals n name in
    if bytes_eq (locals n).name name then some (locals n).slot else rest

unfoldable pub scope_find : Scope → List ℕ → Option ℕ
unfolding find_below
scope_find s name = find_below s.locals s.local_count name

-- The scope and the slot of the new local.
unfoldable pub scope_add : Scope → List ℕ → Option (Scope × ℕ)
scope_add s name =
    if ltb s.local_count scope_max_locals
    then some (
      record s {
        locals = λ j.
            if j == s.local_count then record { name = name; slot = s.local_count } else s.locals j;
        local_count = s.local_count + 1;
      },
      s.local_count,
    )
    else none
