-- ===== src/Runtime/Gc.antt =====
-- src/runtime/gc.c: allocation, marking, sweeping and the trigger threshold.
pub mod Reach
pub mod Marking
pub mod Correct
use mathlib.Core.List.{foldl}
use mathlib.Core.Option
use arcana.Common.{
  ℕ, zero, suc, ◌+◌, ◌*◌, ◌%◌, Bool, true, false, Option, none, some, List, [], ◌∷◌, ltb, ◌==◌,
  if◌then◌else◌, length,
}
use arcana.Runtime.Object.{Value, Payload, Object, values_refs, children}

-- The chain `gc->objects`, newest first.
abbrev pub Heap : Type 0
Heap = List Object

pub record Gc : Type 0 where
  pub objects : Heap
  pub bytes_allocated : ℕ
  pub next_gc : ℕ
  pub stress_mode : Bool
  pub alloc_count : ℕ
  pub collect_count : ℕ

abbrev pub initial_threshold : ℕ
initial_threshold = 1024

abbrev pub grow_factor : ℕ
grow_factor = 2

abbrev pub size_mod : ℕ
size_mod = 18446744073709551616

abbrev pub u32_mod : ℕ
u32_mod = 4294967296

unfoldable pub gc_init : Gc
gc_init = record {
  objects = [];
  bytes_allocated = 0;
  next_gc = initial_threshold;
  stress_mode = false;
  alloc_count = 0;
  collect_count = 0;
}

unfoldable pub gc_set_stress : Gc → Bool → Gc
gc_set_stress gc enabled = record gc { stress_mode = enabled }

-- The address is what `calloc` returns, `none` for NULL.
unfoldable pub gc_alloc : Gc → ℕ → Payload → Option ℕ → Gc
gc_alloc gc size p none = record gc { alloc_count = (gc.alloc_count + 1) % u32_mod }
gc_alloc gc size p (some a) = record gc {
  alloc_count = (gc.alloc_count + 1) % u32_mod;
  objects = record { addr = a; marked = false; payload = p } ∷ gc.objects;
  bytes_allocated = (gc.bytes_allocated + size) % size_mod;
}

unfoldable pub find_object : Heap → ℕ → Option Object
find_object [] a = none
find_object (o ∷ h) a = if o.addr == a then some o else find_object h a

-- `obj->marked = true`
unfoldable pub set_mark : ℕ → Heap → Heap
set_mark a [] = []
set_mark a (o ∷ h) = (if o.addr == a then record o { marked = true } else o) ∷ set_mark a h

-- The body of `arc_gc_mark_object`, over the function that it calls on each reference.
unfoldable pub visit : (Heap → ℕ → Heap) → Heap → ℕ → Heap
unfolding find_object set_mark
visit mark_next h a = elim (find_object h a) [
  | none ↦ h
  | some o ↦ if o.marked then h else foldl mark_next (set_mark a h) (children o.payload)
]

-- A chain of calls marks one more object each, so the number of objects bounds its depth.
unfoldable pub mark_object : ℕ → Heap → ℕ → Heap
unfolding visit
mark_object zero h a = h
mark_object (suc fuel) h a = visit (mark_object fuel) h a

unfoldable pub sweep : Heap → Heap
sweep [] = []
sweep (o ∷ h) = if o.marked then record o { marked = false } ∷ sweep h else sweep h

-- The three loops over the roots, in order.
unfoldable pub mark_roots : Heap → List Value → List Value → List ℕ → Heap
mark_roots h stack globals open_upvalues =
    let mark = mark_object (suc (length h)) in
    foldl mark (foldl mark (foldl mark h (values_refs stack)) (values_refs globals)) open_upvalues

abbrev pub threshold : ℕ → ℕ
threshold bytes =
    let scaled = bytes * grow_factor % size_mod in
    if ltb scaled initial_threshold then initial_threshold else scaled

unfoldable pub gc_collect : Gc → List Value → List Value → List ℕ → Gc
unfolding mark_roots sweep
gc_collect gc stack globals open_upvalues = record gc {
  objects = sweep (mark_roots gc.objects stack globals open_upvalues);
  collect_count = (gc.collect_count + 1) % u32_mod;
  next_gc = threshold gc.bytes_allocated;
}

unfoldable pub gc_free_all : Gc → Gc
gc_free_all gc = record gc { objects = []; bytes_allocated = 0 }
