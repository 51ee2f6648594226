-- ===== src/Runtime/Tests.antt =====
-- The collector and the channels at concrete inputs.
use arcana.Common.{Bool, Option, none}
use arcana.Runtime.Objects.{val_equal, map_set, map_get}
use arcana.Runtime.Objects.Laws.{map_get-map_set}
use mathlib.Core.List.{Memᴰ}
use mathlib.Core.List.Memᴰ
use arcana.Common.{
  ℕ, ◌≤◌, ◌≡◌, ◌⊎◌, ◌↔◌, refl, true, false, some, List, [], ◌∷◌, ◌++◌, ◌==◌, if◌then◌else◌, arith,
  length,
}
use arcana.Common.Vector.{Vec}
use arcana.Runtime.Object.{Value, i64, obj, array, string, Ring, values_refs, children}
use arcana.Runtime.Gc.{Heap, Gc, gc_collect, gc_alloc, mark_object}
use arcana.Runtime.Gc.Reach.{shape, content, Reach, marked_at}
use arcana.Runtime.Gc.Correct.{
  IsHeap, all_roots, gc_collect-Reach, gc_collect-IsHeap, gc_alloc-IsHeap,
}
use arcana.Runtime.Channel.{
  channel_new, channel_send, channel_recv, sent, send_waits, send_closed, recv_waits, recv_closed,
}
use arcana.Runtime.Channel.Fifo.{
  IsRing, queue, Sent, Received, channel_new-IsRing, channel_send-queue, channel_recv-queue,
}
use arcana.Runtime.Channel.Runs.{begin, send, Run-fifo}

abbrev vec_of : List Value → Vec Value
vec_of vs = record { items = vs; cap = 8 }

-- An array that holds a string, and an array that only holds itself.
abbrev heap : Heap
heap =
    record { addr = 3; marked = false; payload = array (vec_of (obj (some 3) ∷ [])) }
    ∷ record { addr = 2; marked = false; payload = string (104 ∷ []) }
    ∷ record { addr = 1; marked = false; payload = array (vec_of (i64 5 ∷ obj (some 2) ∷ [])) }
    ∷ []

abbrev gc : Gc
gc = record {
  objects = heap;
  bytes_allocated = 96;
  next_gc = 1024;
  stress_mode = false;
  alloc_count = 3;
  collect_count = 0;
}

abbrev stack : List Value
stack = obj (some 1) ∷ []

heap-IsHeap : IsHeap heap
unfolding content marked_at
heap-IsHeap = record { clear = λ a. ground arith; unique = (refl, (refl, (refl, tt))) }

survivors :
    shape (gc_collect gc stack [] []).objects
    ≡ (2, string (104 ∷ [])) ∷ (1, array (vec_of (i64 5 ∷ obj (some 2) ∷ []))) ∷ []
unfolding gc_collect mark_object values_refs children
survivors = refl

gc_collect-Reach_example :
    (content (shape (gc_collect gc stack [] []).objects) 3
      ≡ some (array (vec_of (obj (some 3) ∷ []))))
    ↔ ((content (shape heap) 3 ≡ some (array (vec_of (obj (some 3) ∷ []))))
        × Reach (shape heap) (all_roots stack [] []) 3)
gc_collect-Reach_example =
    gc_collect-Reach gc stack [] [] 3 (array (vec_of (obj (some 3) ∷ []))) heap-IsHeap

gc_collect-IsHeap_example : IsHeap (gc_collect gc stack [] []).objects
gc_collect-IsHeap_example = gc_collect-IsHeap gc stack [] [] heap-IsHeap

abbrev loop : Gc
loop = record gc {
  objects = record { addr = 1; marked = false; payload = array (vec_of (obj (some 1) ∷ [])) } ∷ [];
}

gc_alloc-IsHeap_example :
    IsHeap (gc_alloc gc 24 (string []) (some 4)).objects
    × ((b : ℕ)
        → content (shape (gc_alloc gc 24 (string []) (some 4)).objects) b
          ≡ (if 4 == b then some (string []) else content (shape heap) b))
unfolding content
gc_alloc-IsHeap_example = gc_alloc-IsHeap gc 24 4 (string []) heap-IsHeap refl

abbrev one_slot : Ring
one_slot = unfold channel_new in channel_new 0

one_slot-IsRing : IsRing one_slot
unfolding channel_new
one_slot-IsRing = (channel_new-IsRing 0).0

abbrev full : Ring
full = record one_slot { buffer = i64 7 ∷ []; tail = 0; count = 1 }

channel_new-IsRing_example : IsRing (channel_new 0) × (queue (channel_new 0) ≡ [])
channel_new-IsRing_example = channel_new-IsRing 0

channel_send-queue_example :
    ((channel_send one_slot (i64 7) ≡ send_waits)
      × (one_slot.count ≡ one_slot.cap)
      × (one_slot.closed ≡ false))
    ⊎ ((channel_send one_slot (i64 7) ≡ send_closed) × (one_slot.closed ≡ true))
    ⊎ ((t : Ring) × Sent one_slot t (i64 7))
channel_send-queue_example = channel_send-queue one_slot one_slot-IsRing (i64 7)

channel_recv-queue_example :
    ((channel_recv one_slot ≡ recv_waits) × (queue one_slot ≡ []) × (one_slot.closed ≡ false))
    ⊎ ((channel_recv one_slot ≡ recv_closed) × (queue one_slot ≡ []) × (one_slot.closed ≡ true))
    ⊎ ((v : Value) × (t : Ring) × Received one_slot t v)
channel_recv-queue_example = channel_recv-queue one_slot one_slot-IsRing

sent-one : channel_send one_slot (i64 7) ≡ sent full
unfolding channel_send channel_new
sent-one = refl

Run-fifo_example :
    IsRing full
    × (queue one_slot ++ i64 7 ∷ [] ≡ [] ++ queue full)
    × (length (queue full) ≤ full.cap)
Run-fifo_example =
    Run-fifo one_slot full (i64 7 ∷ []) [] one_slot-IsRing (send (i64 7) begin sent-one)

abbrev small_map : Vec (Value × Value)
small_map = record { items = (i64 1, i64 10) ∷ (i64 2, i64 20) ∷ []; cap = 8 }

changed_map : Option (Vec (Value × Value) × Bool) → Vec (Value × Value)
changed_map none = small_map
changed_map (some (m, _)) = m

unfoldable stored_map : Vec (Value × Value)
unfolding changed_map map_set
stored_map = changed_map (map_set [] small_map (i64 2) (i64 7))

stores : map_set [] small_map (i64 2) (i64 7) ≡ some (stored_map, true)
unfolding stored_map
stores = refl

equal_two : val_equal [] (i64 2) (i64 2) ≡ some true
unfolding val_equal
equal_two = refl

map_get-map_set_example :
    (map_get [] stored_map.items (i64 2) ≡ some (some (i64 7)))
    × ((k₂ : Value)
        → val_equal [] (i64 2) k₂ ≡ some false
        → ((x : Value) → val_equal [] x (i64 2) ≡ some true → val_equal [] x k₂ ≡ some false)
        → map_get [] stored_map.items k₂ ≡ map_get [] small_map.items k₂)
map_get-map_set_example =
    map_get-map_set [] small_map stored_map (i64 2) (i64 7) true equal_two stores
