-- ===== src/Lib.antt =====
-- Arcana (shikarii/arcana): a model of the compiler back end and the runtime, in parts that follow
-- the directories below src/.
--
-- The program takes a semantic graph, compiles it to bytecode, writes and reads the bytecode as an
-- `.mgc` container, verifies it, and runs it on a stack machine with a mark-sweep collector and
-- channels between threads.
--
-- Common: Boolean tests, lists under native indices, integers, machine words, and Vector, the
--   growable arrays that most C modules write out by hand (capacity doubling in 16 or 32 bits).
--   Arena is common/arena.c, with what its allocations keep apart in Arena/Ranges.
-- Bytecode (src/bytecode): Bytes has the little-endian readers and writers of
--   common/arcana_common.h and format.c; Opcodes the table of opcodes.h; Pool the constant pool
--   (arc_const_pool_add_*); Image the records of format.h; Write arc_image_write; Read
--   arc_image_read. Pool/Laws and RoundTrip prove.
-- Graph (src/semantic_graph/semantic_graph.c): Types has the records of semantic_graph.h, Build the
--   functions that add regions, nodes, ports and edges, Validate arc_graph_validate. Forest, Stages
--   and Accept prove what is accepted; Growth, Changes, Steps and History what the builders build.
-- Verifier (src/verifier/verifier.c): Report is ArcVerifyResult and verr, Operands verify_operands,
--   Heights record_jump_heights and the join test, Scan verify_function and arc_verify. Soundness,
--   Acceptance and Verdict prove.
-- Architecture (src/verifier/architecture.c): Spec has the records and effects, Effects
--   collect_region_effects and verify_effects, Boundaries find_sealed_ancestor, verify_boundaries
--   and arc_arch_verify. The children of Effects prove what is collected, Reports,
--   Ancestors, Crossing and Verdict what a verdict says.
-- Vm (src/vm): State has the machine of vm.h and the helpers of vm_ops.h, Platform what it takes from
--   the C library and the access to the heap, Op the opcodes as a type. Values, Collections,
--   Closures and Intrinsics have the handlers of vm_ops.c and the casts, Concurrency those of
--   vm_concurrency.c, Control those of vm.c, and Run vm_dispatch, arc_vm_run and arc_vm_continue. An
--   instruction is a function on machines whose outcome is a value and a machine, a runtime error, a
--   fault (an access outside a block), or a machine that yields, waits, or leaves the model. Step has
--   rules for the movement of the two pointers, with the handlers in its children; Bounded the rules
--   of the invariant; Reach the loop as a relation; Branches says where jumps go;
--   Verified joins Step and Branches to the verifier; Handlers says what exceptions, calls, returns
--   and integer arithmetic leave.
-- Runtime (src/runtime): Objects is object.c, with its maps in Objects/Laws; Object has the values
--   and objects with the references that marking follows; Gc is gc.c, with its theorems in Gc/Reach,
--   Gc/Marking and Gc/Correct; Channel is the ring buffer of concurrency.c, with its theorems in
--   Channel/Fifo and Channel/Runs.
-- Semantic (src/semantic/scope.c): Scope has the operations, Blocks what a block leaves.
-- Geometry (src/geometry/cyclic_order.c): Cyclic has the queries and the manual setting of an order.
--
-- Numbers are native; a w-bit result is reduced modulo 2 ^ w where the source can wrap. Doubles and
-- 64-bit integers are their bit patterns, and the comparison of doubles is the IEEE one, written
-- out. An attribute of a node read as one of another kind gives 0 or `none` in place of its bytes.
-- A write behind an allocated block is an outcome of its own (`none` or `fault`). A signed sum,
-- difference, product or shift that overflows, which C leaves undefined, wraps around.
--
-- Fuel: the loop over the ancestors of a region has its bound from the source. The scan of a
-- function takes its code length as fuel, as each round moves by a byte at least
-- while no 32-bit offset wraps, which code of fewer than 2 ^ 32 - 4 bytes ensures. Marking takes one
-- more than the number of objects, as each call in a chain marks an object; collecting effects takes
-- one more than the number of regions, as each call in a chain visits a region; and so does the walk
-- to a sealed ancestor, as in a well-formed graph the parents lead to the top.
--
-- The loop of the machine takes its rounds as fuel, since a program may run forever; the relation of
-- Reach has no fuel.
--
-- Not modelled: failing allocations but for that of an object or a block, the freeing of memory, the
-- locks inside an operation of a channel (it is one step), the arguments of formatted messages, the
-- text of what is printed, the instructions that run or inspect another machine (coroutines and
-- threads), and the angles from which a cyclic order is derived. The machine's doubles, number
-- conversions and allocator are parameters (Platform). Of the other parts (the parser of graph files,
-- containment, the lowering of a graph, HIR, MIR, the compiler, the type checker, the interpreter,
-- the service and the tools) there is no model.
pub mod Bytecode
pub mod Common
pub mod Graph
pub mod Architecture
pub mod Runtime
pub mod Verifier
pub mod Vm
pub mod Semantic
pub mod Geometry
