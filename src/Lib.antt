-- ===== src/Lib.antt =====
-- The query engine: the SQL semantics that its parts must agree on, the parts of the optimizer and
-- the scan that rely on them, and the data structures under the storage and the scheduler.
--
-- An expression is bound (src/binder), optimized (src/optimizer) and compiled to a closure over a
-- row (src/execution). A scan asks the zone maps of each chunk (src/storage) whether the pruner may
-- skip it, and storage keeps integer columns encoded (src/storage/encoding).
--
-- Values, Values/Ops: the nullable values and the operator tables of
--   src/execution/value-ops.ts. JavaScript's own arithmetic, comparison and conversion of scalars
--   are the record `Js`, a parameter; `F` stands for the numbers, NaN and both zeros among them.
-- Exprs, Exprs/Eval: the bound expressions of src/binder/expression-binder.ts and `compileExpression` of
--   src/execution/expression-eval.ts, as a recursive evaluator on a row. A row is a function on
--   column references. The kinds that are not modelled (CASE, CAST, LIKE, functions, subqueries)
--   are one node, `computed`, that carries its own evaluator.
-- Exprs/Conjuncts: src/binder/conjuncts.ts. The loop runs on fuel, the size of the predicate's ANDs, as
--   each round takes one node off the stack.
-- Parser/Lexer: src/parser/lexer.ts over UTF-16 units, with its blanks, tokens and scans below it. Each
--   step is on the rest of the input; comments and tokens run on fuel, the length of the input, as
--   each round takes at least one unit.
-- Optimizer/NullRejection: src/optimizer/passes/null-rejection.ts, which licenses outer-to-inner.
-- Pruning, Pruning/Order: src/storage/zone-map.ts. A column is the list of the values that the
--   selection leaves. `Ordered` names the laws of JavaScript's `<`, `<=` and `===` that pruning
--   rests on: the order is transitive among values of one kind, and total where neither is NaN.
-- Pruning/Rules, Pruning/Truth, Pruning/Compile: src/execution/zone-map-pruner.ts without LIKE.
-- Pruning/Sound: the pruner against the rows of the chunk.
-- Execution/Filter: src/execution/operators/filter.ts, running a plan on a chunk. The dispatch that filters
--   a column in parallel is a parameter. The merges run on fuel, the lengths of both lists together,
--   since each round drops an element of one.
-- Execution/Filter/Analyze: how the same file plans a predicate, and Execution/Columns: the references that
--   src/execution/column-resolve.ts resolves. The types of the columns and what the dispatch can
--   run are parameters.
-- Execution/Pipelines: src/execution/pipeline.ts. Pipelines/Scheduler: src/execution/scheduler.ts, from one
--   wait to the next; an event says which pipeline ended or failed, or that the query is cancelled.
--   Pipelines/Build names the graphs that the two operations make.
-- Execution/SetOp: src/execution/operators/set-op.ts. The text that tells rows apart is a parameter.
-- Optimizer/IndexSelection: src/optimizer/passes/index-selection.ts on a filter over a scan. The functions of
--   Math, the constants and the catalog are parameters.
-- Encoding/RunLength: src/storage/encoding/run-length.ts. `search_loop` runs on fuel, the number of runs;
--   each round shrinks the interval searched.
-- Encoding/FrameOfReference: src/storage/encoding/frame-of-reference.ts and the bounds of
--   src/storage/encoding/integer-values.ts. Typed arrays wrap what they store.
-- Parallel/Morsels: src/parallel/morsel-scheduler.ts. The counter is a word of 32 bits that wraps; each
--   `next` is one step, so an interleaving of workers is a sequence of calls. `drain` runs on fuel,
--   which is enough when it exceeds the number of units.
-- Wasm/Regions: src/wasm/region-allocator.ts. Growing the memory is a parameter. `double_until` runs on as
--   much fuel as bytes are needed, which is enough for a region of at least one byte; rounding up
--   past 2^31, where `&` turns negative, ends in the failure `past_int32`.
-- Utils/Words, Utils/Bitmap, Utils/Hash, Utils/Bloom: src/utils/bitmap.ts, hash.ts and bloom-filter.ts. A
--   word is a number whose bits the operators combine; the bytes of a double and the logarithms that
--   size a filter are parameters.
-- Storage/BTree: src/storage/btree.ts. The tree is a value, and a leaf has an identity
--   for the links; the operations are in BTree/Operations, `_compare` in BTree/Keys. The binary searches
--   run on fuel, the number of keys; each round shrinks the interval searched. `range_loop` of BTree/Range
--   runs on the number of leaves; each round goes on to the next.
-- Tests: concrete inputs. Tests/Machine is a `Js` whose numbers are naturals.
--
-- The parts meet in the values: the pruner, the null rejection and the filter all speak of the truth
-- that the evaluator gives a predicate on a row.
--
-- Not modelled: the parser, binding and scopes, plans and the other passes over them,
-- join ordering, the other operators, tables, the bit-packed encoding and the byte
-- streams, the LRU cache and the priority queue, which need models of their own; the command line, the data frames,
-- the distributed runtime and the bindings to the host, which only pass values on.
pub mod Prelude
pub mod Values
pub mod Exprs
pub mod Optimizer
pub mod Pruning
pub mod Execution
pub mod Parser
pub mod Encoding
pub mod Parallel
pub mod Wasm
pub mod Utils
pub mod Storage
pub mod Tests
