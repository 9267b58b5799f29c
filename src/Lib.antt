-- ===== src/Lib.antt =====
-- fql: SQL queries over text files. A query is parsed (lib/antlr), built (lib/query.c) and turned into
-- a plan of processes (lib/fqlplan.c) that pass records through fifos (util/fifo.c). A process
-- evaluates expressions (lib/scalarfn.c) and conditions (lib/logic.c, lib/fqllogic.c) on records.
--
--   Prelude   shared names, tests and lemmas; Prelude.Tabulate writes segments into lists
--   Status    the return codes of lib/include/fql.h and the macros of lib/misc.h that pass them up
--   Text      util/stringview.c: the comparison that ignores case and trailing white space
--   Field     lib/field.c, lib/inlist.c: the types of fields and the type of an expression;
--             Field.Convert has the conversions of a field, with those of util/util.c
--   Logic     lib/logic.c: condition trees, their evaluation, and the test that picks a hash join;
--             Logic.Functions is lib/fqllogic.c and Logic.Functions.Matrix the choice among them
--   Search    lib/query.c, lib/antlr/listenerinterface.cpp: the walk of a parsed search condition and
--             the groups that it leaves in memory
--   Aggregate lib/aggregatefn.c and the updates of lib/group.c: the aggregates of a group
--   Case      lib/switchcase.c: the CASE expression
--   Scalar    lib/misc.h, lib/scalarfn.c: Scalar.Arith has the integer operators with their overflow
--             tests, Scalar.Strings the string functions with their UTF-8 steps
--   Fifo      util/fifo.c: the circular buffer between two processes; Fifo.Reach has its steps over
--             time
--   Process   lib/process.h: what a process returns; Process.Filter is the filter of
--             lib/fqlprocesses.c between its fifos, Process.Schedule the passes of lib/process.c
--   Join      lib/fqlprocesses.c, lib/table.c: the two sides of the hash join on their multimap:
--             Join.Matches is what it means, Join.Row and Join.Rows the rounds of the left side
--   Flex      util/flex.c: a vector of elements of different sizes
--   Order     lib/order.c: the keys of ORDER BY, their comparison, and TOP; Order.Direction is what
--             ASC and DESC mean
--   Hash      util/hashmap.c: hash tables with linear probing: Hash.Digest has the hash functions,
--             Hash.Probe the loop over the entries, Hash.Keys and Hash.Moving the invariant of the
--             entries and their move to a larger table, Hash.Table and Hash.Insert the table with
--             its key buffer, Hash.Map, Hash.HashSet and Hash.Multimap what stands on it, and
--             Hash.Composite the map whose keys are lists of views
--   Group     lib/group.c: the rows of GROUP BY and DISTINCT: Group.Buckets is what grouping means,
--             Group.Record and Group.Dump the two ends of a group, Group.Lines both together
--
-- Bounds: a fifo has up to 2 ^ 31 slots, so that the sums of its unsigned indices do not wrap round,
-- a view up to 2 ^ 31 - 1 bytes, so that a difference of lengths is an int; a
-- group has fewer than 2 ^ 32 rows, so that its count does not wrap round. All loops are
-- structural recursion on lists or trees, but for some that run on fuel: in Hash 64 doublings for a
-- power of two, enough up to 2 ^ 63, and as many probes as a table has entries, enough as long as one
-- of them is free. In Process the loops over a fifo run on the number of its slots, more than it can
-- hold, and the passes over a plan on a number above the measure that their theorem asks for. In Join the
-- rounds for a row run on one more than the rows of the right side, enough for all matches.
--
-- Parameters: the action of a process, what the condition of a filter is for a record (Logic.eval in
-- its tests), the getters of lib/expression.c, the printing of numbers, strtol and strtod, the double
-- of C, PCRE2 and the key set of a sub-select are arguments of the definitions that call them.
--
-- Not modelled: the generated parser (lib/antlr/gen), the command line (src), I/O and the csv
-- library, the plan (lib/fqlplan.c), the other processes (lib/fqlprocesses.c), threads, name
-- resolution (lib/schema.c), locks and waits.
pub mod Prelude
pub mod Status
pub mod Text
pub mod Field
pub mod Logic
pub mod Aggregate
pub mod Case
pub mod Scalar
pub mod Search
pub mod Group
pub mod Join
pub mod Hash
pub mod Process
pub mod Order
pub mod Flex
pub mod Fifo
