-- ===== src/Lib.antt =====
-- Verification of the example programs of the course "Programming with C". Each directory
-- `weekNN_...` of the repository is a program of its own; those with data structures, formats or
-- state machines are modelled, each in a module with the types and operations of the code and
-- child modules with its lemmas.
--
-- Base has the shared names, lists with the operations that C arrays need, integers, binary digits.
-- Tree models the binary search tree of week33_trees_hash_tables_and_abstract_data_types/adt.c.
--   `tree_insert` is `insert`, and so on. A link is an occurrence of the data type, since no two
--   links of the code lead to the same node. The first argument of `insert` is whether `malloc`
--   succeeds.
-- HashMap models the chained map of the same file. `struct Map` is a record with a list of chains.
--   `Memory` says which allocations succeed. Arithmetic on `size_t` is modulo 2 ^ 64, and so is
--   the hash, FNV-1a of 64 bits.
-- Constrained.Pool and Constrained.Ring model the block pool and the byte ring of
--   week53_constrained_resource_programming/constrained.c. In the pool the first word of a block
--   is a link while the block is free and the client's otherwise; `client_write` is what a client
--   does to it.
-- Wire models week37_portability_and_the_machine_model/portable.c. A buffer is a list of bytes, a
--   string is the list of the bytes before its terminator.
-- BitOps models week25_bit_level_operations/bits.c. Shifts are written as multiplication and division
--   by powers of two. The loop of `popcount_kernighan` runs on fuel of 33 tests: a value below
--   2 ^ 32 has at most 32 set bits, and each round clears one.
-- DynArray models week19_dynamic_memory_allocation/dynarray.c. `Allocator` is `malloc` and `realloc`
--   with their documented behaviour, a parameter of every operation that calls them.
-- Protocol models week55_embedded_debugging_and_testing/protocol.c and protocol.h. The functions of
--   the HAL are the bytes that arrive during a call, the tick at its start, and the bytes written.
--
-- Recursion models week18_recursion/recur.c. The upper end of a search is written `hi + 1`, so
-- that it is never negative. The searches run on fuel: `n + 1` tests are enough for `n` elements,
-- since each test that finds nothing leaves out the middle one. Sums are exact: F(92) is the
-- last that a `long` holds.
--
-- Blocking models the queue of week41_concurrency_and_the_c_memory_model/concurrent.c. The code
-- under the lock is one step; a wait gives up the lock without having changed the queue, and the
-- loop around it tests again, so it is no step. A run is any sequence of steps of any threads. The
-- signals that wake waiting threads are not modelled.
--
-- Checked models the checked addition and allocation of
-- week36_undefined_behavior_and_secure_coding/ub.c; `calloc` and `malloc` are parameters.
--
-- EventServer models week47_event_driven_and_scalable_i_o/evserver.c: Connection what is done with
-- one connection, Server the table of connections and the handling of one event. `conn_process_input`
-- is `process_input`, whose loop `process_lines` looks for the line end byte by byte, so that it
-- needs no fuel. The results of `recv`, `send` and `accept` are lists; behind the end of a list
-- every call returns `EAGAIN`, which ends the loops. `serve` and `settle` are the body of the loop
-- over the events in `main`.
--
-- LinkedList models week32_linked_data_structures/lists.c on a store of nodes. Its loops run on
-- fuel, one round for each node and one more for NULL; the results are for any fuel that is more
-- than the length of the list.
--
-- Records models parser.c and legacy.c of week56_maintaining_long_lived_c_codebases: two functions
-- `parse_record`, of which the older one is `legacy`.
--
-- Arrays models week12_one_and_multi_dimensional_arrays/arrays.c, and the loops of
-- week15_pointer_arithmetic_and_arrays/ptrmath.c and week16_pointers_as_function_parameters/params.c.
-- Loops recurse on the number of rounds that are left, so they need no fuel.
--
-- Interrupts models the handlers and the receive ring of
-- week51_interrupts_and_real_time_behavior/interrupts.c; `rx_get` is cut into the accesses between
-- which a handler can come. Console models the printing of numbers of the same file, on rounds that
-- are bounded by the number of digits: 10 for 32 bits and 20 for 64.
--
-- Constrained.Fixed models the rest of constrained.c: `put_int`, Q16.16, the sine table, the PID step.
--
-- TestedMap models week35_debugging_testing_and_analysis/tests.c, the map and its suite; the chains
-- and the hash are those of HashMap, which the file copies.
--
-- Texts models week14_strings_and_character_handling/strings.c; memory is the list of its bytes.
--
-- Filter models week31_command_line_interfaces_and_the_environment/filter.c: Filter the layers of its
-- configuration, Filter.Stage the copying of the inputs and `main`. Doubling models `double_numbers`
-- of week27_error_handling_strategies/errors.c, and Reload
-- week44_collaborative_development_and_code_review/config.c. A file is its bytes and whether a read
-- error stands behind them; Base.Streams reads it by `fgets`. Loops over a file run on fuel of one round
-- more than there are bytes, since each round reads one at least. What is opened, allocated and given
-- back is a list of events.
--
-- Generic models week30_function_pointers_callbacks_and_generic_programming/generic.c: a vector is a
-- block of bytes, elements are written at offsets into it, and a callback is a function.
--
-- OpaqueArray models week28_the_preprocessor_and_modular_programming/intarray.c on the record and the
-- allocator of DynArray.
--
-- Sieve models week10_loops_and_flow_control/loops.c for any limit. Its loops run on fuel of one round
-- more than the limit, since the number or the multiple grows in each round.
--
-- Uart models week50_memory_mapped_i_o_and_hardware_registers/uart.c: a function is the list of its
-- accesses to registers, and the device the list of what its flag register gives.
--
-- Uniform models `uniform` of week24_the_standard_library_toolbox/toolbox.c, with the results of `rand` as
-- a list.
--
-- The programs share no code, so that the modules seldom call each other: TestedMap uses the chains of
-- HashMap, Filter and Reload its comparison of strings, Constrained.Fixed the digits of Console, and
-- OpaqueArray compares itself with DynArray. Each uses Base.
--
-- Not modelled: the functions `main` that only print, programs that compute with `double`, start-up
-- code, and programs that are sequences of system calls.
pub mod Base
pub mod TestedMap
pub mod Tree
pub mod HashMap
pub mod Interrupts
pub mod Console
pub mod Constrained
pub mod Wire
pub mod BitOps
pub mod DynArray
pub mod Protocol
pub mod Recursion
pub mod Blocking
pub mod Checked
pub mod EventServer
pub mod LinkedList
pub mod Records
pub mod Arrays
pub mod Texts
pub mod Filter
pub mod Doubling
pub mod Generic
pub mod OpaqueArray
pub mod Reload
pub mod Sieve
pub mod Uart
pub mod Uniform
