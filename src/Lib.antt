-- ===== src/Lib.antt =====
-- DevQ: the kernel of a quantum device scheduler, with the circuits and devices that it reads.
--
-- Parts and how they interact.
-- - kernel/kernel.py drives everything. A submission enters the process table (kernel/process) and
--   the kernel's router queue. A cycle (`step`) collects finished executions, routes the waiting
--   submissions to a device with a router (kernel/router), and lets each device's scheduler
--   (kernel/scheduler) pick jobs of its queue; the picked jobs are executed.
-- - frontends/qasm2 reads OpenQASM 2.0 text into the circuit of a submission: a tokenizer, an
--   evaluator of gate parameters, and a parser that flattens registers and inlines custom gates.
--   frontends/resolver.py picks the frontend of a source, and config/config_loader.py resolves the
--   weights and policies that the kernel's parts are built with.
-- - A scheduler asks its memory manager (kernel/memory/memory_manager.py) for qubits, which asks an
--   allocator (kernel/memory/allocators), which reserves them in the device's pool
--   (kernel/memory/qubit_pool.py). kernel/sweep.py holds the scoring that the noise-aware allocator
--   and the noise-aware router share.
--
-- Files.
-- - Numeric, Errors, Prelude: floating-point numbers as an ordered interface, exceptions as values,
--   and lists, sets and sorts over the native numbers.
-- - Circuit: circuits/circuit_rep.py. Device: hardware/device.py.
-- - Pool: kernel/memory/qubit_pool.py; Memory: memory_manager.py; Alloc and its child modules:
--   base_allocator.py (Alloc), filtering.py (Filtering), static_allocator.py (Static),
--   graph_allocator.py (Graph), noise_graph_allocator.py (NoiseGraph). Alloc/Placement and
--   Memory/Contract say what an allocator promises.
-- - Sweep: kernel/sweep.py. Process: kernel/process and circuits/execution_result.py.
-- - Scheduler: base_scheduler.py; Scheduler/Ordered: fcfs_scheduler.py and
--   shortest_depth_scheduler.py; Scheduler/Packing: packing_scheduler.py.
-- - Context: kernel/device_context.py. Router: base_router.py, with Route for `route` and `explain`,
--   Noise for noise_router.py and RoundRobin for round_robin_router.py.
-- - Kernel: kernel/kernel.py, with Dispatch, Resolve, Submit, Cycle and Wait for its operations.
-- - Qasm2: frontends/qasm2. Outcome and Python: how reading ends, and what it takes from Python.
--   Tokens and Tokenizer: tokenizer.py and the TokenCursor of parser.py; Expression: expression.py;
--   Parser with Definitions, Inline, Calls and Statements: parser.py. Ends and the modules Total,
--   Expression/Ends and Parser/Resolved are about what a step of reading leaves, Expression/Grammar
--   and Expression/Meaning about the documented grammar.
-- - Resolver: frontends/resolver.py. Config: config/config_loader.py, with the core keys and the
--   validators of registry/keyspec.py in Core and its rewriting of keys in Keys. Dict: Python's
--   dict, as these and the frontend use it.
-- - Samples: small devices, circuits and jobs with which the theorems are applied.
--
-- State. A method that changes its object is a function that returns the changed record. The jobs
-- are shared between the process table, the kernel and the schedulers: they stand in the table, and
-- every queue holds job ids. A scheduler's queue and memory manager stand in its device context.
-- A Python set is the list of its members in iteration order, and a dict is an association list.
-- Exceptions are values of `Result`. Texts that the program shows to a user are data types with the
-- values shown in the text.
--
-- Loops. Loops over lists are structural recursion. The breadth-first searches
-- take as bound the number of qubits that the block still lacks, or the number of eligible qubits,
-- of which each round adds one, and are structural in the queue where a round adds none. The loops
-- of `_wait_for` and `drain` end by the clock and run on fuel: each round reads the clock, so fuel up
-- to the first reading behind which the deadline is always past is enough. The tokenizer, the
-- expression evaluator and the parser run on fuel that is computed from the number of characters or
-- tokens left: one more than that number for a loop, six for each token and six more for an
-- expression. Inlining is bounded by the depth limit of the source, 101 levels.
--
-- Outside. Floating-point arithmetic is the record `Float`; theorems that need an order take
-- `IsOrdered`. The clock, and whether an execution future is done and with which result, are a
-- parameter of the kernel (`World`), read by the number of the observation. What a provider
-- supports is a field of the device. The frontend's float(), int(), math and the machine's index size
-- are the record `Math`, and the character classes of str the record `Classes`, of which termination
-- takes one law.
--
-- Not modelled: the reading of sources and configuration files, the shell and the registry (text
-- input and dynamic import), the facade devq.py, the providers and the engine (third-party
-- simulators), event sinks (output), the benchmark and the research scripts, and labels for display.
-- Python's recursion limit, which a deeply nested expression can reach, and the exhaustion of memory
-- by a huge register are not modelled. Nor is an allocator that returns None, against the docstring of
-- `allocate`: the first-come-first-served and shortest-depth schedulers would take None for a
-- placement.
pub mod Prelude
pub mod Numeric
pub mod Errors
pub mod Dict
pub mod Circuit
pub mod Device
pub mod Pool
pub mod Sweep
pub mod Alloc
pub mod Memory
pub mod Process
pub mod Scheduler
pub mod Context
pub mod Router
pub mod Kernel
pub mod Qasm2
pub mod Config
pub mod Resolver
pub mod Samples
