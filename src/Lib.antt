-- ===== src/Lib.antt =====
-- A model of the Anastasia compiler, the parts that decide what machine code runs and where data
-- lies, with theorems about them.
--
-- The compiler reads a program of registers, blocks and functions, optimises it, places its
-- registers and writes x86-64 code into memory, which then calls back into an object heap.
--   * Ast models the tree of src/frontend/ana_ast.h. Linked lists are lists, pointers that may be
--     null are options, an integer is its bit pattern.
--   * Parser models Parser of src/frontend/ana_parser.cpp and .h over the lexer: its state with advance,
--     expect and the latch of the first error (State), the operands of parse_instruction (Operands,
--     Instructions), parse_basic_block and parse_function (Blocks), parse_class and parse_program
--     (Declarations). Its loops run on fuel.
--   * Frontend models three passes of the parser in src/frontend/ana_parser.cpp: the layout of classes
--     (Layout: resolve_class_layouts, and the placing of a field in parse_class), apply_dce
--     (DeadCode) and optimize_instruction (Fold).
--   * Lexer models Lexer of src/frontend/ana_lexer.cpp and .h. The text is the list of its bytes, and
--     the state is the rest of it with the position and the line (Lexer/Scan). Lexer/Keywords has
--     the tables of words, which the code finds by their hash, and Lexer/Tokens next_token, one
--     function for each branch, with the pool of literals of lexer_alloc_string.
--   * Lowerer models AnaLowerer::compile_function of src/backend/ana_lowerer.cpp, for x86-64. An opcode
--     that does not branch is a Code (Lowerer/Arithmetic, Memory, Vectors, with the operands of
--     Operands and the frame of Frame); DIV, GOTO and the conditional branches take labels and work
--     on the state of the encoder (Labels). Compile has the switch, the loops over the blocks and
--     the installation of the code. Lowerer/Cpu runs decoded instructions on registers, flags and
--     bytes of memory, and the theorems about the code are stated with it: Slots and Access say
--     where a register of the program lies, Meaning what an instruction does to them. Folding sets the
--     parser's constant folding beside it.
--   * Encoder models AnaEncoder of src/backend/ana_encoder.cpp and .h. Encoder/Buffer has the state
--     and the growing buffer (ensure_capacity, emit8, emit32, emit64, emit_bytes, reset). A method
--     that only emits is the list of its emissions, a Code, in Encoder/Prefix, Integer, System and
--     Vector, under the name it has in the source; `emit` runs a Code on the state and `bytes` is
--     what it writes when nothing fails. Encoder/Labels has the labels, the jumps and
--     resolve_labels. Encoder/Decode, Disassemble and DecodeVector are a decoder of x86-64 that is
--     written from the instruction formats and not from the encoder; Encoder/RoundTrip reads the
--     methods back with it. Encoder/Session runs any sequence of methods, and Encoder/Trace says,
--     from the calls alone, where the branches stand and the labels are bound.
--   * RegAlloc models AnaRegAlloc of src/backend/ana_regalloc.cpp and .h, by the same names.
--   * Heap models ObjectHeap of src/sys/object_heap.cpp and .h. Memory is a function from addresses
--     to bytes; chunks are listed with the newest first.
--   * Tlab models the slabs of src/sys/tlab_provider.cpp: get_thread_tlab, tlab_allocate and
--     sigsegv_tlab_handler.
--   * IoRing models IoRing of src/sys/io_ring.cpp and .h: init, submit_sqe and poll_cqe. What malloc
--     answers for its two arrays is an argument.
--   * Optimizer models AnaSSAIR of src/optimizer/ana_ssa.cpp and .h: Pass, Congruence (run_gvn),
--     Lengths (run_length_folding), Scalars (run_escape_analysis), Pipeline. Optimizer/Semantics
--     says what a block does to 64-bit registers.
--   * Base passes library names on and adds Boolean tests, lists and machine words.
--
-- mmap is a parameter: for the encoder, whether the n-th call is granted; for the heap and the
-- slabs, the address that the n-th call gives. What is relied on is named: AddressSpace (no
-- mapping over 2^47 bytes), HasMemory (every mapping of at most 4 GiB is granted), IsMmap
-- (mappings begin at pages and do not overlap) and Grants (slabs are granted, at pages). The
-- meaning of the instructions that the optimiser leaves alone is a parameter too, WritesDest
-- and TerminatorsLeave are what is relied on of it. All loops are recursions on lists or on
-- counts that the source gives; run_gvn counts the instructions of its block, whose number the
-- inner loop keeps. Sizes are those of the source: 512 labels, 1024 relocations, 1024 locals, 8
-- parameters, 64 known strings.
--
-- The lowerer is given the addresses of interned strings and of the two functions that the code
-- calls, and the answers of the system to the mapping of the code. Its code is run as far as the
-- moves, sums, products, 64-bit negations, bitwise operations and returns go, in a machine whose frame and
-- stack do not wrap around and whose code is below 1 GiB; the other opcodes are modelled, not run.
-- The lexer's calls end after as many as there are bytes left, and one more; the loops of the
-- parser have one step of fuel for each of them.
--
-- Not modelled: compile_to_elf of the lowerer, a full arena in the parser, the types of results and
-- the names of parameters, which no code reads, the other processors' backends, the emitters of
-- object files, the debugger and the system layer, whose calls are the parameters above; in the parts that are modelled, the destructors and the
-- accessors that only forward.
pub mod Base
pub mod Ast
pub mod Encoder
pub mod Frontend
pub mod Heap
pub mod IoRing
pub mod Lexer
pub mod Lowerer
pub mod Optimizer
pub mod Parser
pub mod RegAlloc
pub mod Tlab
