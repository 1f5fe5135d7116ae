-- ===== src/Lib.antt =====
-- LatencyOS: the px64 virtual machine of PulseLang, the lexer and the code that is emitted for the
-- machine (pulselang-core), the file system, the ring buffer, the encryption, the congestion
-- control and the text editor of the kernel.
--
-- The program. PulseLang source is compiled to px64 bytecode, which is stored in a container file
-- and run by a register machine that allocates nothing. The kernel hands frames from core to core
-- through rings with one producer and one consumer, encrypts the packets it sends, keeps files in
-- a table in memory, and has an editor for them.
--
-- Isa models pulselang-core/src/isa.rs: `Codes` the numbers of the instructions and of the native
-- functions, `Names` the functions that print them, `Limits` the limits and tags.
--
-- Vm models pulselang-core/src/vm.rs. `State` has `PX64VM` in two records, `Setup` for what a run
-- never changes and `Vm` for what it changes, and the machine below in a third, `Host`, which is a
-- parameter of the definitions that use it. `Alu`, `Slots`, `Flow`, `Crc`, `Text` and `Calls` have
-- one function per arm of `run_with_output`, `Exec` puts them together: `exec` is `match op`,
-- `turn` one round of the loop, `run` the loop. An i64 is a number below 2 ^ 64, and operations on
-- it are written out modulo 2 ^ 64. Fixed arrays are functions from an index, and each access says
-- what the source does out of range: some arms test the index, and where none does the outcome is
-- a panic. The other modules of Vm hold proofs: `Effect` how a fact about each instruction becomes
-- one about a turn, `Watchdog` the step limit, `Frames` subroutines, `Bounded` the stack pointers,
-- `Safe` when nothing panics, `Tags` and `Strings` tagged values, `Replay` the replay of a run.
--
-- Image models the container, which `compile_pulse_to_binary_with_tokens` of
-- pulselang-core/src/lib.rs writes and `run_binary_with_output` of pulselang-core/src/vm.rs reads.
--
-- Lexer models pulselang-core/src/lexer.rs and token.rs: `Lexer.Tokens` the kinds of tokens and
-- the place of a byte, `Lexer.Words` the words and symbols, `Lexer.Scanner` one token, and `Lexer`
-- the blanks, the comments and the loop. The loops on the source have its length as fuel, as each
-- round passes a byte. `Lexer.Lengths`, `Lexer.Spans`, `Lexer.Room`, `Lexer.Places` and
-- `Lexer.Decimal` hold the proofs.
--
-- Crypto models kernel/src/crypto.rs: `Crypto.Tables` the tables, `Crypto` AES-128, `Crypto.Gcm`
-- the hash and the authenticated encryption, whose loops have the length of the text as fuel.
-- `Crypto.SBox` compares the S-box with the definition of AES, `Crypto.Block` is about blocks and
-- `Crypto.Stream` about the payload.
--
-- Editor models the text editor of kernel/src/editor.rs: `Editor.Arrays` the loops over its
-- buffer, `Editor` its state and the operations at the cursor, `Editor.Lines` those on lines,
-- `Editor.Commands` and `Editor.Keys` what each byte of a session does, and the redraws between
-- the bytes. `Editor.Painting` has the loops that paint the text, without the bytes they send, and
-- with the length of the text as fuel, as each round passes a byte: `Editor.Paints` shows that
-- this is enough. An index out of range and a difference below 0 are panics. `Editor.Zipper` says
-- what is promised on the bytes before and behind the cursor, `Editor.Refinement` that it is kept,
-- and `Editor.Redraws` is about the redraws, `Editor.Sessions` puts the keys together; the other
-- modules below Editor hold the parts of their proofs.
--
-- Emit models the state that the code generator of pulselang-core/src/compiler.rs keeps: code
-- buffer, constant pool and scratch registers. `Emit.Constants` and `Emit.Jumps` run what was
-- emitted on the machine of Vm, `Emit.Operators` has the rounds of the loops over binary
-- operators, and `Emit.Machine`, `Emit.Binary` and `Emit.Rounds` run what they emit; `Emit.Growth`
-- says that emitting only adds, `Emit.Temps` is about the scratch registers.
--
-- Fs models kernel/src/fs.rs: `Fs.Path` the normalization of paths, `Fs` the table of files and
-- the operations on it, with the time stamp counter as an argument and a list of what is passed on
-- to the export disk. A file system has 128 slots. `Fs.Store` is about searches in the table,
-- `Fs.Names` about the names in it, `Fs.Contents` about what the exact search finds after each
-- operation. `Fs.Reads` has `fs_read`, `fs_write`, `fs_copy`, `fs_exists` and `fs_is_dir` with the
-- short names of kernel/src/export_disk.rs, and the video memory as an argument; `Fs.Exact` and
-- `Fs.Copies` are about what `fs_read` gives after the operations, its fallbacks included.
--
-- Latency models the samples of kernel/src/latency.rs and their statistics. A slice is an array
-- with the place where it begins and its length; the sort has fuel for the depth of its recursion,
-- which the length bounds. `Latency.Shuffle` says when items were only moved, `Latency.Partition`
-- and `Latency.Sort` are about the two functions.
--
-- Net models parts of kernel/src/net.rs: the congestion control with `tsc_to_ns` of
-- kernel/src/tsc.rs, the checksum of the IPv4 header, whose loop of carries has fuel for two
-- rounds, which a sum of 32 bits does not exceed, and the nonces that packets are encrypted with.
-- `Net.Congestion`, `Net.Checksum` and `Net.Nonce` hold the proofs.
--
-- Ring models kernel/src/ring_buffer.rs: `Ring` has the operations, `Ring.Queue` what they mean
-- for a queue, and `Ring.Cores` the two cores as steps, one for each load and store, with an
-- invariant of all the states that can be reached. The loads and stores are taken in one order
-- that all cores agree on; the acquire and release orderings of the source are why this is enough.
--
-- Fuel. `run` takes fuel, one unit for each turn; `max_steps + 1` is enough for a program that
-- reads no keys. Decimal digits are printed with fuel for twenty digits, which a word cannot
-- exceed.
--
-- Not modelled: the parser of the compiler, the formatter and the tools around the machine, the
-- rest of the kernel, and everything that only talks to devices or files.
pub mod Prelude
pub mod Isa
pub mod Vm
pub mod Image
pub mod Ring
pub mod Editor
pub mod Emit
pub mod Fs
pub mod Net
pub mod Latency
pub mod Crypto
pub mod Lexer
