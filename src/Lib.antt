-- ===== src/Lib.antt =====
-- ydsh is a shell with a static type system: a front end (lexer, parser, type checker) compiles a
-- script to byte code, which an interpreter runs; it starts commands as jobs and waits for them.
-- This development models parts of it that carry its logic and no input or output, and proves what
-- makes them correct. Paths are from the repository's root.
--
-- - Prelude, with the children Tests, Lists and Int: names and lemmas that all parts share.
-- - Array: the loops over arrays that src/job.cpp writes out more than once.
-- - Jobs: src/job.h and src/job.cpp. Jobs.Process has `Proc` and `waitForProc`, Jobs.Job has
--   `JobObject`, Jobs.ProcTable and Jobs.JobTable have the tables by pid and by job id, Jobs.Reap has
--   `removeTerminatedJobs`, `detachAll` and `send`, and Jobs.Wait has the operations that wait. A job
--   is an index in a heap, since tables and scripts share it. The answers of `waitpid` are a list
--   that the loops that wait consume, so they are recursion on it; when it ends, the wait answers
--   -1, as an interrupted one does.
-- - Num: src/misc/num_util.hpp, text to integers of w bits. A text is the list of its characters.
-- - Unicode: src/misc/unicode.hpp, UTF-8 and UTF-16. A mask is the division or the remainder that it
--   is. The generated tables of widths are parameters.
-- - Scope: `NameScope` of src/scope.h and src/scope.cpp. Scopes share counters by reference, so they
--   stand in a store. `lookup` climbs on fuel, the number of scopes, as a scope is created after its
--   parent. An unordered map is a list of pairs; no theorem depends on its order. Scope.Import has
--   `importForeignHandles`, and Scope.Frame shows that a frame has room for every local variable.
-- - Modules: `ModuleLoader` of src/scope.h and src/scope.cpp. The file system and the two module
--   directories are parameters.
-- - Vm: src/state.h and src/state.cpp, the frames and the operand stack of the interpreter. Values
--   are opaque. The loops that pop run on the top as fuel, and the growth of the stack on the size
--   that is asked for, as a size of 2 or more grows at each step.
-- - Emit: `readN` and `writeN` of src/misc/buffer.hpp and `CodeEmitter` of src/misc/emitter.hpp, by
--   which the code generator writes the byte code that the interpreter reads. Emit.Patches says what
--   `finalize` is to write.
-- - Parser: `parse_expression` and `parse_unaryExpression` of src/parser.cpp over a list of tokens,
--   with the operators of src/token_kind.h in Parser.Tokens. The depth is bounded by the parser's own
--   guard, so the functions are recursion on the room below it; the loops run on the number of
--   tokens, as each round takes one. Suffix expressions, type names and redirections are parameters.
-- - Grapheme: src/misc/grapheme.hpp on top of Unicode, and the methods of src/builtin.h that loop over
--   it. The generated table of properties is a parameter. `next` runs on the length of the text, as
--   each round moves on; the methods run on fuel, which more than the length suffices for.
-- - Glob: `WildCardMatcher` of src/misc/glob.hpp. The loop that goes back runs on fuel, for which
--   there is a bound. Glob.Base has `resolveBaseDir` of `GlobMatcher`; tilde expansion is a parameter.
-- - Builtin: methods of arrays and strings, src/builtin.h, over `StringRef` of src/misc/string_ref.hpp.
--   The loops of `split` and `replace` run on fuel, which more than the length suffices for.
-- - Opt: the parsers of options, src/misc/opt.hpp, one call each. Opt.Letters has the loop of a command
--   that reads its options, on fuel, for which the number of letters is enough.
-- - Uri: percent-encoding, tools/uri/uri.cpp. `%X` runs on 8 digits, as the number has 32 bits.
--
-- Numbers are natural numbers. Where the code's integers wrap around (Num) the width is written out;
-- elsewhere the indices stay far below their limits and subtraction is not used below 0. Assertions
-- are hypotheses, as a release build drops them.
--
-- Not modelled: the generated lexer, statements and primary expressions of the parser, the type
-- checker, the type pool, the code generator above the emitter, the instruction loop, most objects and
-- builtins, the walk of a glob through directories, completion, the interactive prompt, redirection and signals, and the tools but
-- the URI encoding; and, of the parts above, what calls the system.
pub mod Prelude
pub mod Array
pub mod Jobs
pub mod Num
pub mod Unicode
pub mod Scope
pub mod Modules
pub mod Vm
pub mod Emit
pub mod Parser
pub mod Grapheme
pub mod Uri
pub mod Glob
pub mod Builtin
pub mod Opt
