-- ===== src/Lib.antt =====
-- SciForge's C++ headers: the benchmark side of include/sciforge/bench.hpp, the test harness of
-- include/sciforge/test, and the substrate for Python extension modules of include/sciforge/binding, with
-- the example modules of examples/binding_consumer/bindingdemo and other examples that are built on them.
--
-- The parts. bench.hpp times an operation in batches and writes the raw samples as one JSON document,
-- which the Python side of the project reads. test/framework.hpp registers tests, runs those whose
-- name holds a filter, counts checks, and names the running test when a signal ends the process.
-- binding/ turns C++ functions into CPython entry points: convert.hpp converts the values, error.hpp
-- turns C++ exceptions into Python errors, dispatch.hpp generates the entry points of positional and
-- keyword functions out of the two, class.hpp those of the types that wrap a C++ class, module.hpp the
-- function that imports a module, and gil.hpp has the guards that give up the GIL for a block of code.
--
-- The files.
--   Base and its children: Boolean tests, lists, bytes, signed integers and decimal printing.
--   Cpp: the classes of C++ exceptions that the headers tell apart, and results that may throw.
--   Bench/Json: json_string to emit_run. Bench/Json/Reader is a reader of JSON documents, written
--     apart from the emitter; RoundTrip, Documents and Cases say what it reads of the emitter's texts.
--   Bench/Timing: run_thunk, calibrate, batch_time and collect; Counts says what they measure.
--   Harness/Strings: test/strings.hpp. Harness/Checks: the counters and the EXPECT checks.
--     Harness/Runner: the registry and run_all. Harness/Crash: the signal handlers. Counts, Verdict,
--     Reports and Signals are about them.
--   Binding/Python: the interpreter as the headers see it: the error indicator, the references that
--     the C++ code owns, and the calls of CPython as a record of functions. Binding/Convention: the rule
--     that a null pointer means an error set.
--   Binding/Error, Binding/Convert, Binding/Dispatch and Binding/Keywords: error.hpp, convert.hpp, and
--     the positional and the keyword half of dispatch.hpp, each with child modules for its laws.
--     Binding/Convert/Casters is the class template caster: one conversion for each type, by its code;
--     Binding/Convert/Doubles is about that of double, Refusals about results that Python refuses;
--     Binding/Dispatch/Typed has the functions over such types.
--   Binding/Class: the entry points of a wrapped type of class.hpp, with the caster of
--     SCIFORGE_WRAPPED; Slots, Init, Nested, Equality and Wrapped are about them. Binding/Class/Builder: the
--     builder class_; Registered says what it leaves in a type's tables. Binding/Class/Store: the memory
--     of the held values, with class_init, class_wrap and class_dealloc on it, and the abstract store that
--     it implements; Initialized ties class_init on the two together.
--   Binding/Module: module_builder and the PyInit function of SCIFORGE_MODULE, run over the statements
--     of a module's body. Imports, Table, Conflicts, Given and Leaks say how an import ends; Defaults,
--     Errors, Claimed and Complete are about the statements on the way, and Ledger, Factories, Types and
--     References about the references that they take. Settled and Called say what the spec of a keyword
--     function is behind an import, and Calls what a call of it then does; Constructed and Constructs do
--     the same for the constructor of a class.
--     Sequences is about any number of imports in one process.
--   Binding/Gil: the guards; Scopes is about code with guards in it.
--   Example/Demo and Refused: the bodies of _demo.cpp, _conflict.cpp, _throwing.cpp and
--     negative/required_after_optional.cpp. Functions, Guarded, Widget, Vec and Handle: the functions
--     and classes of _demo.cpp; Computes, Hashable, Described, Overflow and Handle/Lifetime are about
--     them. Consumers: the small programs of examples/py_consumer, examples/dummy_consumer and
--     examples/lint_consumer, and lint/test/probe.cpp.
--
-- The state is passed explicitly: State and Process for the harness, Progress for the timing loops,
-- World for the interpreter, Instances for what the objects of a wrapped type hold (Heap for the memory
-- behind it), Registry for a type's tables, SpecStore for the keyword specs, Building for a builder with
-- the variables that it writes, Statics for all that outlives an import. A C++ exception is a value of
-- Result, with the state kept as it is when the exception is thrown. A text is its list of bytes. A
-- function, a factory or a wrapped class that has static variables of its own is a number.
--
-- Parameters: the clock, which may depend on the calls and readings before it, the arithmetic on
-- `double` and what snprintf prints of one, CPython's functions (Python, Importer, Threads, Capsules and
-- single ones) and its argument parser. What a theorem relies on
-- of them is a named hypothesis, after their documentation. In the binding a `double` is its 64 bits.
--
-- Arithmetic on long long in the examples gives `none` where it would overflow.
--
-- What Python code constructs within a caster or a factory is a part of the factory, as the instances
-- that it leaves. In the memory of Store a construction is one step. A tuple item or a stored default
-- that is not there, and a null pointer that a caster is given for it, end a call in a way that CPython's
-- convention excludes.
--
-- Fuel. The JSON reader takes one unit for each value and list element, so the document's length is
-- enough. Delivering a signal takes one unit for each time that it is raised: two are enough
-- wherever the previous handler is not the harness's own.
--
-- Not modelled: overflow of the harness's counters; the texts in method tables; the self-tests, the
-- Python packages and the build tooling.
pub mod Base
pub mod Cpp
pub mod Bench
pub mod Example
pub mod Harness
pub mod Binding
