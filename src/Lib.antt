-- ===== src/Lib.antt =====
-- Verification of the C code of the Android NDK.
--
-- The cpufeatures library (sources/android/cpufeatures/cpu-features.c, cpu-features.h) finds out
-- what processor a program runs on. Its parts, from the bottom up:
--   * Base: numbers, tests, lists of bytes, bits of words, C strings, and `Checked`, the results of
--     code that may read outside a buffer or loop for ever.
--   * CpuFeatures/Files.antt: get_file_size and read_file. A file is the list of what its reads
--     will give: pieces of bytes, interrupted calls and errors.
--   * CpuFeatures/CpuInfo.antt: extract_cpuinfo_field and has_list_item, on lists of bytes.
--   * CpuFeatures/Number.antt, CpuFeatures/CpuList.antt: parse_number and its two users, the type
--     CpuList with its operations, and cpulist_parse.
--   * CpuFeatures/Flags.antt and below: the constants HWCAP_*, HWCAP2_* and
--     ANDROID_CPU_*_FEATURE_*.
--   * CpuFeatures/Hwcap.antt: get_elf_hwcap_from_getauxval, get_elf_hwcap_from_proc_self_auxv and
--     get_elf_hwcap_from_proc_cpuinfo. The C library that dlopen finds is a parameter.
--   * CpuFeatures/Arm.antt, CpuFeatures/Targets.antt: the parts of android_cpuInit that a target
--     compiles; the cpuid instruction is a parameter.
--   * CpuFeatures/Init.antt: cpulist_read_from, get_cpu_count and android_cpuInit, on a record of
--     the static variables g_* and a record of what the system provides.
--   * CpuFeatures/Api.antt: pthread_once and the public functions.
-- The native_app_glue library (sources/android/native_app_glue/android_native_app_glue.c and .h)
-- lets an activity's callbacks, on one thread, and an application's android_main, on another, share
-- a structure and a pipe of commands:
--   * NativeAppGlue.antt: struct android_app, with the pipe's bytes as a list, and the functions.
--     The application's onAppCmd is a parameter that may change the saved state.
--   * NativeAppGlue/Callbacks.antt: each callback as what it does before its wait, the condition of
--     the wait, and what it does behind it.
--   * NativeAppGlue/Input.antt: process_input. The application's state and its queue are a type
--     that is a parameter, and the handler stays the same during the loop.
--   * NativeAppGlue/Threads.antt: the steps of the two threads. A section under the mutex is a
--     step; process_cmd is four; the two sections of android_app_destroy are one step. A write to the pipe succeeds, as one of a single byte does while
--     the pipe is open, and android_main returns only when destroyRequested is set, as its
--     documentation asks.
-- The tool ndk-stack (sources/host-tools/ndk-stack/ndk-stack.c and ndk-stack-parser.c) finds crash
-- dumps in a log and prints source lines for their frames:
--   * NdkStack/Tokens.antt: next_separator, next_token, get_next_token and find_pc.
--   * NdkStack/Frame.antt: ParseFrame. Opening a symbol file and addr2line are parameters.
--   * NdkStack.antt: ParseLine with its states. A line's match of a regular expression is a
--     parameter.
--   * NdkStack/Main.antt: the command line, and how the file is cut into lines by a buffer of 2048
--     bytes; NdkStack/Dumps.antt: the loop that hands them to ParseLine.
-- The toolbox for Windows (sources/host-tools/toolbox/cmp_win.c and echo_win.c) is in Toolbox.antt:
-- cmp compares files buffer by buffer, echo prints its arguments. The tool ndk-depends
-- (sources/host-tools/ndk-depends/ndk-depends.cc), compiled for Linux with 64 bits, prints the
-- libraries that an ELF file needs, those that need another one before it:
--   * NdkDepends/Paths.antt, NdkDepends/Reader.antt: the path utilities and the readers of a file.
--   * NdkDepends/Elf.antt, NdkDepends/Dynamic.antt: ElfParser for the classes Elf32 and Elf64, the
--     iterator over the dynamic section, and ElfFile.
--   * NdkDepends/Search.antt: FindLibraryPath, LD_LIBRARY_PATH and ld.so.conf. What fopen, stat
--     and glob answer is a record of functions.
--   * NdkDepends/Dictionary.antt, NdkDepends/Graph.antt, NdkDepends/Sort.antt: the std::map of the
--     source, UpdateDependencies and BuildDependencyGraph, and GetTopologicalSortedLibraries.
--   * NdkDepends/Main.antt: main and DumpDependencyGraph, with what is printed as a list of lines.
-- Its loops over the queue and over the visitors take a number of rounds that the caller gives:
-- they need not end. Five smaller parts are in a file each:
--   * GlContext.antt: the class GLContext of ndk_helper
--     (sources/android/ndk_helper/GLContext.cpp and .h), with the calls of EGL made so far as a
--     list.
--   * Gestures.antt: the gesture detectors of ndk_helper
--     (sources/android/ndk_helper/gestureDetector.cpp and .h), with the numbers of its states and
--     of the actions in Gestures/State.antt.
--   * GdbStub.antt: gdb-stub (sources/host-tools/gdb-stub/gdb-stub.c), which starts gdb on
--     Windows with the variables PATH and PYTHONHOME set. A write behind a buffer's end is
--     `out_of_bounds`.
--   * LibthreadDb.antt: the thread agent for gdb (sources/android/libthread_db/libthread_db.c).
--   * Gl3Stub.antt: the table of OpenGL ES 3 functions (sources/android/ndk_helper/gl3stub.c).
-- Tests holds each theorem's use on concrete input.
--
-- Names are those of the source in snake case (android_cpuInit is android_cpu_init). An int is its
-- bit pattern of 32 bits. Loops over text and files are on fuel; the callers give one round for
-- each byte or read, which is enough since each round but the last takes at least one of them.
-- The loop of cpulist_parse over a range gets a round for each int. strtol is modelled with the long of 32 bits that 32-bit ARM has. malloc is a function that says
-- which sizes it can provide.
--
-- Not modelled: the debug output, closing of files and freeing of memory. The copies of other
-- projects (make-3.81, the regular expressions and addr2line of ndk-stack), the other C++ and
-- Python are not part of the development.
pub mod Base
pub mod CpuFeatures
pub mod GdbStub
pub mod Gestures
pub mod Gl3Stub
pub mod GlContext
pub mod LibthreadDb
pub mod NativeAppGlue
pub mod NdkDepends
pub mod NdkStack
pub mod Tests
pub mod Toolbox
