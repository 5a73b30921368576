-- ===== src/Tests/Small.antt =====
-- Uses of the theorems on gdb-stub.c, libthread_db.c and gl3stub.c.
use ndk.Base.{
  ◌≤◌, ◌≡◌, ◌≢◌, ◌↔◌, refl, true, false, Option, none, some, List, [], ◌∷◌, Bytes, codes, equal,
  All, length, if◌then◌else◌, arith,
}
use ndk.Base.CString.{ℤ, pos}
use ndk.Base.CString.Decimal.{print_decimal, print_loop}
use ndk.GdbStub.{Windows, launch, main}
use ndk.GdbStub.CommandLine.{launch_from, main-launch_from}
use ndk.LibthreadDb.{td_dberr, Callback, td_ta_thr_iter}
use ndk.LibthreadDb.Iteration.{here, above, thread, names, td_ta_thr_iter-visit}
use ndk.Gl3Stub.{find_procs, gl3stub_init}
use ndk.Gl3Stub.Found.{named, gl3stub_init-found}

-- A machine on which gdb.exe returns 3.
abbrev machine : Windows
machine = record {
  malloc = λ size. true;
  path = some (codes "C:\\bin");
  module_file_name = some (codes "D:\\ndk\\gdb.exe");
  set_variable = λ variable value. true;
  run = λ command. some 3;
}

main-launch_from_example :
    (let started = launch_from (codes "D:\\ndk\\") (codes "C:\\bin") (codes "-q" ∷ []) in
      (main machine (codes "-q" ∷ []) ≡ launch started (some 3)) × (length started.command ≤ 32767))
main-launch_from_example =
    main-launch_from machine (codes "-q" ∷ []) (codes "C:\\bin") (codes "D:\\ndk") (codes "gdb.exe")
      (λ size. refl) (λ variable value. refl) refl (omega arith) (omega arith) refl (omega arith)
      (refl, (refl, (refl, (refl, (refl, (refl, (refl, tt)))))))

-- The threads seen so far, until the thread 12.
abbrev remember : Callback (List ℤ)
remember handle seen = elim handle.tid [
  | pos n ↦ (equal (n ∷ []) (12 ∷ []), handle.tid ∷ seen)
  | _ ↦ (false, seen)
]

abbrev tasks : Bytes → Option (List Bytes)
tasks path =
    if equal path (codes "/proc/7/task/")
    then some (names (here ∷ above ∷ thread 7 ∷ thread 12 ∷ thread 13 ∷ []))
    else none

td_ta_thr_iter-visit_example :
    td_ta_thr_iter remember tasks (record { pid = 7; ph = 0 }) [] ≡ (td_dberr, pos 12 ∷ pos 7 ∷ [])
unfolding print_decimal print_loop
td_ta_thr_iter-visit_example =
    td_ta_thr_iter-visit remember 7 tasks 0 (here ∷ above ∷ thread 7 ∷ thread 12 ∷ thread 13 ∷ [])
      [] (omega arith) (tt, (tt, (omega arith, (omega arith, (omega arith, tt))))) refl

gl3stub_init-found_example :
    (((gl3stub_init length (λ name. 0)).0 ≡ true) ↔ All (λ s. length s ≢ 0) find_procs)
    × ((name : Bytes)
        → (gl3stub_init length (λ name. 0)).1 name
          ≡ (if named name find_procs then length name else 0))
gl3stub_init-found_example = gl3stub_init-found length (λ name. 0)
