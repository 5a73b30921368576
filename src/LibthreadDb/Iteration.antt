-- ===== src/LibthreadDb/Iteration.antt =====
-- Which threads td_ta_thr_iter of libthread_db.c hands to the callback.
use ndk.Base.{
  ℕ, ◌^◌, ◌<◌, Option, some, List, [], ◌∷◌, ◌++◌, Bytes, codes, length-append, take-all, All, ◌≡◌,
  refl, if◌then◌else◌, arith,
}
use ndk.Base.CString.{pos}
use ndk.Base.CString.Decimal.{
  print_decimal, strtol-print_decimal, length-print_decimal, print_decimal-first,
}
use ndk.LibthreadDb.{TdErr, td_ok, td_dberr, Callback, task_path, entry_loop, td_ta_thr_iter}

-- An entry of /proc/<pid>/task: the directory, the one above it, or a thread.
pub data Entry : Type 0 where
  here above : Entry
  thread : ℕ → Entry

abbrev pub entry_name : Entry → Bytes
entry_name here = codes "."
entry_name above = codes ".."
entry_name (thread tid) = print_decimal tid

abbrev pub names : List Entry → List Bytes
names [] = []
names (entry ∷ entries) = entry_name entry ∷ names entries

-- A thread's id is an `int`.
abbrev pub IsInt : Entry → Type 0
IsInt here = Unit
IsInt above = Unit
IsInt (thread tid) = tid < 2 ^ 31

module _ {S : Type 0} (func : Callback S) (pid : ℕ) where
  -- The callback gets each thread in the order of the entries, until it asks to stop.
  abbrev pub visit : List Entry → S → TdErr × S
  visit [] s = (td_ok, s)
  visit (here ∷ entries) s = visit entries s
  visit (above ∷ entries) s = visit entries s
  visit (thread tid ∷ entries) s =
      let (stop, s') = func (record { pid = pid; tid = pos tid }) s in
      let rest = visit entries s' in if stop then (td_dberr, s') else rest

  entry_loop-visit :
      (entries : List Entry) (s : S)
      → All IsInt entries
      → entry_loop func pid (names entries) s ≡ visit entries s
  unfolding entry_loop
  entry_loop-visit [] s h = refl
  entry_loop-visit (here ∷ entries) s h = entry_loop-visit entries s h.1
  entry_loop-visit (above ∷ entries) s h = entry_loop-visit entries s h.1
  entry_loop-visit (thread tid ∷ entries) s h = rw (
    print_decimal-first tid [],
    print_decimal-first tid (codes "."),
    strtol-print_decimal tid h.0,
    entry_loop-visit entries (func (record { pid = pid; tid = pos tid }) s).1 h.1,
  )

  task_path-whole :
      pid < 2 ^ 31 → task_path pid ≡ codes "/proc/" ++ (print_decimal pid ++ codes "/task/")
  unfolding task_path
  task_path-whole h =
      take-all 31 (codes "/proc/" ++ (print_decimal pid ++ codes "/task/")) (
        omega (arith, length-print_decimal pid, length-append (print_decimal pid) (codes "/task/")))

  -- Let the directory /proc/<pid>/task hold `.`, `..` and the ids of threads in decimal, in any
  -- order, each id and the agent's own one below 2 ^ 31. The callback gets each thread once, in the
  -- order of the directory and with the process's id, until it returns something other than 0; that
  -- gives TD_DBERR, and else the result is TD_OK. The path fits into its 32 bytes.
  pub td_ta_thr_iter-visit :
      (opendir : Bytes → Option (List Bytes)) (ph : ℕ) (entries : List Entry) (s : S)
      → pid < 2 ^ 31
      → All IsInt entries
      → opendir (codes "/proc/" ++ (print_decimal pid ++ codes "/task/")) ≡ some (names entries)
      → td_ta_thr_iter func opendir (record { pid = pid; ph = ph }) s ≡ visit entries s
  unfolding td_ta_thr_iter
  td_ta_thr_iter-visit opendir ph entries s h all found =
      rw (task_path-whole h, found) (entry_loop-visit entries s all)
