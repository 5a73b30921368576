-- ===== src/LibthreadDb.antt =====
-- sources/android/libthread_db/libthread_db.c. A ps_prochandle is the process id that ps_getpid,
-- which gdb provides, returns for it; ids are not negative.
pub mod Iteration
use ndk.Base.{
  ℕ, zero, suc, ◌&&◌, ◌||◌, Bool, true, false, Option, none, some, List, [], ◌∷◌, ◌++◌, Bytes,
  codes, equal, take, ◌==◌, if◌then◌else◌,
}
use ndk.Base.CString.{ℤ, pos, negsuc, strtol}
use ndk.Base.CString.Decimal.{print_decimal}

-- `td_err_e`, as far as it is returned.
pub data TdErr : Type 0 where
  td_ok td_malloc td_noevent td_dberr td_noaplic : TdErr

pub record Agent : Type 0 where
  pub pid : ℕ
  pub ph : ℕ

pub record ThreadHandle : Type 0 where
  pub pid : ℕ
  pub tid : ℤ

pub data ThreadState : Type 0 where
  td_thr_sleep : ThreadState

pub record ThreadInfo : Type 0 where
  pub ti_tid : ℤ
  pub ti_lid : ℤ
  pub ti_state : ThreadState

-- The list ends at once.
abbrev pub td_symbol_list : List Bytes
td_symbol_list = []

-- `agent_out` is set only behind TD_OK; `calloc` says whether there is memory.
unfoldable pub td_ta_new : (ℕ → ℕ) → Bool → ℕ → TdErr × Option Agent
td_ta_new ps_getpid calloc proc_handle =
    if calloc
    then (td_ok, some (record { pid = ps_getpid proc_handle; ph = proc_handle }))
    else (td_malloc, none)

unfoldable pub td_ta_delete : Agent → TdErr
td_ta_delete ta = td_ok

unfoldable pub td_ta_map_lwp2thr : (ℕ → ℕ) → Agent → ℤ → TdErr × ThreadHandle
td_ta_map_lwp2thr ps_getpid agent lwpid = (td_ok, record { pid = ps_getpid agent.ph; tid = lwpid })

unfoldable pub td_thr_get_info : ThreadHandle → TdErr × ThreadInfo
td_thr_get_info handle =
    (td_ok, record { ti_tid = handle.tid; ti_lid = handle.tid; ti_state = td_thr_sleep })

unfoldable pub td_thr_tlsbase : ThreadHandle → TdErr
td_thr_tlsbase handle = td_noaplic

unfoldable pub td_thr_tls_get_addr : ThreadHandle → TdErr
td_thr_tls_get_addr handle = td_noaplic

-- The function that gdb passes, with its cookie's state: whether it returns something other than 0.
abbrev pub Callback : Type 0 → Type 0
Callback S = ThreadHandle → S → Bool × S

-- `snprintf(path, sizeof(path), "/proc/%d/task/", pid)` with 32 bytes.
unfoldable pub task_path : ℕ → Bytes
task_path pid = take 31 (codes "/proc/" ++ (print_decimal pid ++ codes "/task/"))

abbrev pub is_dot : Bytes → Bool
is_dot d_name = equal d_name (codes ".") || equal d_name (codes "..")

module _ {S : Type 0} (func : Callback S) where
  -- The `while` loop over the entries that `readdir` will give.
  unfoldable pub entry_loop : ℕ → List Bytes → S → TdErr × S
  entry_loop pid [] s = (td_ok, s)
  entry_loop pid (d_name ∷ entries) s =
      let (stop, s') = func (record { pid = pid; tid = (strtol d_name).value }) s in
      let skipped = entry_loop pid entries s in
      let rest = entry_loop pid entries s' in
      if is_dot d_name then skipped else if stop then (td_dberr, s') else rest

  abbrev pub iterate : ℕ → Option (List Bytes) → S → TdErr × S
  iterate pid none s = (td_noevent, s)
  iterate pid (some entries) s = entry_loop pid entries s

  -- `opendir` gives the entries of a directory, if it can be opened.
  unfoldable pub td_ta_thr_iter : (Bytes → Option (List Bytes)) → Agent → S → TdErr × S
  td_ta_thr_iter opendir agent s = iterate agent.pid (opendir (task_path agent.pid)) s
