-- ===== src/Tests/Processes.antt =====
-- Process numbers, processes and exits at a concrete kernel.
use polito_os161v.Common.{
  ◌≡◌, refl, arith, none, some, replicate, set, ok, panic, good, true, false, pos,
}
use polito_os161v.Synch.{free}
use polito_os161v.Kernel.{Kernel, Proc, put, put_self}
use polito_os161v.Kernel.Access.{exec}
use polito_os161v.FileDesc.Copy.{empty_table}
use polito_os161v.File.{close_all_f}
use polito_os161v.Proc.{proc_alloc_pid, proc_create, proc_destroy}
use polito_os161v.Proc.Pid.{Numbered, proc_alloc_pid-Numbered}
use polito_os161v.Proc.Laws.{proc_create_out_of_memory, proc_destroy_lem}
use polito_os161v.Fork.{sys_exit, waitpid, mkwait_exit}
use polito_os161v.Fork.Exit.{IsChild, collected, exit_then_wait}

-- A kernel with no process.
abbrev booted : Kernel
booted = record {
  cur = 1;
  next = 30;
  oom = λ p. false;
  files = λ p. none;
  fds = λ p. none;
  vrefs = λ v. 0;
  stays = λ v. false;
  biglock = 0;
  procs = λ p. none;
  p_table = replicate 32 0;
  next_pid = 0;
  lk_allproc = free;
}

proc_alloc_pid-Numbered_example : Numbered booted (proc_alloc_pid booted)
proc_alloc_pid-Numbered_example = proc_alloc_pid-Numbered booted refl

proc_create_out_of_memory_example : proc_create (record booted { oom = λ p. true }) ≡ panic
proc_create_out_of_memory_example =
    proc_create_out_of_memory (record booted { oom = λ p. true }) 3 refl (omega arith) refl refl

-- Process 3, a child of the process at 60, with no open file.
abbrev child : Proc
child = record { pid = 3; parent = 60; fd = 11; lk = free; sem = 0; is_dead = false; retval = 0 }

abbrev running : Kernel
running = record booted {
  fds = put (λ p. none) 11 (some empty_table);
  procs = put (λ p. none) 50 (some child);
  p_table = set (replicate 32 0) 3 50;
}

has_child : running.procs 50 ≡ some child
has_child = put_self (λ p. none) 50 (some child)

has_table : running.fds 11 ≡ some empty_table
has_table = put_self (λ p. none) 11 (some empty_table)

proc_destroy_lem_example :
    proc_destroy 50 running
    ≡ ok tt (record running {
      fds = put running.fds 11 none;
      procs = put running.procs 50 none;
      p_table = set running.p_table 3 0;
    })
proc_destroy_lem_example =
    proc_destroy_lem 50 running child empty_table has_child refl has_table refl refl refl
      (omega arith)

child-IsChild : IsChild running 60 50 child
child-IsChild = record {
  there = has_child;
  parent = refl;
  has_parent = omega arith;
  unlocked = refl;
  table = refl;
  low = omega arith;
  positive = omega arith;
  slot = refl;
  real = (omega arith, omega arith);
  room = omega arith;
}

none_to_close : close_all_f 11 running ≡ ok (good tt) running
unfolding close_all_f
none_to_close = simp (exec, close_all_f)

exit_then_wait_example :
    (k : Kernel) × (sys_exit 50 7 running ≡ ok tt k)
    × (waitpid 60 (pos 3) 0 (record k { cur = 2 })
        ≡ ok (good (mkwait_exit 7)) (collected running 2 50 child))
exit_then_wait_example =
    exit_then_wait 60 50 7 2 running running child child-IsChild none_to_close child-IsChild
      has_table
