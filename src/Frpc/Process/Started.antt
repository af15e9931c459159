-- ===== src/Frpc/Process/Started.antt =====
-- internal/frpc/process.go: the process that Start leaves.
use qudata_agent.Common.{ℕ, suc, refl, Option, none, some, ==_refl, ℤ, ◌≡◌}
use qudata_agent.Common.Text.{Text}
use qudata_agent.Frpc.Process.{
  on_running, on_started, start_process, on_write, on_stat, Tunnel, set_live, ProcessEnv, and_then,
  write_config, cancel,
}
use qudata_agent.Domain.{Error}
use qudata_agent.Frpc.Config.{Config, render, new_config}

-- The start of frpc, by the errors on its way.
abbrev pub Runs : Text → Option Error × Tunnel → Type 0
Runs file (some e, t) = Unit {0}
Runs file (none, t) = (n : ℕ) × (t.cmd ≡ some (some n)) × (t.live n ≡ some file)

on_running-Runs :
    (exits : Option ℤ) (n : ℕ) (t : Tunnel) (file : Text)
    → t.cmd ≡ some (some n)
    → t.live n ≡ some file
    → Runs file (on_running exits n t)
unfolding on_running
on_running-Runs none n t file e f = (n, e, f)
on_running-Runs (some code) n t file e f = tt

set_live-same : (n : ℕ) (o : Option Text) (f : ℕ → Option Text) → set_live n o f n ≡ o
set_live-same n o f = rw (==_refl n) refl

on_started-Runs :
    (o : Option Error) (exits : Option ℤ) (n : ℕ) (t : Tunnel)
    → Runs t.file (on_started o exits n t)
unfolding on_started
on_started-Runs (some e) exits n t = tt
on_started-Runs none exits n t =
    on_running-Runs exits n
      (record t { cmd = some (some n); done = some n; live = set_live n (some t.file) t.live })
      t.file refl (set_live-same n (some t.file) t.live)

start_process-Runs : (env : ProcessEnv) (t : Tunnel) → Runs t.file (start_process env t)
unfolding start_process
start_process-Runs env t = on_started-Runs env.start env.exits_at_once t.next (record t {
  cancelled = cancel t.run_cancel t.cancelled;
  run_cancel = some t.next;
  cmd = some none;
  next = suc t.next;
})

written-Runs :
    (mkdir : Option Error) (write : Option (Error × Text)) (env : ProcessEnv) (c : Config)
    (t : Tunnel)
    → Runs (render c) (and_then (on_write mkdir write c t) (start_process env))
unfolding on_write and_then
written-Runs (some e) write env c t = tt
written-Runs none (some (e, left)) env c t = tt
written-Runs none none env c t = start_process-Runs env (record t { file = render c })

pub on_stat-Runs :
    (o : Option Error) (env : ProcessEnv) (binary_path agent_id token : Text) (port : ℕ)
    (t : Tunnel)
    → Runs
        (render (new_config agent_id token port))
        (on_stat o env binary_path agent_id token port t)
unfolding on_stat write_config
on_stat-Runs (some e) env binary_path agent_id token port t = tt
on_stat-Runs none env binary_path agent_id token port t =
    let c = new_config agent_id token port in
    written-Runs env.mkdir env.write env c (record t { config = some c })
