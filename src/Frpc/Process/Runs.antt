-- ===== src/Frpc/Process/Runs.antt =====
-- internal/frpc/process.go over any sequence of calls, exits and restarts by a monitor.
use mathlib.Core.Option.{none-ne-some}
use qudata_agent.Common.{
  ℕ, refl, sym, inl, inr, Bool, true, not, Option, none, some, List, Bool-cases, ◌≡◌, ◌||◌, ◌∙◌,
  if◌then◌else◌, ◌<◌,
}
use qudata_agent.Frpc.Process.{
  Tunnel, start, update_instance_proxies, monitor, ProcessEnv, new_process, clear_proxies,
  stop_process, on_process_exit, add_all, is_gone, start_process, on_stat,
}
use qudata_agent.Common.Text.{Text}
use qudata_agent.Frpc.Process.Single.{
  Inv, some_only, IsDown, new_process-Inv, stop_process-Inv, stop_process-run_cancel,
}
use qudata_agent.Frpc.Process.Kept.{
  reconfigure-Inv, write_start-Inv, new_process-IsDown, set_config-Inv, on_process_exit-Inv,
  monitor-Inv,
}
use qudata_agent.Frpc.Config.{Proxy, new_config, clear_instance_proxies}
use qudata_agent.Domain.{Error}

-- What may happen to the process behind NewProcess. Start is called once, before the others; a
-- monitor belongs to a start that was made.
pub data Step : Tunnel → Tunnel → Type 0 where
  updates :
      (env : ProcessEnv) (ps : List Proxy) (t : Tunnel)
      → Step t (update_instance_proxies env ps t).1
  clears : (env : ProcessEnv) (t : Tunnel) → Step t (clear_proxies env t).1
  halts : (t : Tunnel) → Step t (stop_process t)
  dies : (c : ℕ) (t : Tunnel) → Step t (on_process_exit c t)
  restarts : (env : ProcessEnv) (c : ℕ) (t : Tunnel) → c < t.next → Step t (monitor env c t)

pub data Reaches : Tunnel → Type 0 where
  unstarted : Reaches new_process
  started :
      (env : ProcessEnv) (binary_path agent_id token : Text) (port : ℕ)
      → Reaches (start env binary_path agent_id token port new_process).1
  stepped : (t s : Tunnel) → Reaches t → Step t s → Reaches s

-- The processes that run are one at most, the one of `cmd`, and Stop waits for its `done`.
pub record IsSingle (t : Tunnel) : Type 0 where
  pub one : (n m : ℕ) (x y : Text) → t.live n ≡ some x → t.live m ≡ some y → n ≡ m
  pub held : (n : ℕ) (x : Text) → t.live n ≡ some x → (t.cmd ≡ some (some n)) × (t.done ≡ some n)

on_stat-Inv :
    (o : Option Error) (env : ProcessEnv) (binary_path agent_id token : Text) (port : ℕ)
    (t : Tunnel)
    → Inv t
    → IsDown t
    → Inv (on_stat o env binary_path agent_id token port t).1
unfolding on_stat
on_stat-Inv (some e) env binary_path agent_id token port t v down = v
on_stat-Inv none env binary_path agent_id token port t v down =
    let c = new_config agent_id token port in
    write_start-Inv env c (record t { config = some c }) (set_config-Inv t (some c) t.file v) down

start-Inv :
    (env : ProcessEnv) (binary_path agent_id token : Text) (port : ℕ) (t : Tunnel)
    → Inv t
    → IsDown t
    → Inv (start env binary_path agent_id token port t).1
unfolding start
start-Inv env binary_path agent_id token port t v down =
    on_stat-Inv env.stat env binary_path agent_id token port t v down

Step-Inv : (t s : Tunnel) → Step t s → Inv t → Inv s
unfolding update_instance_proxies clear_proxies
Step-Inv t _ (updates env ps _) v = reconfigure-Inv env (add_all ps) t v
Step-Inv t _ (clears env _) v = reconfigure-Inv env clear_instance_proxies t v
Step-Inv t _ (halts _) v = (stop_process-Inv t v).0
Step-Inv t _ (dies c _) v = on_process_exit-Inv c t v
Step-Inv t _ (restarts env c _ h) v = monitor-Inv env c t v h

pub Reaches-Inv : (t : Tunnel) → Reaches t → Inv t
Reaches-Inv _ unstarted = new_process-Inv
Reaches-Inv _ (started env binary_path agent_id token port) =
    start-Inv env binary_path agent_id token port new_process new_process-Inv new_process-IsDown
Reaches-Inv s (stepped t _ r st) = Step-Inv t s st (Reaches-Inv t r)

-- After Start, and over any order of updates, clears, stops, exits of a process and restarts by the
-- monitor of any start, at most one frpc process runs, and it is the one of p.cmd and p.done.
pub Reaches-IsSingle : (t : Tunnel) → Reaches t → IsSingle t
Reaches-IsSingle t r =
    let v = Reaches-Inv t r in
    record {
      one = λ n m x y e f. some_only n m (sym (v.guarded n x e) ∙ v.guarded m y f);
      held = λ n x e. (v.current n x e, v.waited n (v.current n x e));
    }

-- No process runs, and no monitor starts one.
pub record IsStill (t : Tunnel) : Type 0 where
  pub down : (n : ℕ) → t.live n ≡ none
  pub quiet : (env : ProcessEnv) (c : ℕ) → c < t.next → monitor env c t ≡ t

cancelled_or : (b g : Bool) (t s : Tunnel) → b ≡ true → (if b || g then t else s) ≡ t
cancelled_or b g t s e = rw e refl

-- A stop after any such sequence leaves no process running, and no monitor, of whichever start,
-- starts another one.
pub stop_process-IsStill : (t : Tunnel) → Reaches t → IsStill (stop_process t)
unfolding monitor
stop_process-IsStill t r =
    let (v, down) = stop_process-Inv t (Reaches-Inv t r) in
    record {
      down = down;
      quiet = λ env c h. elim (Bool-cases ((stop_process t).cancelled c)) [
        | inl e ↦
            cancelled_or ((stop_process t).cancelled c) (not (is_gone ((stop_process t).live c)))
              (stop_process t) ((start_process env (stop_process t)).1) e
        | inr e ↦ absurd (none-ne-some c (sym (stop_process-run_cancel t) ∙ v.stale c h e))
      ];
    }
