-- ===== src/Frpc/Process.antt =====
-- internal/frpc/process.go: the frpc process. Each start of it has a number of its own, which stands
-- for the process, for its `done` channel and for the context of its monitor.
pub mod Single
pub mod Kept
pub mod Runs
pub mod Update
pub mod Started
use qudata_agent.Common.{
  ℕ, zero, suc, refl, sym, ap, fun_ext, inl, inr, Bool, true, false, not, Option, none, some, List,
  [], map, arith, ltb, leb, ltb→lt, lt→ltb, leb→le, ==_iff, ==_refl, ==_ne, Bool-cases,
  Option-cases, length, get_elem?, is_nil, length-append, length-map, All, All-append, All-map, ℤ,
  pos, negsuc, int_eq, is_pos, int_eq_iff, int_eq_refl, take, take-nil, is_nil-eq, is_nil-ne,
  ne_of_is_nil, int_le, to_bits, of_bits, mul64, ◌≡◌, ◌+◌, ◌-◌, ◌++◌, ◌∷◌, ◌≢◌, ◌&&◌, ◌||◌, ◌==◌,
  ◌⊎◌, ◌↔◌, ◌∙◌, if◌then◌else◌, ◌≤◌, ◌<◌,
}
use qudata_agent.Frpc.Config.{
  Config, add_instance_proxy, Proxy, clear_instance_proxies, render, new_config,
}
use qudata_agent.Domain.{Error, wrapped, plain}
use qudata_agent.Common.Text.{Text, str}
use qudata_agent.Common.Decimal.{itoa}

pub record Tunnel : Type 0 where
  pub config : Option Config
  -- exec.Cmd, with its process once that is started
  pub cmd : Option (Option ℕ)
  pub done : Option ℕ
  pub run_cancel : Option ℕ
  -- the file at configPath
  pub file : Text
  -- the running processes, each with the file that it read
  pub live : ℕ → Option Text
  pub cancelled : ℕ → Bool
  pub next : ℕ

unfoldable pub new_process : Tunnel
new_process = record {
  config = none;
  cmd = none;
  done = none;
  run_cancel = none;
  file = [];
  live = λ n. none;
  cancelled = λ n. false;
  next = 0;
}

-- What the calls outside the program answer.
pub record ProcessEnv : Type 0 where
  pub stat : Option Error
  pub mkdir : Option Error
  -- the error of os.WriteFile, with what the file then holds
  pub write : Option (Error × Text)
  pub start : Option Error
  -- the exit code, if frpc exits within half a second
  pub exits_at_once : Option ℤ

abbrev pub cancel : Option ℕ → (ℕ → Bool) → ℕ → Bool
cancel none f n = f n
cancel (some c) f n = if c == n then true else f n

abbrev pub set_live : ℕ → Option Text → (ℕ → Option Text) → ℕ → Option Text
set_live c o f n = if c == n then o else f n

-- The half second behind cmd.Start, by the exit code if frpc exits in it.
unfoldable pub on_running : Option ℤ → ℕ → Tunnel → Option Error × Tunnel
on_running none c t = (none, t)
on_running (some code) c t = (
  some (plain (str "frpc exited immediately with code " ++ itoa code)),
  record t { live = set_live c none t.live },
)

-- From cmd.Start on, by its error.
unfoldable pub on_started : Option Error → Option ℤ → ℕ → Tunnel → Option Error × Tunnel
unfolding on_running
on_started (some e) exits c t = (some (wrapped (str "frpc start") e []), t)
on_started none exits c t =
    on_running exits c
      (record t { cmd = some (some c); done = some c; live = set_live c (some t.file) t.live })

unfoldable pub start_process : ProcessEnv → Tunnel → Option Error × Tunnel
unfolding on_started
start_process env t = on_started env.start env.exits_at_once t.next (record t {
  cancelled = cancel t.run_cancel t.cancelled;
  run_cancel = some t.next;
  cmd = some none;
  next = suc t.next;
})

-- Whether `<-p.done` can be received from: the process has exited.
abbrev pub is_gone : Option Text → Bool
is_gone none = true
is_gone (some x) = false

-- SIGTERM, and SIGKILL after five seconds: either way the process has exited behind the wait.
unfoldable pub terminate : Option ℕ → Tunnel → Tunnel
terminate none t = record t { cmd = none }
terminate (some d) t = record t { cmd = none; live = set_live d none t.live }

unfoldable pub stop_cmd : Option (Option ℕ) → Tunnel → Tunnel
unfolding terminate
stop_cmd none t = t
stop_cmd (some none) t = t
stop_cmd (some (some c)) t = terminate t.done t

-- It returns no error on any path.
unfoldable pub stop_process : Tunnel → Tunnel
unfolding stop_cmd
stop_process t =
    stop_cmd t.cmd (record t { cancelled = cancel t.run_cancel t.cancelled; run_cancel = none })

unfoldable pub restart : ProcessEnv → Tunnel → Option Error × Tunnel
restart env t = start_process env (stop_process t)

-- The file is written behind its directory, by the errors of both.
unfoldable pub on_write :
    Option Error → Option (Error × Text) → Config → Tunnel → Option Error × Tunnel
on_write (some e) write c t = (some (wrapped (str "frpc write-config: create dir") e []), t)
on_write none (some (e, left)) c t =
    (some (wrapped (str "frpc write-config: write file") e []), record t { file = left })
on_write none none c t = (none, record t { file = render c })

unfoldable pub write_config : ProcessEnv → Config → Tunnel → Option Error × Tunnel
unfolding on_write
write_config env c t = on_write env.mkdir env.write c t

-- `then` runs where the step before returned no error.
unfoldable pub and_then :
    Option Error × Tunnel → (Tunnel → Option Error × Tunnel) → Option Error × Tunnel
and_then (some e, t) f = (some e, t)
and_then (none, t) f = f t

-- Start behind the check for the binary.
unfoldable pub on_stat :
    Option Error → ProcessEnv → Text → Text → Text → ℕ → Tunnel → Option Error × Tunnel
unfolding and_then
on_stat (some e) env binary_path agent_id tunnel_token agent_port t =
    (some (wrapped (str "frpc binary not found at " ++ binary_path) e []), t)
on_stat none env binary_path agent_id tunnel_token agent_port t =
    let c = new_config agent_id tunnel_token agent_port in
    and_then (write_config env c (record t { config = some c })) (start_process env)

unfoldable pub start : ProcessEnv → Text → Text → Text → ℕ → Tunnel → Option Error × Tunnel
unfolding on_stat
start env binary_path agent_id tunnel_token agent_port t =
    on_stat env.stat env binary_path agent_id tunnel_token agent_port t

unfoldable pub add_all : List Proxy → Config → Config
unfolding add_instance_proxy
add_all [] c = c
add_all (p ∷ ps) c = add_all ps (add_instance_proxy p c)

-- The update of the configuration `c` that the process keeps to `f c`, where it keeps one.
unfoldable pub reconfigure_from :
    Option Config → ProcessEnv → (Config → Config) → Tunnel → Option Error × Tunnel
unfolding and_then
reconfigure_from none env f t = (some (plain (str "frpc not initialized")), t)
reconfigure_from (some c) env f t =
    and_then (write_config env (f c) (record t { config = some (f c) })) (restart env)

-- UpdateInstanceProxies and ClearInstanceProxies differ in what they do to the configuration.
unfoldable pub reconfigure : ProcessEnv → (Config → Config) → Tunnel → Option Error × Tunnel
unfolding reconfigure_from
reconfigure env f t = reconfigure_from t.config env f t

unfoldable pub update_instance_proxies : ProcessEnv → List Proxy → Tunnel → Option Error × Tunnel
unfolding reconfigure add_all
update_instance_proxies env ps t = reconfigure env (add_all ps) t

unfoldable pub clear_proxies : ProcessEnv → Tunnel → Option Error × Tunnel
unfolding reconfigure
clear_proxies env t = reconfigure env clear_instance_proxies t

-- The monitor of start `c` behind its three seconds, once the process has exited: it starts the
-- next one, unless its context was cancelled.
unfoldable pub monitor : ProcessEnv → ℕ → Tunnel → Tunnel
monitor env c t = if t.cancelled c || not (is_gone (t.live c)) then t else (start_process env t).1

-- The process of start `c` exits by itself.
unfoldable pub on_process_exit : ℕ → Tunnel → Tunnel
on_process_exit c t = record t { live = set_live c none t.live }
