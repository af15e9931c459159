-- ===== src/Frpc/Process/Update.antt =====
-- internal/frpc/process.go: UpdateInstanceProxies and what it has in common with
-- ClearInstanceProxies.
use mathlib.Core.Path.{subst}
use mathlib.Core.List.{append-nil, append_assoc}
use qudata_agent.Common.{
  ℕ, suc, refl, sym, ap, fun_ext, inl, inr, Option, none, some, List, [], arith, ℤ, ◌≡◌, ◌++◌, ◌∷◌,
  ◌⊎◌, ◌∙◌,
}
use qudata_agent.Frpc.Config.{Config, add_instance_proxy, render, Proxy}
use qudata_agent.Frpc.Process.{
  on_started, add_all, terminate, stop_cmd, stop_process, restart, and_then, reconfigure_from,
  update_instance_proxies, Tunnel, on_running, start_process, on_write, write_config, reconfigure,
  cancel, ProcessEnv,
}
use qudata_agent.Domain.{Error, plain}
use qudata_agent.Common.Text.{Text, str}
use qudata_agent.Frpc.Process.Single.{IsDown, Inv, stop_process-Inv}
use qudata_agent.Frpc.Process.Kept.{set_config-Inv}
use qudata_agent.Frpc.Process.Runs.{Reaches, Reaches-Inv}

-- From `t`, the configuration is `c`, the file holds it, and one process runs, which has read it.
pub record IsServing (c : Config) (t s : Tunnel) : Type 0 where
  pub config : s.config ≡ some c
  pub file : s.file ≡ render c
  pub live : s.live t.next ≡ some (render c)
  pub only : (n : ℕ) (x : Text) → s.live n ≡ some x → n ≡ t.next

-- The new configuration is kept in memory, and the processes are as before.
pub record IsUnwritten (c : Config) (t s : Tunnel) : Type 0 where
  pub config : s.config ≡ some c
  pub live : s.live ≡ t.live
  pub next : s.next ≡ t.next

-- The file is written and the old process is stopped, and no new one runs.
pub record IsCut (c : Config) (t s : Tunnel) : Type 0 where
  pub config : s.config ≡ some c
  pub file : s.file ≡ render c
  pub down : IsDown s

abbrev pub Outcome : Config → Tunnel → Option Error × Tunnel → Type 0
Outcome c t (none, s) = IsServing c t s
Outcome c t (some e, s) = IsUnwritten c t s ⊎ IsCut c t s

on_started-Outcome :
    (o : Option Error) (exits : Option ℤ) (c : Config) (t s : Tunnel) (n : ℕ)
    → s.config ≡ some c
    → s.file ≡ render c
    → IsDown s
    → n ≡ t.next
    → Outcome c t (on_started o exits n s)
unfolding on_started on_running
on_started-Outcome (some e) exits c t s n same file down new =
    inr (record { config = same; file = file; down = down })
on_started-Outcome none (some code) c t s n same file down new =
    inr (record { config = same; file = file; down = λ k. ground (arith, down k) })
on_started-Outcome none none c t s n same file down new = record {
  config = same;
  file = file;
  live = ground (arith, new, file);
  only = λ k x h. ground (arith, down k, new);
}

add_all-append :
    (ps : List Proxy) (c : Config)
    → add_all ps c ≡ record c { instance_proxies = c.instance_proxies ++ ps }
unfolding add_all add_instance_proxy
add_all-append [] c =
    ap (λ l. record c { instance_proxies = l }) (sym (append-nil c.instance_proxies))
add_all-append (p ∷ ps) c =
    add_all-append ps (add_instance_proxy p c)
    ∙ ap (λ l. record c { instance_proxies = l }) (append_assoc c.instance_proxies (p ∷ []) ps)

terminate-kept :
    (o : Option ℕ) (t : Tunnel)
    → let s = terminate o t in (s.config ≡ t.config) × (s.file ≡ t.file) × (s.next ≡ t.next)
unfolding terminate
terminate-kept none t = (refl, refl, refl)
terminate-kept (some d) t = (refl, refl, refl)

stop_cmd-kept :
    (c : Option (Option ℕ)) (t : Tunnel)
    → let s = stop_cmd c t in (s.config ≡ t.config) × (s.file ≡ t.file) × (s.next ≡ t.next)
unfolding stop_cmd
stop_cmd-kept none t = (refl, refl, refl)
stop_cmd-kept (some none) t = (refl, refl, refl)
stop_cmd-kept (some (some c)) t = terminate-kept t.done t

stop_process-kept :
    (t : Tunnel)
    → let s = stop_process t in (s.config ≡ t.config) × (s.file ≡ t.file) × (s.next ≡ t.next)
unfolding stop_process
stop_process-kept t =
    stop_cmd-kept t.cmd
      (record t { cancelled = cancel t.run_cancel t.cancelled; run_cancel = none })

restart-Outcome :
    (env : ProcessEnv) (c : Config) (t s : Tunnel)
    → Inv s
    → s.config ≡ some c
    → s.file ≡ render c
    → s.next ≡ t.next
    → Outcome c t (restart env s)
unfolding restart start_process
restart-Outcome env c t s v same file new =
    let (kept, kept_file, kept_next) = stop_process-kept s in
    let s' = stop_process s in
    on_started-Outcome env.start env.exits_at_once c t
      (record s' {
        cancelled = cancel s'.run_cancel s'.cancelled;
        run_cancel = some s'.next;
        cmd = some none;
        next = suc s'.next;
      })
      s'.next (kept ∙ same) (kept_file ∙ file) (stop_process-Inv s v).1 (kept_next ∙ new)

written-Outcome :
    (mkdir : Option Error) (write : Option (Error × Text)) (env : ProcessEnv) (c : Config)
    (t : Tunnel)
    → Inv t
    → Outcome c t (and_then (on_write mkdir write c (record t { config = some c })) (restart env))
unfolding and_then on_write
written-Outcome (some e) write env c t v = inl (record { config = refl; live = refl; next = refl })
written-Outcome none (some (e, left)) env c t v =
    inl (record { config = refl; live = refl; next = refl })
written-Outcome none none env c t v =
    restart-Outcome env c t (record t { config = some c; file = render c })
      (set_config-Inv t (some c) (render c) v) refl refl refl

-- What the calls leave, by the configuration that there is before them.
abbrev pub Reconfigured :
    Option Config → (Config → Config) → Tunnel → Option Error × Tunnel → Type 0
Reconfigured none f t r = r ≡ (some (plain (str "frpc not initialized")), t)
Reconfigured (some c) f t r = Outcome (f c) t r

reconfigure_from-Reconfigured :
    (c : Option Config) (env : ProcessEnv) (f : Config → Config) (t : Tunnel)
    → Inv t
    → Reconfigured c f t (reconfigure_from c env f t)
unfolding reconfigure_from write_config
reconfigure_from-Reconfigured none env f t v = refl
reconfigure_from-Reconfigured (some c) env f t v = written-Outcome env.mkdir env.write env (f c) t v

-- UpdateInstanceProxies on a tunnel that the program can reach: without a configuration it fails and
-- changes nothing. With one, success means that the new proxies follow the old ones in the
-- configuration, that the file is its rendering, and that exactly one process runs, a new one that
-- read that file. On failure the configuration in memory has changed all the same, and either the
-- processes are as before, or the file is written and no process runs.
pub update_instance_proxies-Reconfigured :
    (env : ProcessEnv) (ps : List Proxy) (t : Tunnel)
    → Reaches t
    → Reconfigured t.config
        (λ c. record c { instance_proxies = c.instance_proxies ++ ps })
        t
        (update_instance_proxies env ps t)
unfolding update_instance_proxies reconfigure
update_instance_proxies-Reconfigured env ps t r =
    subst (λ f. Reconfigured t.config f t (reconfigure_from t.config env (add_all ps) t))
      (fun_ext (add_all-append ps))
      (reconfigure_from-Reconfigured t.config env (add_all ps) t (Reaches-Inv t r))
