-- ===== src/Tests/Frpc.antt =====
-- The theorems about the tunnel at concrete inputs.
use qudata_agent.Common.{refl, true, none, some, List, [], map, pos, ◌≡◌, ◌++◌, ◌∷◌}
use qudata_agent.Frpc.Process.{
  on_stat, ProcessEnv, Tunnel, monitor, start, update_instance_proxies, on_process_exit,
  stop_process, new_process, start_process, on_started, on_running, reconfigure, reconfigure_from,
  write_config, on_write, and_then, restart, stop_cmd, terminate, on_stat,
}
use qudata_agent.Frpc.Config.{PortSpec, Proxy, build_instance_proxies}
use qudata_agent.Frpc.Process.Runs.{
  Reaches, IsSingle, IsStill, started, stepped, Reaches-IsSingle, updates, stop_process-IsStill,
  dies,
}
use qudata_agent.Frpc.Proxies.{target, zip_ports, endpoints, target-build_instance_proxies}
use qudata_agent.Frpc.Process.Update.{Reconfigured, update_instance_proxies-Reconfigured}
use qudata_agent.Common.Text.{str}

abbrev fine : ProcessEnv
fine = record { stat = none; mkdir = none; write = none; start = none; exits_at_once = none }

abbrev web : PortSpec
web = record { guest_port = pos 80; remote_port = 30001; proto = str "http" }

abbrev proxies : List Proxy
proxies = build_instance_proxies (str "t") (10007 ∷ 15003 ∷ []) 30000 true (web ∷ [])

-- Start, then an update whose process exits by itself.
abbrev up : Tunnel
up = (start fine (str "/frpc") (str "a") (str "t") 15001 new_process).1

abbrev updated : Tunnel
updated = (update_instance_proxies fine proxies up).1

abbrev crashed : Tunnel
crashed = on_process_exit 1 updated

up_reached : Reaches up
up_reached = started fine (str "/frpc") (str "a") (str "t") 15001

crashed_reached : Reaches crashed
crashed_reached =
    stepped updated crashed (stepped up updated up_reached (updates fine proxies up))
      (dies 1 updated)

target-build_instance_proxies_example :
    map target (build_instance_proxies (str "t") (10007 ∷ 15003 ∷ []) 30000 true (web ∷ []))
    ≡ zip_ports (endpoints (str "t") 30000 true (web ∷ [])) (10007 ∷ 15003 ∷ [])
target-build_instance_proxies_example =
    target-build_instance_proxies (str "t") (10007 ∷ 15003 ∷ []) 30000 true (web ∷ [])

Reaches-IsSingle_example : IsSingle crashed
Reaches-IsSingle_example = Reaches-IsSingle crashed crashed_reached

stop_process-IsStill_example : IsStill (stop_process crashed)
stop_process-IsStill_example = stop_process-IsStill crashed crashed_reached

update_instance_proxies-Reconfigured_example :
    Reconfigured up.config
      (λ c. record c { instance_proxies = c.instance_proxies ++ proxies })
      up
      (update_instance_proxies fine proxies up)
update_instance_proxies-Reconfigured_example =
    update_instance_proxies-Reconfigured fine proxies up up_reached

-- The monitor of the crashed start brings up the next one.
crash_is_followed : (monitor fine 1 crashed).cmd ≡ some (some 2)
unfolding monitor on_process_exit update_instance_proxies start start_process on_started on_running
    reconfigure reconfigure_from write_config on_write and_then restart stop_process stop_cmd
    terminate new_process on_stat
crash_is_followed = refl
