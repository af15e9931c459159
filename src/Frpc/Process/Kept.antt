-- ===== src/Frpc/Process/Kept.antt =====
-- internal/frpc/process.go: the invariant through writes of the configuration, monitors and exits.
use mathlib.Core.Option.{none-ne-some}
use qudata_agent.Frpc.Process.Single.{Inv, IsDown, some_only, start_process-Inv, restart-Inv}
use qudata_agent.Common.{
  ℕ, refl, sym, ap, inl, inr, true, false, Option, none, some, arith, Bool-cases, Option-cases, ◌≡◌,
  ◌∙◌, ◌<◌,
}
use qudata_agent.Frpc.Process.{
  Tunnel, on_write, write_config, and_then, new_process, reconfigure_from, reconfigure, monitor,
  on_process_exit, ProcessEnv, is_gone, set_live, start_process, restart,
}
use qudata_agent.Common.Text.{Text}
use qudata_agent.Frpc.Config.{Config, render}
use qudata_agent.Domain.{Error}

-- The configuration and its file do not matter.
pub set_config-Inv :
    (t : Tunnel) (c : Option Config) (file : Text)
    → Inv t
    → Inv (record t { config = c; file = file })
set_config-Inv t c file v = record {
  current = v.current;
  guarded = v.guarded;
  waited = v.waited;
  stale = v.stale;
  fresh = v.fresh;
}

on_write-Inv :
    (mkdir : Option Error) (write : Option (Error × Text)) (c : Config) (t : Tunnel)
    → Inv t
    → Inv (on_write mkdir write c t).1
unfolding on_write
on_write-Inv (some e) write c t v = v
on_write-Inv none (some (e, left)) c t v = set_config-Inv t t.config left v
on_write-Inv none none c t v = set_config-Inv t t.config (render c) v

write_config-Inv :
    (env : ProcessEnv) (c : Config) (t : Tunnel) → Inv t → Inv (write_config env c t).1
unfolding write_config
write_config-Inv env c t v = on_write-Inv env.mkdir env.write c t v

and_then-Inv :
    (r : Option Error × Tunnel) (f : Tunnel → Option Error × Tunnel)
    → ((t : Tunnel) → Inv t → Inv (f t).1)
    → Inv r.1
    → Inv (and_then r f).1
unfolding and_then
and_then-Inv (none, t) f keeps v = keeps t v
and_then-Inv (some e, t) f keeps v = v

on_write-IsDown :
    (mkdir : Option Error) (write : Option (Error × Text)) (c : Config) (t : Tunnel)
    → IsDown t
    → IsDown (on_write mkdir write c t).1
unfolding on_write
on_write-IsDown (some e) write c t down = down
on_write-IsDown none (some (e, left)) c t down = down
on_write-IsDown none none c t down = down

then_start-Inv :
    (r : Option Error × Tunnel) (env : ProcessEnv)
    → Inv r.1
    → IsDown r.1
    → Inv (and_then r (start_process env)).1
unfolding and_then
then_start-Inv (none, t) env v down = start_process-Inv env t v down
then_start-Inv (some e, t) env v down = v

pub write_start-Inv :
    (env : ProcessEnv) (c : Config) (t : Tunnel)
    → Inv t
    → IsDown t
    → Inv (and_then (write_config env c t) (start_process env)).1
unfolding write_config
write_start-Inv env c t v down =
    then_start-Inv (write_config env c t) env (write_config-Inv env c t v)
      (on_write-IsDown env.mkdir env.write c t down)

pub new_process-IsDown : IsDown new_process
unfolding new_process
new_process-IsDown n = refl

reconfigure_from-Inv :
    (c : Option Config) (env : ProcessEnv) (f : Config → Config) (t : Tunnel)
    → Inv t
    → Inv (reconfigure_from c env f t).1
unfolding reconfigure_from
reconfigure_from-Inv none env f t v = v
reconfigure_from-Inv (some c) env f t v =
    and_then-Inv (write_config env (f c) (record t { config = some (f c) })) (restart env)
      (restart-Inv env)
      (write_config-Inv env (f c) (record t { config = some (f c) })
        (set_config-Inv t (some (f c)) t.file v))

pub reconfigure-Inv :
    (env : ProcessEnv) (f : Config → Config) (t : Tunnel) → Inv t → Inv (reconfigure env f t).1
unfolding reconfigure
reconfigure-Inv env f t v = reconfigure_from-Inv t.config env f t v

-- A monitor acts only when its process is gone and it was not cancelled: then none runs.
monitor-IsDown :
    (c : ℕ) (t : Tunnel) → Inv t → c < t.next → t.cancelled c ≡ false → t.live c ≡ none → IsDown t
monitor-IsDown c t v old kept gone n = elim (Option-cases (t.live n)) [
  | inl h ↦ h
  | inr (x, h) ↦
      let same : c ≡ n = some_only c n (sym (v.stale c old kept) ∙ v.guarded n x h) in
      absurd (none-ne-some x (sym gone ∙ ap t.live same ∙ h))
]

is_gone-none : (o : Option Text) → is_gone o ≡ true → o ≡ none
is_gone-none none e = refl
is_gone-none (some x) e = cc

pub monitor-Inv :
    (env : ProcessEnv) (c : ℕ) (t : Tunnel) → Inv t → c < t.next → Inv (monitor env c t)
unfolding monitor
monitor-Inv env c t v old = elim (Bool-cases (t.cancelled c)) [
  | inl e ↦ rw e v
  | inr kept ↦ elim (Bool-cases (is_gone (t.live c))) [
    | inr e ↦ rw (kept, e) v
    | inl gone ↦
        rw (kept, gone)
          (start_process-Inv env t v (monitor-IsDown c t v old kept (is_gone-none (t.live c) gone)))
  ]
]

-- A process that exits by itself leaves the fields that name it.
pub on_process_exit-Inv : (c : ℕ) (t : Tunnel) → Inv t → Inv (on_process_exit c t)
unfolding on_process_exit
on_process_exit-Inv c t v =
    let kept : (n : ℕ) (x : Text) → set_live c none t.live n ≡ some x → t.live n ≡ some x =
      λ n x e. ground arith in
    record {
      current = λ n x e. v.current n x (kept n x e);
      guarded = λ n x e. v.guarded n x (kept n x e);
      waited = v.waited;
      stale = v.stale;
      fresh = λ n h. ground (arith, v.fresh n h);
    }
