-- ===== src/Frpc/Process/Single.antt =====
-- internal/frpc/process.go: the invariant of the fields that name the running process.
use mathlib.Core.Option.{none-ne-some}
use qudata_agent.Common.{
  ℕ, suc, refl, sym, inl, inr, false, Option, none, some, arith, ==_iff, Bool-cases, Option-cases,
  ℤ, ◌≡◌, ◌==◌, ◌∙◌, ◌≤◌, ◌<◌,
}
use qudata_agent.Frpc.Process.{
  Tunnel, new_process, start_process, stop_process, on_started, stop_cmd, ProcessEnv, terminate,
  cancel, on_running, set_live, restart,
}
use qudata_agent.Common.Text.{Text}
use qudata_agent.Domain.{Error}

pub record Inv (t : Tunnel) : Type 0 where
  -- a running process is the current one, in each of the fields that name it
  pub current : (n : ℕ) (x : Text) → t.live n ≡ some x → t.cmd ≡ some (some n)
  pub guarded : (n : ℕ) (x : Text) → t.live n ≡ some x → t.run_cancel ≡ some n
  pub waited : (n : ℕ) → t.cmd ≡ some (some n) → t.done ≡ some n
  -- of the contexts made so far at most the current one is not cancelled
  pub stale : (n : ℕ) → n < t.next → t.cancelled n ≡ false → t.run_cancel ≡ some n
  pub fresh : (n : ℕ) → t.next ≤ n → t.live n ≡ none

pub new_process-Inv : Inv new_process
unfolding new_process
new_process-Inv = record {
  current = λ n x e. cc;
  guarded = λ n x e. cc;
  waited = λ n e. cc;
  stale = λ n h e. absurd (omega arith);
  fresh = λ n h. refl;
}

-- No process runs.
abbrev pub IsDown : Tunnel → Type 0
IsDown t = (n : ℕ) → t.live n ≡ none

-- Cancelling the current context leaves none of the earlier ones.
all_cancelled :
    (t : Tunnel) (n : ℕ) → Inv t → n < t.next → cancel t.run_cancel t.cancelled n ≡ false → ⊥
all_cancelled t n v h = go t.run_cancel (v.stale n h)
  where
    go : (c : Option ℕ) → (t.cancelled n ≡ false → c ≡ some n) → cancel c t.cancelled n ≡ false → ⊥
    go none s e = none-ne-some n (s e)
    go (some c) s e = ground (arith, s)

-- The start with number `t.next`, of which it is known whether a process runs.
numbered-Inv :
    (t : Tunnel) (cmd : Option (Option ℕ)) (chan : Option ℕ) (live : ℕ → Option Text)
    → Inv t
    → ((n : ℕ) (x : Text) → live n ≡ some x → (n ≡ t.next) × (cmd ≡ some (some t.next)))
    → ((n : ℕ) → cmd ≡ some (some n) → chan ≡ some n)
    → Inv (record t {
      cmd = cmd;
      done = chan;
      live = live;
      cancelled = cancel t.run_cancel t.cancelled;
      run_cancel = some t.next;
      next = suc t.next;
    })
numbered-Inv t cmd chan live v one waits = record {
  current = λ n x e. rw (one n x e).0 (one n x e).1;
  guarded = λ n x e. rw (one n x e).0 refl;
  waited = waits;
  stale = λ n h e. elim (Bool-cases (n == t.next)) [
    | inl same ↦ rw ((==_iff n t.next).0 same) refl
    | inr other ↦ absurd (all_cancelled t n v (ground arith) e)
  ];
  fresh = λ n h. elim (Option-cases (live n)) [
    | inl e ↦ e
    | inr (x, e) ↦ absurd (omega (arith, (one n x e).0))
  ];
}

pub some_only : {A : Type 0} (x y : A) → some x ≡ some y → x ≡ y
some_only x y e = cc

on_started-Inv :
    (o : Option Error) (exits : Option ℤ) (t : Tunnel)
    → Inv t
    → IsDown t
    → Inv
        (on_started o exits t.next (record t {
          cancelled = cancel t.run_cancel t.cancelled;
          run_cancel = some t.next;
          cmd = some none;
          next = suc t.next;
        })).1
unfolding on_started on_running
on_started-Inv (some e) exits t v down =
    numbered-Inv t (some none) t.done t.live v (λ n x h. absurd (none-ne-some x (sym (down n) ∙ h)))
      (λ n h. cc)
on_started-Inv none none t v down =
    numbered-Inv t (some (some t.next)) (some t.next) (set_live t.next (some t.file) t.live) v
      (λ n x h. (ground (arith, down n), refl)) (λ n h. cc)
on_started-Inv none (some code) t v down =
    numbered-Inv t (some (some t.next)) (some t.next)
      (set_live t.next none (set_live t.next (some t.file) t.live)) v
      (λ n x h. (ground (arith, down n), refl)) (λ n h. cc)

pub start_process-Inv :
    (env : ProcessEnv) (t : Tunnel) → Inv t → IsDown t → Inv (start_process env t).1
unfolding start_process
start_process-Inv env t v down = on_started-Inv env.start env.exits_at_once t v down

-- With no process running, the context may be cancelled and the command dropped.
dropped-Inv :
    (t : Tunnel) (cmd : Option (Option ℕ)) (live : ℕ → Option Text)
    → Inv t
    → ((n : ℕ) → live n ≡ none)
    → ((n : ℕ) → cmd ≡ some (some n) → t.cmd ≡ some (some n))
    → Inv (record t {
      cmd = cmd;
      live = live;
      cancelled = cancel t.run_cancel t.cancelled;
      run_cancel = none;
    })
dropped-Inv t cmd live v down same = record {
  current = λ n x e. absurd (none-ne-some x (sym (down n) ∙ e));
  guarded = λ n x e. absurd (none-ne-some x (sym (down n) ∙ e));
  waited = λ n e. v.waited n (same n e);
  stale = λ n h e. absurd (all_cancelled t n v h e);
  fresh = λ n h. down n;
}

terminate-Inv :
    (o : Option ℕ) (c : ℕ) (t : Tunnel)
    → Inv t
    → t.cmd ≡ some (some c)
    → o ≡ some c
    → let s =
        terminate o (record t { cancelled = cancel t.run_cancel t.cancelled; run_cancel = none }) in
      Inv s × IsDown s
unfolding terminate
terminate-Inv none c t v e same = absurd (none-ne-some c same)
terminate-Inv (some d) c t v e same =
    let down : (n : ℕ) → set_live d none t.live n ≡ none = λ n. elim (Option-cases (t.live n)) [
      | inl h ↦ ground arith
      | inr (x, h) ↦ ground (arith, v.current n x h)
    ] in
    (dropped-Inv t none (set_live d none t.live) v down (λ n h. cc), down)

stop_cmd-Inv :
    (c : Option (Option ℕ)) (t : Tunnel)
    → Inv t
    → t.cmd ≡ c
    → let s =
        stop_cmd c (record t { cancelled = cancel t.run_cancel t.cancelled; run_cancel = none }) in
      Inv s × IsDown s
unfolding stop_cmd
stop_cmd-Inv none t v e =
    let down : IsDown t = λ n. elim (Option-cases (t.live n)) [
      | inl h ↦ h
      | inr (x, h) ↦ absurd (none-ne-some (some n) (sym e ∙ v.current n x h))
    ] in
    (dropped-Inv t t.cmd t.live v down (λ n h. h), down)
stop_cmd-Inv (some none) t v e =
    let down : IsDown t = λ n. elim (Option-cases (t.live n)) [
      | inl h ↦ h
      | inr (x, h) ↦ absurd (none-ne-some n (some_only none (some n) (sym e ∙ v.current n x h)))
    ] in
    (dropped-Inv t t.cmd t.live v down (λ n h. h), down)
stop_cmd-Inv (some (some c)) t v e = terminate-Inv t.done c t v e (v.waited c e)

terminate-run_cancel : (o : Option ℕ) (t : Tunnel) → (terminate o t).run_cancel ≡ t.run_cancel
unfolding terminate
terminate-run_cancel none t = refl
terminate-run_cancel (some d) t = refl

stop_cmd-run_cancel :
    (c : Option (Option ℕ)) (t : Tunnel) → (stop_cmd c t).run_cancel ≡ t.run_cancel
unfolding stop_cmd
stop_cmd-run_cancel none t = refl
stop_cmd-run_cancel (some none) t = refl
stop_cmd-run_cancel (some (some c)) t = terminate-run_cancel t.done t

pub stop_process-run_cancel : (t : Tunnel) → (stop_process t).run_cancel ≡ none
unfolding stop_process
stop_process-run_cancel t =
    stop_cmd-run_cancel t.cmd
      (record t { cancelled = cancel t.run_cancel t.cancelled; run_cancel = none })

pub stop_process-Inv : (t : Tunnel) → Inv t → Inv (stop_process t) × IsDown (stop_process t)
unfolding stop_process
stop_process-Inv t v = stop_cmd-Inv t.cmd t v refl

pub restart-Inv : (env : ProcessEnv) (t : Tunnel) → Inv t → Inv (restart env t).1
unfolding restart
restart-Inv env t v =
    let (v', down) = stop_process-Inv t v in start_process-Inv env (stop_process t) v' down
