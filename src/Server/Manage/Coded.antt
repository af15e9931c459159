-- ===== src/Server/Manage/Coded.antt =====
-- internal/server/handler.go: ManageInstance on each branch.
use qudata_agent.Common.{
  subst, refl, sym, inl, inr, Bool, true, false, Option, none, some, Bool-cases, is_nil, ◌≡◌,
}
use qudata_agent.Qemu.Manager.Queries.{QmpEnv, manage, is_connected, qmp_of_command}
use qudata_agent.Domain.{Error, ok}
use qudata_agent.Server.Manage.{
  code_of, manage_instance, is_no_instance, respond, is_unknown_command, server_error, Response,
}
use qudata_agent.Common.Text.{Text}
use qudata_agent.Qemu.Manager.{Vm, emit, qmp_command}

-- What ManageInstance answers, by the VM, its QMP connection and the command.
abbrev pub Codes : QmpEnv → Text → Vm → Bool → Bool → Option Text → Response × Vm → Type 0
Codes env cmd s true connected known (r, s') = (r.0 ≡ 404) × (s' ≡ s)
Codes env cmd s false false known (r, s') = (r.0 ≡ 500) × (s' ≡ s)
Codes env cmd s false true none (r, s') = (r.0 ≡ 400) × (s' ≡ s)
Codes env cmd s false true (some c) (r, s') =
    (r ≡ respond server_error env.command) × (s' ≡ emit (qmp_command c) s)

-- An error of QMP is none of the two that the handler tells apart.
abbrev pub IsOrdinary : Option Error → Type 0
IsOrdinary none = Unit {0}
IsOrdinary (some e) = (is_no_instance e ≡ false) × (is_unknown_command e ≡ false)

respond-ordinary : (o : Option Error) → IsOrdinary o → respond code_of o ≡ respond server_error o
unfolding code_of
respond-ordinary none h = refl
respond-ordinary (some e) (h, k) = rw (h, k) refl

manage_instance-known :
    (env : QmpEnv) (cmd : Text) (s : Vm) (o : Option Text)
    → is_nil s.vm_id ≡ false
    → is_connected s.qmp ≡ true
    → qmp_of_command cmd ≡ o
    → IsOrdinary env.command
    → Codes env cmd s false true o (manage_instance env (ok cmd) s)
unfolding manage_instance manage code_of is_no_instance is_unknown_command
manage_instance-known env cmd s none there on known ordinary = simp (there, on, known) (refl, refl)
manage_instance-known env cmd s (some c) there on known ordinary =
    simp (there, on, known) (respond-ordinary env.command ordinary, refl)

-- ManageInstance of a body that is bound, on each branch: 404 without a VM, 500 without a QMP connection
-- and 400 for a command it does not know, each with nothing sent to QEMU; for a command it knows, exactly
-- its QMP command is sent, and the answer is 200, or 500 with the error of QMP. The error of QMP must not
-- be one that the handler takes for another.
pub manage_instance-Codes :
    (env : QmpEnv) (cmd : Text) (s : Vm)
    → IsOrdinary env.command
    → Codes env cmd s
        (is_nil s.vm_id)
        (is_connected s.qmp)
        (qmp_of_command cmd)
        (manage_instance env (ok cmd) s)
unfolding manage_instance manage code_of is_no_instance is_unknown_command
manage_instance-Codes env cmd s ordinary = elim (Bool-cases (is_nil s.vm_id)) [
  | inl gone ↦ simp gone (refl, refl)
  | inr there ↦ elim (Bool-cases (is_connected s.qmp)) [
    | inr off ↦ simp (there, off) (refl, refl)
    | inl on ↦
        subst
          (λ b.
            Codes env cmd s b (is_connected s.qmp) (qmp_of_command cmd)
              (manage_instance env (ok cmd) s))
          (sym there)
          (subst
            (λ b. Codes env cmd s false b (qmp_of_command cmd) (manage_instance env (ok cmd) s))
            (sym on) (manage_instance-known env cmd s (qmp_of_command cmd) there on refl ordinary))
  ]
]
