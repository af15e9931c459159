-- ===== src/Qemu/Manager/Client.antt =====
-- internal/qemu/manager.go over internal/qemu/monitor.go: Manage with the QMP client that it calls.
use qudata_agent.Common.{
  subst, ℕ, refl, sym, ap, inl, inr, true, false, not, Option, none, some, [], Bool-cases, is_nil,
  ◌≡◌, ◌∙◌, if◌then◌else◌, ◌∷◌, ◌≢◌, is_nil-ne, Option-cases,
}
use qudata_agent.Qemu.Monitor.{QmpClient, Peer, connected}
use qudata_agent.Common.Text.{Text, str}
use qudata_agent.Qemu.Monitor.Exec.{exec, error_of}
use qudata_agent.Qemu.Manager.Queries.{qmp_of_command, QmpEnv, manage, is_connected}
use qudata_agent.Domain.{
  Error, unknown_command, no_instance_running, ok, qemu_error, plain, Result, err,
}
use qudata_agent.Qemu.Manager.{Qmp, Vm, emit, qmp_command}
use qudata_agent.Qemu.Monitor.Returns.{IsFair, exec-Returned}

-- What the manager sees of the client.
abbrev pub seen : QmpClient → Qmp
seen c = record { socket_path = c.socket_path; connected = connected c }

abbrev pub with_client : QmpClient → Vm → Vm
with_client c s = record s { mgr = record s.mgr { qmp = some (seen c) } }

-- The call of the client behind the tests of Manage, by what it came to.
unfoldable pub on_commanded :
    Text → Vm → Option (Option Error × QmpClient) → Option (Option Error × Vm × QmpClient)
on_commanded command s none = none
on_commanded command s (some (e, c)) = some (e, with_client c (emit (qmp_command command) s), c)

-- The switch over the command.
unfoldable pub command_client :
    ℕ → Peer → Text → Option Text → Vm → QmpClient → Option (Option Error × Vm × QmpClient)
unfolding on_commanded exec
command_client fuel peer cmd none s c = some (some (unknown_command cmd), s, c)
command_client fuel peer cmd (some command) s c =
    on_commanded command s (error_of (exec fuel peer command c))

-- Manage; the client is that of m.qmp. `none` stands for a call that has not returned with the fuel.
unfoldable pub manage_client :
    ℕ → Peer → Text → Vm → QmpClient → Option (Option Error × Vm × QmpClient)
unfolding command_client qmp_of_command
manage_client fuel peer cmd s c =
    if is_nil s.vm_id
    then some (some no_instance_running, s, c)
    else if not (connected c)
    then some (some (qemu_error (str "manage") (plain (str "QMP not connected"))), s, c)
    else command_client fuel peer cmd (qmp_of_command cmd) s c

-- The answer of the client to a command, as the manager sees it.
abbrev pub answer : Result Text → Option Error
answer (ok payload) = none
answer (err e) = some e

-- The call of the client has returned, having sent this command, with this answer; Manage has the error
-- of the answer, has sent that command and no other, and else sees only the client changed.
pub record IsSent (bound : ℕ) (peer : Peer) (command : Text) (s : Vm) (c : QmpClient)
    (o : Option (Option Error × Vm × QmpClient)) : Type 0 where
  pub result : Result Text
  pub client : QmpClient
  pub returned : exec bound peer command c ≡ some (result, client)
  pub same :
      o
      ≡ some (
        answer result,
        record s {
          mgr = record s.mgr { qmp = some (seen client) };
          effects = qmp_command command ∷ s.effects;
        },
        client,
      )

-- The call has returned, with what Manage over a bare flag gives for some answer of QEMU.
abbrev pub Agrees : Text → Vm → Option (Option Error × Vm × QmpClient) → Type 0
Agrees cmd s o =
    (env : QmpEnv) × (d : QmpClient) × (o
      ≡ some ((manage env cmd s).0, with_client d (manage env cmd s).1, d))

-- What Manage comes to, by the id of the VM, the connection and the command: it is refused, with nothing
-- sent and nothing changed, or the command that the instance's command stands for is sent.
pub record Refines (bound : ℕ) (peer : Peer) (cmd : Text) (s : Vm) (c : QmpClient)
    (o : Option (Option Error × Vm × QmpClient)) : Type 0 where
  pub gone : s.vm_id ≡ [] → o ≡ some (some no_instance_running, s, c)
  pub off :
      s.vm_id ≢ []
      → c.conn ≡ none
      → o ≡ some (some (qemu_error (str "manage") (plain (str "QMP not connected"))), s, c)
  pub unknown :
      s.vm_id ≢ []
      → c.conn ≢ none
      → qmp_of_command cmd ≡ none
      → o ≡ some (some (unknown_command cmd), s, c)
  pub sent :
      (command : Text)
      → s.vm_id ≢ []
      → c.conn ≢ none
      → qmp_of_command cmd ≡ some command
      → IsSent bound peer command s c o
  -- the manager that knows only whether the client is connected gives the same, for some answer
  pub agrees : Agrees cmd s o

-- An answer of QEMU to a command.
abbrev answering : Option Error → QmpEnv
answering e = record { command = e; query = ok [] }

with_client-same : (c : QmpClient) (s : Vm) → s.qmp ≡ some (seen c) → with_client c s ≡ s
with_client-same c s e =
    ap (λ (q : Option Qmp). record s { mgr = record s.mgr { qmp = q } }) (sym e)

-- A command that is sent, by the answer of the client.
sent-Agrees :
    (cmd command : Text) (s : Vm) (r : Result Text × QmpClient)
    → ((env : QmpEnv) → manage env cmd s ≡ (env.command, emit (qmp_command command) s))
    → Agrees cmd s (on_commanded command s (error_of (some r)))
unfolding on_commanded
sent-Agrees cmd command s (ok payload, c) h = (
  answering none,
  c,
  ap (λ (x : Option Error × Vm). some (x.0, with_client c x.1, c)) (sym (h (answering none))),
)
sent-Agrees cmd command s (err e, c) h = (
  answering (some e),
  c,
  ap (λ (x : Option Error × Vm). some (x.0, with_client c x.1, c)) (sym (h (answering (some e)))),
)

manage-known :
    (env : QmpEnv) (cmd command : Text) (s : Vm)
    → is_nil s.vm_id ≡ false
    → is_connected s.qmp ≡ true
    → qmp_of_command cmd ≡ some command
    → manage env cmd s ≡ (env.command, emit (qmp_command command) s)
unfolding manage
manage-known env cmd command s there on known = simp (there, on, known)

manage-unknown :
    (env : QmpEnv) (cmd : Text) (s : Vm)
    → is_nil s.vm_id ≡ false
    → is_connected s.qmp ≡ true
    → qmp_of_command cmd ≡ none
    → manage env cmd s ≡ (some (unknown_command cmd), s)
unfolding manage
manage-unknown env cmd s there on known = simp (there, on, known)

-- A call that sends nothing, and leaves the client as it is.
unsent-Agrees :
    (cmd : Text) (s : Vm) (c : QmpClient) (e : Option Error)
    → s.qmp ≡ some (seen c)
    → manage (answering none) cmd s ≡ (e, s)
    → Agrees cmd s (some (e, s, c))
unsent-Agrees cmd s c e same h = (
  answering none,
  c,
  ap (λ x. some (e, x, c)) (sym (with_client-same c s same))
      ∙ ap (λ (x : Option Error × Vm). some (x.0, with_client c x.1, c)) (sym h),
)

command_client-Agrees :
    (bound : ℕ) (peer : Peer) (cmd : Text) (o : Option Text) (s : Vm) (c : QmpClient)
    → IsFair bound peer
    → s.qmp ≡ some (seen c)
    → is_nil s.vm_id ≡ false
    → is_connected s.qmp ≡ true
    → qmp_of_command cmd ≡ o
    → Agrees cmd s (command_client bound peer cmd o s c)
unfolding command_client
command_client-Agrees bound peer cmd none s c fair same there on known =
    unsent-Agrees cmd s c (some (unknown_command cmd)) same
      (manage-unknown (answering none) cmd s there on known)
command_client-Agrees bound peer cmd (some command) s c fair same there on known =
    let (r, e) = exec-Returned bound peer command c fair in
    subst (λ o. Agrees cmd s (on_commanded command s (error_of o))) (sym e)
      (sent-Agrees cmd command s r (λ env. manage-known env cmd command s there on known))

manage-gone :
    (env : QmpEnv) (cmd : Text) (s : Vm)
    → is_nil s.vm_id ≡ true
    → manage env cmd s ≡ (some no_instance_running, s)
unfolding manage
manage-gone env cmd s gone = simp gone

manage-off :
    (env : QmpEnv) (cmd : Text) (s : Vm)
    → is_nil s.vm_id ≡ false
    → is_connected s.qmp ≡ false
    → manage env cmd s ≡ (some (qemu_error (str "manage") (plain (str "QMP not connected"))), s)
unfolding manage
manage-off env cmd s there off = simp (there, off)

manage_client-Agrees :
    (bound : ℕ) (peer : Peer) (cmd : Text) (s : Vm) (c : QmpClient)
    → IsFair bound peer
    → s.qmp ≡ some (seen c)
    → Agrees cmd s (manage_client bound peer cmd s c)
unfolding manage_client is_connected connected
manage_client-Agrees bound peer cmd s c fair same = elim (Bool-cases (is_nil s.vm_id)) [
  | inl gone ↦ rw gone (
      unsent-Agrees cmd s c (some no_instance_running) same
        (manage-gone (answering none) cmd s gone))
  | inr there ↦ rw there (elim (Bool-cases (connected c)) [
    | inr off ↦ rw off (
        unsent-Agrees cmd s c (some (qemu_error (str "manage") (plain (str "QMP not connected"))))
          same (manage-off (answering none) cmd s there (ap is_connected same ∙ off)))
    | inl on ↦ rw on (
        command_client-Agrees bound peer cmd (qmp_of_command cmd) s c fair same there
          (ap is_connected same ∙ on) refl)
  ])
]

is_connected-eq : (c : QmpClient) → c.conn ≢ none → connected c ≡ true
unfolding connected
is_connected-eq c h = elim (Option-cases c.conn) [ inl e ↦ absurd (h e) | inr (k, e) ↦ rw e refl ]

on_commanded-IsSent :
    (bound : ℕ) (peer : Peer) (command : Text) (s : Vm) (c d : QmpClient) (r : Result Text)
    → exec bound peer command c ≡ some (r, d)
    → IsSent bound peer command s c (on_commanded command s (error_of (exec bound peer command c)))
unfolding on_commanded
on_commanded-IsSent bound peer command s c d (ok t) e = record {
  result = ok t;
  client = d;
  returned = e;
  same = rw e refl;
}
on_commanded-IsSent bound peer command s c d (err x) e = record {
  result = err x;
  client = d;
  returned = e;
  same = rw e refl;
}

-- Manage over the QMP client returns. Without a VM, without a connection and for a command that is not
-- known it fails, each with its error, with nothing sent and nothing changed. Else the client has run the
-- one QMP command that the instance's command stands for, and has returned: Manage gives the error of its
-- answer, if any, that command is the only effect, and the manager then sees the client as that left it,
-- with no other field changed. On every branch this is what the manager gives that knows only whether the
-- client is connected, for some answer of QEMU. The peer must be fair, as a command needs it to return,
-- and the manager must see the client as it is.
pub manage_client-Refines :
    (bound : ℕ) (peer : Peer) (cmd : Text) (s : Vm) (c : QmpClient)
    → IsFair bound peer
    → s.qmp ≡ some (seen c)
    → Refines bound peer cmd s c (manage_client bound peer cmd s c)
unfolding manage_client command_client connected
manage_client-Refines bound peer cmd s c fair same = record {
  gone = λ e. rw (ap is_nil e) refl;
  off = λ n e. rw (is_nil-ne s.vm_id n, e) refl;
  unknown = λ n on e. rw (is_nil-ne s.vm_id n, is_connected-eq c on, e) refl;
  sent = λ command n on e.
      let (r, returned) = exec-Returned bound peer command c fair in
      rw (is_nil-ne s.vm_id n, is_connected-eq c on, e)
        (on_commanded-IsSent bound peer command s c r.1 r.0 returned);
  agrees = manage_client-Agrees bound peer cmd s c fair same;
}
