-- ===== src/Qemu/Manager/Binding.antt =====
-- internal/qemu/manager.go: the loop of Create over the GPUs, and what it relies on of VFIO.Bind.
use qudata_agent.Common.{subst, Option, some, ℕ, refl, true, none, List, [], ◌≡◌, ◌++◌, ◌∷◌}
use qudata_agent.Common.Text.{Text, str}
use qudata_agent.Domain.{Error, Result, ok, err, vfio_error}
use qudata_agent.Qemu.Manager.Parts.{bind_all, leave_all}
use qudata_agent.Qemu.Vfio.{Vfio}
use qudata_agent.Qemu.Manager.{Effect, bound}
use qudata_agent.Qemu.Manager.Ledger.{Owes, onto, Owes-unbind_all, Owes-bound, Owes-leave_all}
use qudata_agent.Qemu.Manager.Stop.{unbind_all}

abbrev pub BindsHonestly : (Text → Option Error × Vfio × List Text) → Type 0
BindsHonestly bind =
    (a : Text) → (bind a).0 ≡ none → ((bind a).1.bound ≡ true) × ((bind a).1.addr ≡ a)

-- The devices that the loop leaves bound, onto those that were left before.
unfoldable pub left_behind :
    (Text → Option Error × Vfio × List Text) → List Text → List Text → List Text
left_behind bind [] lost = lost
left_behind bind (addr ∷ addrs) lost = elim (bind addr).0 [
  | some e ↦ onto (bind addr).2 lost
  | none ↦ left_behind bind addrs lost
]

abbrev pub Binds : ℕ → List Text → Result (List Vfio) × List Effect → Type 0
Binds procs lost (err e, fx) = Owes lost fx [] none procs
Binds procs lost (ok vfios, fx) = Owes lost fx vfios none procs

-- One round of the loop, with the error of Bind.
bind_round :
    (bind : Text → Option Error × Vfio × List Text) (addr : Text) (addrs : List Text)
    (vfios : List Vfio) (fx : List Effect) (lost : List Text)
    → BindsHonestly bind
    → Owes lost fx vfios none 0
    → ((ws : List Vfio) (fx' : List Effect)
        → Owes lost fx' ws none 0
        → Binds 0 (left_behind bind addrs lost) (bind_all bind addrs ws fx'))
    → (o : Option Error) → (bind addr).0 ≡ o
    → Binds 0
        (elim o [ some e ↦ onto (bind addr).2 lost | none ↦ left_behind bind addrs lost ])
        (elim o [
          | some e ↦
              (err (vfio_error (str "bind") addr e), unbind_all vfios (leave_all (bind addr).2 fx))
          | none ↦ bind_all bind addrs (vfios ++ (bind addr).1 ∷ []) (bound addr ∷ fx)
        ])
bind_round bind addr addrs vfios fx lost honest owed rest (some e) same =
    Owes-unbind_all vfios (Owes-leave_all (bind addr).2 owed)
bind_round bind addr addrs vfios fx lost honest owed rest none same =
    let v = (bind addr).1 in
    let (is_bound, is_addr) = honest addr same in
    rest (vfios ++ v ∷ []) (bound addr ∷ fx) (
      subst (λ a. Owes lost (bound a ∷ fx) (vfios ++ v ∷ []) none 0) is_addr
        (Owes-bound v is_bound owed))

pub bind_all-Binds :
    (bind : Text → Option Error × Vfio × List Text) (addrs : List Text) (vfios : List Vfio)
    (fx : List Effect) (lost : List Text)
    → BindsHonestly bind
    → Owes lost fx vfios none 0
    → Binds 0 (left_behind bind addrs lost) (bind_all bind addrs vfios fx)
unfolding bind_all left_behind
bind_all-Binds bind [] vfios fx lost honest o = o
bind_all-Binds bind (addr ∷ addrs) vfios fx lost honest o =
    bind_round bind addr addrs vfios fx lost honest o
      (λ ws fx' o'. bind_all-Binds bind addrs ws fx' lost honest o') (bind addr).0 refl
