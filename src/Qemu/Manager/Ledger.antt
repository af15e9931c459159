-- ===== src/Qemu/Manager/Ledger.antt =====
-- What the manager holds of the host, read off its effects: the GPUs bound and not yet unbound, the
-- disks made and not yet removed, the processes started and not yet exited.
use qudata_agent.Common.{
  refl, ap, ℕ, suc, Bool, true, false, Option, none, some, List, [], arith, ◌≡◌, ◌+◌, ◌++◌, ◌∷◌,
  ◌&&◌, if◌then◌else◌,
}
use qudata_agent.Qemu.Manager.{
  Effect, bound, unbound, disk_made, disk_removed, started, vars_written, exited, file_removed,
  log_made, qmp_command, qemu_img, ran, killed, left,
}
use qudata_agent.Common.Text.{Text, text_eq}
use qudata_agent.Qemu.Vfio.{Vfio}
use qudata_agent.Qemu.Manager.Stop.{unbind_all, unless_empty}
use qudata_agent.Qemu.Manager.Parts.{roll_back, leave_all}

abbrev pub tally : (Effect → ℕ) → List Effect → ℕ
tally w [] = 0
tally w (e ∷ fx) = w e + tally w fx

abbrev one_if : Bool → ℕ
one_if b = if b then 1 else 0

unfoldable pub is_bound : Text → Effect → ℕ
is_bound a (bound b) = one_if (text_eq b a)
is_bound a (left b) = one_if (text_eq b a)
is_bound a _ = 0

unfoldable pub is_unbound : Text → Effect → ℕ
is_unbound a (unbound b) = one_if (text_eq b a)
is_unbound a _ = 0

unfoldable pub is_left : Text → Effect → ℕ
is_left a (left b) = one_if (text_eq b a)
is_left a _ = 0

unfoldable pub is_disk_made : Text → Effect → ℕ
is_disk_made p (disk_made q) = one_if (text_eq q p)
is_disk_made p _ = 0

unfoldable pub is_disk_removed : Text → Effect → ℕ
is_disk_removed p (disk_removed q) = one_if (text_eq q p)
is_disk_removed p _ = 0

unfoldable pub is_started : Effect → ℕ
is_started (started args) = 1
is_started _ = 0

unfoldable pub is_exited : Effect → ℕ
is_exited exited = 1
is_exited _ = 0

-- How many of the devices are bound and have the address.
unfoldable pub holds : Text → List Vfio → ℕ
holds a [] = 0
holds a (v ∷ vs) = one_if (v.bound && text_eq v.addr a) + holds a vs

unfoldable pub holds_disk : Text → Option Text → ℕ
holds_disk p none = 0
holds_disk p (some q) = one_if (text_eq q p)

unfoldable pub alive : Option Bool → ℕ
alive none = 0
alive (some true) = 0
alive (some false) = 1

-- A disk path of the manager, which is empty where there is none.
abbrev pub disk_of : Text → Option Text
disk_of [] = none
disk_of (c ∷ s) = some (c ∷ s)

-- The devices that a Bind which failed has left bound.
unfoldable pub lefts : List Effect → List Text
lefts [] = []
lefts (left a ∷ fx) = a ∷ lefts fx
lefts (_ ∷ fx) = lefts fx

-- A list, with each element of another put in front in turn.
abbrev pub onto : List Text → List Text → List Text
onto [] l = l
onto (a ∷ rest) l = onto rest (a ∷ l)

-- After the effects exactly these are held: each device of the list, the disk, and so many processes;
-- and `lost` are the devices that a Bind which failed has left bound, the last first. Files of firmware variables and
-- logs are not counted.
pub record Owes (lost : List Text) (fx : List Effect) (vs : List Vfio) (disk : Option Text)
    (procs : ℕ) : Type 0 where
  pub gpus :
      (a : Text)
      → tally (is_bound a) fx ≡ tally (is_unbound a) fx + tally (is_left a) fx + holds a vs
  pub disks :
      (p : Text) → tally (is_disk_made p) fx ≡ tally (is_disk_removed p) fx + holds_disk p disk
  pub left_over : lefts fx ≡ lost
  pub processes : tally is_started fx ≡ tally is_exited fx + procs

-- An effect on nothing that is counted.
abbrev pub is_neutral : Effect → Bool
is_neutral (vars_written p) = true
is_neutral (file_removed p) = true
is_neutral (log_made p) = true
is_neutral killed = true
is_neutral (qmp_command c) = true
is_neutral (qemu_img c) = true
is_neutral (ran c) = true
is_neutral _ = false

holds-append : (a : Text) (vs ws : List Vfio) → holds a (vs ++ ws) ≡ holds a vs + holds a ws
unfolding holds
holds-append a [] ws = omega arith
holds-append a (v ∷ vs) ws = omega (arith, holds-append a vs ws)

module _ {lost : List Text} {fx : List Effect} {vs : List Vfio} {disk : Option Text}
    {procs : ℕ} where
  pub Owes-neutral :
      (e : Effect)
      → is_neutral e ≡ true
      → Owes lost fx vs disk procs
      → Owes lost (e ∷ fx) vs disk procs
  unfolding lefts is_bound is_unbound is_left is_disk_made is_disk_removed is_started is_exited
  Owes-neutral (bound p) n o = cc
  Owes-neutral _ n o = record {
    gpus = λ a. ground (arith, o.gpus a);
    disks = λ p. ground (arith, o.disks p);
    left_over = ground (arith, o.left_over);
    processes = ground (arith, o.processes);
  }

  pub Owes-bound :
      (v : Vfio)
      → v.bound ≡ true
      → Owes lost fx vs disk procs
      → Owes lost (bound v.addr ∷ fx) (vs ++ v ∷ []) disk procs
  unfolding lefts is_bound is_unbound is_left is_disk_made is_disk_removed is_started is_exited
      holds
  Owes-bound v b o = record {
    gpus = λ a. ground (arith, o.gpus a, holds-append a vs (v ∷ []));
    disks = λ p. omega (arith, o.disks p);
    left_over = o.left_over;
    processes = omega (arith, o.processes);
  }

  Owes-left : (a : Text) → Owes lost fx vs disk procs → Owes (a ∷ lost) (left a ∷ fx) vs disk procs
  unfolding lefts is_bound is_unbound is_left is_disk_made is_disk_removed is_started is_exited
  Owes-left a o = record {
    gpus = λ b. ground (arith, o.gpus b);
    disks = λ p. omega (arith, o.disks p);
    left_over = ap (λ l. a ∷ l) o.left_over;
    processes = omega (arith, o.processes);
  }

  -- One device of the list is given back, if it was bound.
  Owes-unbind_one :
      (v : Vfio)
      → Owes lost fx (v ∷ vs) disk procs
      → Owes lost (if v.bound then unbound v.addr ∷ fx else fx) vs disk procs
  unfolding lefts is_bound is_unbound is_left is_disk_made is_disk_removed is_started is_exited
      holds
  Owes-unbind_one v o = record {
    gpus = λ a. ground (arith, o.gpus a);
    disks = λ p. ground (arith, o.disks p);
    left_over = ground (arith, o.left_over);
    processes = ground (arith, o.processes);
  }

  pub Owes-started :
      (args : List Text)
      → Owes lost fx vs disk procs
      → Owes lost (started args ∷ fx) vs disk (suc procs)
  unfolding lefts is_bound is_unbound is_left is_disk_made is_disk_removed is_started is_exited
  Owes-started args o = record {
    gpus = λ a. omega (arith, o.gpus a);
    disks = λ q. omega (arith, o.disks q);
    left_over = o.left_over;
    processes = omega (arith, o.processes);
  }

  pub Owes-exited : Owes lost fx vs disk (suc procs) → Owes lost (exited ∷ fx) vs disk procs
  unfolding lefts is_bound is_unbound is_left is_disk_made is_disk_removed is_started is_exited
  Owes-exited o = record {
    gpus = λ a. omega (arith, o.gpus a);
    disks = λ q. omega (arith, o.disks q);
    left_over = o.left_over;
    processes = omega (arith, o.processes);
  }

module _ {lost : List Text} {fx : List Effect} {vs : List Vfio} {procs : ℕ} where
  pub Owes-disk_made :
      (p : Text) → Owes lost fx vs none procs → Owes lost (disk_made p ∷ fx) vs (some p) procs
  unfolding lefts is_bound is_unbound is_left is_disk_made is_disk_removed is_started is_exited
      holds_disk
  Owes-disk_made p o = record {
    gpus = λ a. omega (arith, o.gpus a);
    disks = λ q. ground (arith, o.disks q);
    left_over = o.left_over;
    processes = omega (arith, o.processes);
  }

  pub Owes-disk_removed :
      (p : Text) → Owes lost fx vs (some p) procs → Owes lost (disk_removed p ∷ fx) vs none procs
  unfolding lefts is_bound is_unbound is_left is_disk_made is_disk_removed is_started is_exited
      holds_disk
  Owes-disk_removed p o = record {
    gpus = λ a. omega (arith, o.gpus a);
    disks = λ q. ground (arith, o.disks q);
    left_over = o.left_over;
    processes = omega (arith, o.processes);
  }

pub Owes-leave_all :
    (addrs : List Text) {lost : List Text} {fx : List Effect} {vs : List Vfio} {disk : Option Text}
    {procs : ℕ}
    → Owes lost fx vs disk procs
    → Owes (onto addrs lost) (leave_all addrs fx) vs disk procs
unfolding leave_all
Owes-leave_all [] o = o
Owes-leave_all (a ∷ addrs) o = Owes-leave_all addrs (Owes-left a o)

pub Owes-unbind_all :
    (vs : List Vfio) {lost : List Text} {fx : List Effect} {disk : Option Text} {procs : ℕ}
    → Owes lost fx vs disk procs
    → Owes lost (unbind_all vs fx) [] disk procs
unfolding unbind_all
Owes-unbind_all [] o = o
Owes-unbind_all (v ∷ vs) o = Owes-unbind_all vs (Owes-unbind_one v o)

pub Owes-roll_back :
    (vs : List Vfio) (p : Text) {lost : List Text} {fx : List Effect} {procs : ℕ}
    → Owes lost fx vs (some p) procs
    → Owes lost (roll_back p vs fx) [] none procs
unfolding roll_back
Owes-roll_back vs p o = Owes-unbind_all vs (Owes-disk_removed p o)

pub Owes-unless_empty :
    (t : Text) (e : Effect) {lost : List Text} {fx : List Effect} {vs : List Vfio}
    {disk : Option Text} {procs : ℕ}
    → is_neutral e ≡ true
    → Owes lost fx vs disk procs
    → Owes lost (unless_empty t e fx) vs disk procs
Owes-unless_empty [] e n o = o
Owes-unless_empty (c ∷ s) e n o = Owes-neutral e n o

pub Owes-own :
    {lost : List Text} {fx : List Effect} {vs : List Vfio} {disk : Option Text} {procs : ℕ}
    → Owes lost fx vs disk procs
    → Owes (lefts fx) fx vs disk procs
Owes-own o = record { gpus = o.gpus; disks = o.disks; left_over = refl; processes = o.processes }
