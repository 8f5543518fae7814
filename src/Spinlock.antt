-- ===== src/Spinlock.antt =====
-- Spin locks and the nesting of interrupt disabling: c/os-master/spinlock.c. The debugging fields
-- (`name`, `pcs`) are left out.
pub mod Nesting
mod Tests
use c_cpp_projects.Prelude.{
  ℕ, zero, suc, ◌+◌, ◌-◌, Bool, true, false, ◌&&◌, not, Option, none, some, ◌==◌, if◌then◌else◌,
  Outcome, ok, panic, out_of_fuel, ◌>>=◌,
}

-- The fields of `struct cpu` that the locks use; `interrupts` is the processor's flag FL_IF, and
-- `id` stands for the structure's address.
pub record Cpu : Type 0 where
  pub id : ℕ
  pub ncli : ℕ
  pub intena : Bool
  pub interrupts : Bool

pub record Lock : Type 0 where
  pub locked : Bool
  pub cpu : Option ℕ

pub initlock : Lock
initlock = record { locked = false; cpu = none }

pub pushcli : Cpu → Cpu
pushcli c =
    let off = record c { interrupts = false } in
    if c.ncli == 0
    then record off { intena = c.interrupts; ncli = c.ncli + 1 }
    else record off { ncli = c.ncli + 1 }

-- `--ncli < 0` holds just if the counter was 0.
pub popcli : Cpu → Outcome Cpu
popcli c =
    if c.interrupts
    then panic "popcli - interruptible"
    else if c.ncli == 0
    then panic "popcli"
    else if (c.ncli - 1 == 0) && c.intena
    then ok (record c { ncli = c.ncli - 1; interrupts = true })
    else ok (record c { ncli = c.ncli - 1 })

abbrev pub is_cpu : Option ℕ → ℕ → Bool
is_cpu none id = false
is_cpu (some n) id = n == id

pub holding : Cpu → Lock → Bool
holding c lk = lk.locked && is_cpu lk.cpu c.id

-- While another processor has the lock, `acquire` spins, with interrupts off.
pub acquire : Cpu → Lock → Outcome (Cpu × Lock)
acquire c lk =
    let d = pushcli c in
    if holding d lk
    then panic "acquire"
    else if lk.locked
    then out_of_fuel
    else ok (d, record { locked = true; cpu = some d.id })

pub release : Cpu → Lock → Outcome (Cpu × Lock)
release c lk =
    if not (holding c lk)
    then panic "release"
    else (do d ← popcli c; ok (d, record { locked = false; cpu = none }))
