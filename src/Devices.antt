-- ===== src/Devices.antt =====
-- src/kernel/drivers/hal.c and src/kernel/drivers/ramdisk/ramdisk.c: the table of devices by name, and
-- the RAM disk behind the name "ram". `none` is a failed assertion or a panic.
pub mod Register
use njuos.Prelude.{
  ℕ, ◌+◌, ◌*◌, ◌<◌, List, [], ◌∷◌, ◌++◌, Option, none, some, ltb, leb, if◌then◌else◌, length,
}
use njuos.Strings.{equal_strings}
use njuos.FileSystem.{Disk, dev_read, dev_write}

pub record Dev : Type 0 where
  pub name : List ℕ
  pub pid : ℕ
  pub dev_id : ℕ

-- `NR_DEV`
abbrev pub nr_dev : ℕ
nr_dev = 16

-- `hal_get`, over the list of devices.
pub hal_get : List ℕ → List Dev → Option Dev
hal_get name [] = none
hal_get name (dev ∷ devs) =
    let rest = hal_get name devs in if equal_strings dev.name name then some dev else rest

-- `hal_get_id`
pub hal_get_id : List ℕ → List Dev → Option (ℕ × ℕ)
hal_get_id name devs = elim (hal_get name devs) [
  | none ↦ none
  | some dev ↦ some (dev.pid, dev.dev_id)
]

-- `hal_register`: the pool has a free entry for each device that is not registered.
pub hal_register : Dev → List Dev → Option (List Dev)
hal_register dev devs =
    if ltb (length devs) nr_dev
    then (elim (hal_get dev.name devs) [ none ↦ some (devs ++ dev ∷ []) | some old ↦ none ])
    else none

-- `RAMDISK_SIZE`
abbrev pub ramdisk_size : ℕ
ramdisk_size = 4 * 1024 * 1024

-- `read_ram` and `write_ram`, for an offset and a length that are not negative and whose sum is an int:
-- the answer is the length.
pub read_ram : Disk → (offset len : ℕ) → Option (List ℕ × ℕ)
read_ram d offset len =
    if ltb (offset + len) ramdisk_size then some (dev_read d offset len, len) else none

pub write_ram : Disk → (offset len : ℕ) → (ℕ → ℕ) → Option (Disk × ℕ)
write_ram d offset len buf =
    if ltb (offset + len) ramdisk_size then some (dev_write d offset len buf, len) else none
