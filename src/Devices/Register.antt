-- ===== src/Devices/Register.antt =====
-- What registering a device does to the names.
use njuos.Prelude.{
  ℕ, ◌<◌, ◌≡◌, refl, ◌∙◌, List, [], ◌∷◌, ◌++◌, none, some, ltb, true, length, arith,
}
use njuos.Strings.Compare.{equal_strings_lem}
use njuos.Devices.{Dev, nr_dev, hal_get, hal_get_id, hal_register}

-- A name that is not found among the devices is looked up in what is added behind them.
hal_get-append :
    (name : List ℕ) (devs : List Dev) (dev : Dev)
    → hal_get name devs ≡ none
    → hal_get name (devs ++ dev ∷ []) ≡ hal_get name (dev ∷ [])
unfolding hal_get
hal_get-append name [] dev e = refl
hal_get-append name (d ∷ devs) dev e = ground (arith, hal_get-append name devs dev)

-- With a name that is new and room in the pool, `hal_register` succeeds: the name leads to the thread
-- and the device number that were given, and the same name is not registered again.
pub hal_register-hal_get_id :
    (dev : Dev) (devs : List Dev)
    → length devs < nr_dev
    → hal_get dev.name devs ≡ none
    → (devs' : List Dev) × (hal_register dev devs ≡ some devs')
      × (hal_get_id dev.name devs' ≡ some (dev.pid, dev.dev_id))
      × (hal_register dev devs' ≡ none)
unfolding hal_register hal_get_id hal_get
hal_register-hal_get_id dev devs h e =
    let room : ltb (length devs) nr_dev ≡ true = ground arith in
    let here : hal_get dev.name (devs ++ dev ∷ []) ≡ some dev =
      hal_get-append dev.name devs dev e ∙ rw ((equal_strings_lem dev.name dev.name).1 refl) refl in
    (devs ++ dev ∷ [], rw (hal_register, room, e) refl, rw (hal_get_id, here) refl, again here)
  where
    again :
        hal_get dev.name (devs ++ dev ∷ []) ≡ some dev → hal_register dev (devs ++ dev ∷ []) ≡ none
    again here = ground (arith, here)
