-- ===== src/Devices/Registry/Refines.antt =====
-- The endpoints of the device service beside the maps (main.py).
use centralized_hvac_system.Prelude.{◌≡◌, Bool}
use centralized_hvac_system.Prelude.Result.{Result}
use centralized_hvac_system.Float.{Float}
use centralized_hvac_system.Devices.{Tables, Server, Outside}
use centralized_hvac_system.Devices.Registry.{Answer, Maps, view}

module _ {F J : Type 0} (out : Outside F J) (taken : Bool)
    (verdict : (t : Tables F J) → out.accepts t ≡ taken) where
  -- One answer and one change.
  abbrev pub Simulates : Result (Answer F J) × Server F J → Result (Answer F J) × Maps F J → Type 0
  Simulates r m = (r.0 ≡ m.0) × (view r.1 ≡ m.1)
