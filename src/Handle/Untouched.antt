-- ===== src/Handle/Untouched.antt =====
-- What a call of handle_request leaves behind.
use multi_threaded_proxy_ser.Base.{◌≡◌, true, false, []}
use multi_threaded_proxy_ser.Headers.Store.{Headers}
use multi_threaded_proxy_ser.Cache.Store
use multi_threaded_proxy_ser.Relay.Loop
use multi_threaded_proxy_ser.Relay.Loop.{Relay}
use multi_threaded_proxy_ser.Handle.Run.{World, Handled, finished, fault, out_of_fuel}

-- A failed call has sent the client nothing and left the cache alone.
abbrev pub IsUntouched : World → Handled → Type 0
IsUntouched w (finished true w' delivered) = Unit {0}
IsUntouched w (finished false w' delivered) = (delivered ≡ []) × (w'.store ≡ w.store)
IsUntouched w fault = Unit {0}
IsUntouched w out_of_fuel = Unit {0}
