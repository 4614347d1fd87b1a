-- ===== src/Wifi/Events.antt =====
-- main/wifi.cpp: what a run of the driver's events does, and which networks a scan lists.
use zhac_mono_core.Prelude.{
  ℕ, zero, suc, ◌+◌, ◌-◌, ◌≡◌, refl, Bool, true, false, ◌&&◌, ◌||◌, not, List, [], ◌∷◌, ◌++◌, ◌==◌,
  if◌then◌else◌, length, take, arith,
}
use zhac_mono_core.Wifi.{
  WifiEvent, sta_start, sta_disconnected, sta_got_ip, other_event, Call, wifi_connect, ntp_start,
  mqtt_sta_up, WifiState, on_wifi_event, Found, scan_from,
}

-- The state after a run of events, the first first.
pub after : WifiState → List WifiEvent → WifiState
after s [] = s
after s (e ∷ es) = after (on_wifi_event s e) es

pub starts : List Call → ℕ
starts [] = 0
starts (ntp_start ∷ cs) = suc (starts cs)
starts (wifi_connect ∷ cs) = starts cs
starts (mqtt_sta_up ∷ cs) = starts cs

pub connects : List Call → ℕ
connects [] = 0
connects (wifi_connect ∷ cs) = suc (connects cs)
connects (ntp_start ∷ cs) = connects cs
connects (mqtt_sta_up ∷ cs) = connects cs

starts-append : (xs ys : List Call) → starts (xs ++ ys) ≡ starts xs + starts ys
unfolding starts
starts-append [] ys = omega arith
starts-append (wifi_connect ∷ xs) ys = starts-append xs ys
starts-append (ntp_start ∷ xs) ys = omega (arith, starts-append xs ys)
starts-append (mqtt_sta_up ∷ xs) ys = starts-append xs ys

connects-append : (xs ys : List Call) → connects (xs ++ ys) ≡ connects xs + connects ys
unfolding connects
connects-append [] ys = omega arith
connects-append (wifi_connect ∷ xs) ys = omega (arith, connects-append xs ys)
connects-append (ntp_start ∷ xs) ys = connects-append xs ys
connects-append (mqtt_sta_up ∷ xs) ys = connects-append xs ys

-- How many events ask for a connection, and whether an address was got.
pub asks : List WifiEvent → ℕ
asks [] = 0
asks (sta_start ∷ es) = suc (asks es)
asks (sta_disconnected ∷ es) = suc (asks es)
asks (sta_got_ip ∷ es) = asks es
asks (other_event ∷ es) = asks es

pub got_ip : List WifiEvent → Bool
got_ip [] = false
got_ip (sta_got_ip ∷ es) = true
got_ip (sta_start ∷ es) = got_ip es
got_ip (sta_disconnected ∷ es) = got_ip es
got_ip (other_event ∷ es) = got_ip es

after-next :
    (s : WifiState) (es : List WifiEvent)
    → ((starts (after s es).calls)
        ≡ starts s.calls + (if not s.s_sntp_started && got_ip es then 1 else 0))
      × (connects (after s es).calls ≡ connects s.calls + asks es)
      × ((after s es).s_sntp_started ≡ (s.s_sntp_started || got_ip es))
unfolding after starts connects asks got_ip on_wifi_event
after-next s [] = ground arith
after-next s (other_event ∷ es) = after-next s es
after-next s (sta_start ∷ es) =
    let next = after-next (on_wifi_event s sta_start) es in
    ground (
      arith,
      next,
      starts-append s.calls (wifi_connect ∷ []),
      connects-append s.calls (wifi_connect ∷ []),
    )
after-next s (sta_disconnected ∷ es) =
    let next = after-next (on_wifi_event s sta_disconnected) es in
    ground (
      arith,
      next,
      starts-append s.calls (wifi_connect ∷ []),
      connects-append s.calls (wifi_connect ∷ []),
    )
after-next s (sta_got_ip ∷ es) =
    let added = (if s.s_sntp_started then [] else ntp_start ∷ []) ++ mqtt_sta_up ∷ [] in
    let next = after-next (on_wifi_event s sta_got_ip) es in
    ground (arith, next, starts-append s.calls added, connects-append s.calls added)

abbrev pub booted : WifiState
booted = record { s_sta_connected = false; s_sntp_started = false; calls = [] }

-- From the boot on, after any run of events, the time service was started once if an address was ever got, and else
-- not at all; and a connection was asked for once for each start and each loss of the station.
pub after-booted :
    (es : List WifiEvent)
    → (starts (after booted es).calls ≡ (if got_ip es then 1 else 0))
      × (connects (after booted es).calls ≡ asks es)
unfolding starts connects
after-booted es = let next = after-next booted es in ground (arith, next)

-- A network that is not hidden, with its name as the result's array holds it.
pub visible : ℕ → List Found → List Found
visible cap [] = []
visible cap (r ∷ rs) =
    if length r.ssid == 0
    then visible cap rs
    else record r { ssid = take (cap - 1) r.ssid } ∷ visible cap rs

pub scan_from-visible :
    (cap room : ℕ) (rs : List Found) → scan_from cap room rs ≡ take room (visible cap rs)
unfolding scan_from visible
scan_from-visible cap zero [] = refl
scan_from-visible cap (suc room) [] = refl
scan_from-visible cap zero (r ∷ rs) = refl
scan_from-visible cap (suc room) (r ∷ rs) =
    let one : suc room - 1 ≡ room = omega arith in
    ground (arith, scan_from-visible cap (suc room) rs, scan_from-visible cap room rs)
