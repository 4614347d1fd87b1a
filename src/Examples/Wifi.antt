-- ===== src/Examples/Wifi.antt =====
-- Examples of the Wi-Fi settings, over a storage that keeps what is written.
use zhac_mono_core.Prelude.{
  ℕ, ◌≡◌, refl, true, false, Option, some, none, List, [], ◌∷◌, arith, take, replicate,
}
use zhac_mono_core.Prelude.Text.{bytes}
use zhac_mono_core.Wifi as Wifi
use zhac_mono_core.Wifi.{Key, ssid, pwd, Driver, wifi_start, wifi_save_sta}
use zhac_mono_core.Wifi.Creds.{wifi_start-save}
use zhac_mono_core.Wifi.Api.{handle_wifi_connect, handle_wifi_connect-start}
use zhac_mono_core.Groups.Api.Rest.{recv_body, body_of}
use zhac_mono_core.Document.{Json, JsonLib, text, object_of, member, lookup, same, as_text}

record Network : Type 0 where
  name : Option (List ℕ)
  password : Option (List ℕ)

abbrev put : Network → Key → Option (List ℕ) → Network
put f ssid v = record f { name = v }
put f pwd v = record f { password = v }

abbrev get : Network → Key → Option (List ℕ)
get f ssid = f.name
get f pwd = f.password

abbrev network_nvs : Wifi.Nvs
network_nvs = record {
  Flash = Network;
  nvs_open = λ f. true;
  get_str = get;
  set_str = λ f k v. (put f k (some v), true);
  erase_key = λ f k. put f k none;
  commit = λ f. f;
}

put_self : (f : Network) (k : Key) (v : Option (List ℕ)) → get (put f k v) k ≡ v
put_self f ssid v = refl
put_self f pwd v = refl

put_keeps_none : (f : Network) (k j : Key) → get f j ≡ none → get (put f k none) j ≡ none
put_keeps_none f ssid ssid h = refl
put_keeps_none f ssid pwd h = h
put_keeps_none f pwd ssid h = h
put_keeps_none f pwd pwd h = refl

network_nvs-IsNvs : Wifi.IsNvs network_nvs
network_nvs-IsNvs = record {
  str_self = λ f k v h. put_self f k (some v);
  pwd_keeps_ssid = λ f v. refl;
  erase_self = λ f k. put_self f k none;
  erase_keeps_none = λ f k j h. put_keeps_none f k j h;
  commit_str = λ f k. refl;
  commit_open = λ f. refl;
}

abbrev no_network : Network
no_network = record { name = none; password = none }

-- A network whose name has 32 bytes: the station is started with 31 of them.
wifi_start-save_example :
    (wifi_start network_nvs
      (record { ssid_size = 32; password_size = 64 })
      false
      (wifi_save_sta network_nvs no_network (replicate 32 b'n') (bytes "secret")).0).sta
    ≡ some (record { ssid = take 31 (replicate 32 b'n'); password = take 63 (bytes "secret") })
unfolding wifi_save_sta
wifi_start-save_example =
    wifi_start-save network_nvs network_nvs-IsNvs no_network
      (record { ssid_size = 32; password_size = 64 }) false (replicate 32 b'n') (bytes "secret")
      refl refl (omega arith) (omega arith) (omega arith) refl refl

-- A request that sets the network.
abbrev network_doc : Json
network_doc =
    object_of ((bytes "ssid", text (bytes "home")) ∷ (bytes "password", text (bytes "secret")) ∷ [])

abbrev network_lib : JsonLib
network_lib = record { deserialize = λ s. some network_doc; serialize = λ j. bytes "{}" }

handle_wifi_connect-start_example :
    (wifi_start network_nvs
      (record { ssid_size = 32; password_size = 64 })
      false
      (handle_wifi_connect network_nvs network_lib no_network (some (bytes "{}"))).0).sta
    ≡ some (record { ssid = take 31 (bytes "home"); password = take 63 (bytes "secret") })
unfolding handle_wifi_connect wifi_save_sta body_of recv_body member lookup same as_text object_of
handle_wifi_connect-start_example =
    handle_wifi_connect-start network_nvs network_lib network_nvs-IsNvs
      (record { ssid_size = 32; password_size = 64 }) no_network (bytes "{}") (bytes "{}")
      (bytes "home") (bytes "secret") network_doc refl refl refl refl refl refl (omega arith)
      (omega arith) (omega arith) refl refl
