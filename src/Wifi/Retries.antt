-- ===== src/Wifi/Retries.antt =====
-- How often the station tries again (main/wifi_sta.c).
use esp32_deepgram_voice_age.Common.{
  ℕ, suc, ◌+◌, min, ◌≡◌, refl, sym, ap, ◌∙◌, subst, inl, inr, Bool, true, false, not, ◌||◌, List,
  [], ◌∷◌, ◌++◌, arith, ltb, if◌then◌else◌, Bool-cases,
}
use esp32_deepgram_voice_age.Wifi.{
  Call, connect, arm_threshold, driver_start, driver_stop, Sta, Event, sta_start, sta_disconnected,
  bss_rssi_low, sta_got_ip, on_wifi_event, esp_ok, esp_fail, esp_timeout, wifi_sta_start,
  wifi_sta_stop, wifi_sta_wait_connected,
}

-- Events one after another, and the driver's calls.
unfoldable pub events : ℕ → List Event → Sta → Sta × List Call
events max_retry [] s = (s, [])
events max_retry (e ∷ es) s =
    let (s', calls) = on_wifi_event max_retry e s in
    let (s'', more) = events max_retry es s' in (s'', calls ++ more)

-- The station as the user of the network sees it: losses since the last address, whether there
-- ever was one, and whether it once lost more than it may.
pub record Link : Type 0 where
  pub losses : ℕ
  pub had_address : Bool
  pub gave_up : Bool

abbrev pub link_step : ℕ → Event → Link → Link
link_step max_retry sta_start l = l
link_step max_retry sta_disconnected l = record l {
  losses = l.losses + 1;
  gave_up = l.gave_up || ltb max_retry (l.losses + 1);
}
link_step max_retry bss_rssi_low l = l
link_step max_retry sta_got_ip l = record l { losses = 0; had_address = true }

abbrev pub links : ℕ → List Event → Link → Link
links max_retry [] l = l
links max_retry (e ∷ es) l = links max_retry es (link_step max_retry e l)

or_false : (b : Bool) → b || false ≡ b
or_false true = refl
or_false false = refl

or_true : (b : Bool) → b || true ≡ true
or_true true = refl
or_true false = refl

-- What the station keeps of it.
pub record Follows (max_retry : ℕ) (s : Sta) (l : Link) : Type 0 where
  pub on : s.connecting ≡ true
  pub counted : s.retries ≡ min max_retry l.losses
  pub connected : s.connected_bit ≡ l.had_address
  pub failed : s.failed_bit ≡ l.gave_up

step-Follows :
    (max_retry : ℕ) (e : Event) (s : Sta) (l : Link)
    → Follows max_retry s l
    → Follows max_retry (on_wifi_event max_retry e s).0 (link_step max_retry e l)
unfolding on_wifi_event
step-Follows max_retry sta_start s l f = f
step-Follows max_retry bss_rssi_low s l f = record {
  on = f.on;
  counted = f.counted;
  connected = f.connected;
  failed = f.failed;
}
step-Follows max_retry sta_got_ip s l f = record {
  on = f.on;
  counted = omega arith;
  connected = refl;
  failed = f.failed;
}
step-Follows max_retry sta_disconnected s l f =
    let l' : Link = link_step max_retry sta_disconnected l in
    let tried : Sta × List Call =
      if ltb s.retries max_retry
      then (record s { retries = s.retries + 1 }, connect ∷ [])
      else (record s { failed_bit = true }, []) in
    let r : Bool → Sta × List Call = λ idle. if idle then (s, []) else tried in
    subst (λ idle. Follows max_retry (r idle).0 l') (sym (ap not f.on))
      (elim (Bool-cases (ltb s.retries max_retry)) [
        | inl e ↦
            let less : ltb max_retry (l.losses + 1) ≡ false = ground (arith, e, f.counted) in
            rw e (record {
              on = f.on;
              counted = ground (arith, e, f.counted);
              connected = f.connected;
              failed = f.failed ∙ sym (or_false l.gave_up) ∙ ap (λ b. l.gave_up || b) (sym less);
            })
        | inr e ↦
            let more : ltb max_retry (l.losses + 1) ≡ true = ground (arith, e, f.counted) in
            rw e (record {
              on = f.on;
              counted = ground (arith, e, f.counted);
              connected = f.connected;
              failed = sym (or_true l.gave_up) ∙ ap (λ b. l.gave_up || b) (sym more);
            })
      ])

events-Follows :
    (max_retry : ℕ) (es : List Event) (s : Sta) (l : Link)
    → Follows max_retry s l
    → Follows max_retry (events max_retry es s).0 (links max_retry es l)
unfolding events
events-Follows max_retry [] s l f = f
events-Follows max_retry (e ∷ es) s l f =
    events-Follows max_retry es (on_wifi_event max_retry e s).0 (link_step max_retry e l)
      (step-Follows max_retry e s l f)

abbrev pub no_link : Link
no_link = record { losses = 0; had_address = false; gave_up = false }

-- After `wifi_sta_start` with a name, whatever state it was in and whatever events come: the wait
-- for the network ends with success once there was an address, with failure if there was none and
-- more losses came, with no address between them, than the retries that are allowed, and by its
-- timeout otherwise; and the retries count the losses since the last address, up to that number.
pub wifi_sta_wait_connected-events :
    (max_retry c : ℕ) (ssid : List ℕ) (es : List Event) (s : Sta)
    → let s' = (events max_retry es (wifi_sta_start (c ∷ ssid) s).1.0).0 in
      let l = links max_retry es no_link in
      (wifi_sta_wait_connected s'
        ≡ (if l.had_address then esp_ok else if l.gave_up then esp_fail else esp_timeout))
      × (s'.retries ≡ min max_retry l.losses)
unfolding wifi_sta_wait_connected wifi_sta_start
wifi_sta_wait_connected-events max_retry c ssid es s =
    let s1 = (wifi_sta_start (c ∷ ssid) s).1.0 in
    let f =
      events-Follows max_retry es s1 no_link
        (record { on = refl; counted = omega arith; connected = refl; failed = refl }) in
    (
      (λ i. if f.connected i then esp_ok else if f.failed i then esp_fail else esp_timeout),
      f.counted,
    )

-- The calls that join the network.
abbrev pub connects : List Call → ℕ
connects [] = 0
connects (connect ∷ cs) = suc (connects cs)
connects (arm_threshold ∷ cs) = connects cs
connects (driver_start ∷ cs) = connects cs
connects (driver_stop ∷ cs) = connects cs

connects-append : (cs ds : List Call) → connects (cs ++ ds) ≡ connects cs + connects ds
connects-append [] ds = omega arith
connects-append (connect ∷ cs) ds = omega (arith, connects-append cs ds)
connects-append (arm_threshold ∷ cs) ds = connects-append cs ds
connects-append (driver_start ∷ cs) ds = connects-append cs ds
connects-append (driver_stop ∷ cs) ds = connects-append cs ds

off_step :
    (max_retry : ℕ) (e : Event) (s : Sta)
    → s.connecting ≡ false
    → let (s', calls) = on_wifi_event max_retry e s in
      (s'.connecting ≡ false) × ((s'.failed_bit ≡ s.failed_bit) × (connects calls ≡ 0))
unfolding on_wifi_event
off_step max_retry sta_start s h =
    (h, (refl, ap (λ b. connects (if b then connect ∷ [] else [])) h))
off_step max_retry sta_disconnected s h = rw h (refl, (refl, refl))
off_step max_retry bss_rssi_low s h = (h, (refl, refl))
off_step max_retry sta_got_ip s h = (h, (refl, refl))

off_events :
    (max_retry : ℕ) (es : List Event) (s : Sta)
    → s.connecting ≡ false
    → let (s', calls) = events max_retry es s in
      (s'.failed_bit ≡ s.failed_bit) × (connects calls ≡ 0)
unfolding events
off_events max_retry [] s h = (refl, refl)
off_events max_retry (e ∷ es) s h =
    let (h', (f, z)) = off_step max_retry e s h in
    let r = on_wifi_event max_retry e s in
    let (f', z') = off_events max_retry es r.0 h' in
    (f' ∙ f, omega (arith, connects-append r.1 (events max_retry es r.0).1, z, z'))

-- After `wifi_sta_stop`, whatever events still come, the station never joins the network again by
-- itself and reports no failure.
pub events-wifi_sta_stop :
    (max_retry : ℕ) (es : List Event) (s : Sta)
    → let (s', calls) = events max_retry es (wifi_sta_stop s).0 in
      (connects calls ≡ 0) × (s'.failed_bit ≡ false)
unfolding wifi_sta_stop
events-wifi_sta_stop max_retry es s =
    let (f, z) = off_events max_retry es (wifi_sta_stop s).0 refl in (z, f)
