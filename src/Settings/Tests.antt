-- ===== src/Settings/Tests.antt =====
-- A storage on which the settings run, and runs of the code.
use esp32_deepgram_voice_age.Common.{
  ℕ, suc, ◌≡◌, refl, inl, inr, true, Option, none, some, List, [], ◌∷◌, arith, ltb, if◌then◌else◌,
  lt→ltb, Bool-cases, length,
}
use esp32_deepgram_voice_age.Settings.{
  name_max, sanitise, wifi_creds_load, wifi_creds_save, wifi_creds_erase, api_key_save,
}
use esp32_deepgram_voice_age.Settings.Nvs.{
  Err, ok, not_found, invalid_size, Key, wifi_ssid, wifi_pass, api_key, agent_name, Storage,
  same_key,
}
use esp32_deepgram_voice_age.Settings.{strip_space, skip_space, any_cntrl}
use esp32_deepgram_voice_age.Settings.RoundTrip.{wifi_creds_load-save}

abbrev Values : Type 0
Values = Key → Option (List ℕ)

abbrev found : Option (List ℕ) → Err
found none = not_found
found (some v) = ok

abbrev read : ℕ → Option (List ℕ) → Err × List ℕ
read len none = (not_found, [])
read len (some v) = if ltb (length v) len then (ok, v) else (invalid_size, [])

abbrev size : Option (List ℕ) → Err × ℕ
size none = (not_found, 0)
size (some v) = (ok, suc (length v))

abbrev put : Values → Key → Option (List ℕ) → Values
put s k v = λ j. if same_key k j then v else s j

same_key_refl : (k : Key) → same_key k k ≡ true
same_key_refl wifi_ssid = refl
same_key_refl wifi_pass = refl
same_key_refl api_key = refl
same_key_refl agent_name = refl

put-found :
    (s : Values) (k j : Key) (v : List ℕ) → found (s j) ≡ ok → found (put s k (some v) j) ≡ ok
put-found s k j v h = elim (Bool-cases (same_key k j)) [ inl e ↦ rw e | inr e ↦ rw e h ]

read-size :
    (len : ℕ) (o : Option (List ℕ)) (v : List ℕ)
    → read len o ≡ (ok, v)
    → size o ≡ (ok, suc (length v))
read-size len none v h = cc h
read-size len (some w) v h = ground arith

never_missing : (s : Values) (k : Key) → ok ≡ not_found → found (s k) ≡ not_found
never_missing s k h = cc h

abbrev flash : Storage
flash = record {
  Store = Values;
  open_read = λ s k. found (s k);
  open_write = λ s k. ok;
  get_str = λ s k len. read len (s k);
  set_str = λ s k v. (ok, put s k (some v));
  erase_key = λ s k. (found (s k), put s k none);
  commit = λ s k. (ok, s);
  get_len = λ s k. size (s k);
  open_read-set_str = λ s k v h. rw (same_key_refl k);
  open_read-other = put-found;
  open_read-commit = λ s k j. refl;
  get_str-set_str = λ s k v len h l. rw (same_key_refl k, lt→ltb (length v) len l);
  get_str-other = λ s k j v len h. rw h;
  get_str-commit = λ s k j len. refl;
  get_len-get_str = λ s k v len h. read-size len (s k) v h;
  open_write-not_found = never_missing;
  get_str-erase_key = λ s k len h. rw (same_key_refl k);
  get_str-erase_other = λ s k j len h. rw h;
}

abbrev blank : Values
blank k = none

-- A name that was heard, with white space around it.
abbrev heard : List ℕ
heard = 32 ∷ 83 ∷ 97 ∷ 109 ∷ 32 ∷ []

abbrev sam : List ℕ
sam = 83 ∷ 97 ∷ 109 ∷ []

abbrev home : List ℕ
home = 104 ∷ 111 ∷ 109 ∷ 101 ∷ []

heard_test : sanitise name_max heard ≡ some sam
unfolding sanitise strip_space skip_space any_cntrl
heard_test = refl

saved_key : (api_key_save flash sam blank).0 ≡ ok
unfolding api_key_save
saved_key = refl

saved_network : (wifi_creds_save flash home sam blank).0 ≡ ok
unfolding wifi_creds_save
saved_network = refl

wifi_creds_load-save_example :
    wifi_creds_load flash [] [] (wifi_creds_save flash home sam blank).1 ≡ some (home, sam)
wifi_creds_load-save_example =
    wifi_creds_load-save flash [] [] home sam blank (ground arith) (ground arith) saved_network

abbrev provisioned : Values
provisioned = put (put blank wifi_ssid (some home)) wifi_pass (some sam)

erased_network : (wifi_creds_erase flash provisioned).0 ≡ ok
unfolding wifi_creds_erase
erased_network = refl
