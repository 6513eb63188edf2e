-- ===== src/Settings/RoundTrip.antt =====
-- What the settings load after they were saved, erased or reset.
use esp32_deepgram_voice_age.Common.{
  ℕ, ◌<◌, ◌≡◌, refl, sym, ap, ◌∙◌, subst, ◌⊎◌, inl, inr, Bool, true, false, not, ◌||◌, some, List,
  [], arith, leb, ◌==◌, if◌then◌else◌, Bool-cases, length,
}
use esp32_deepgram_voice_age.Settings.{
  ssid_len, pass_len, key_len, name_max, is_ok, is_not_found, sanitise, wifi_seed, wifi_creds_load,
  wifi_creds_save, wifi_creds_erase, api_key_load, api_key_save, api_key_is_stored, agent_name_init,
  agent_name_set,
}
use esp32_deepgram_voice_age.Settings.Nvs.{
  Err, ok, not_found, invalid_arg, invalid_size, failed, wifi_ssid, wifi_pass, api_key, agent_name,
  Storage,
}
use esp32_deepgram_voice_age.Settings.Names.{
  IsName-short, strlcpy_fits, sanitise-IsName, sanitise_again,
}

module _ {ℓ} {A : Type ℓ} where
  -- One step of a chain of calls: a bad answer is the answer of the chain, with the state there.
  step-ok :
      (e : Err) (s : A) (rest : Err × A)
      → (if not (is_ok e) then (e, s) else rest).0 ≡ ok
      → e ≡ ok × rest.0 ≡ ok × (if not (is_ok e) then (e, s) else rest).1 ≡ rest.1
  step-ok ok s rest h = (refl, h, refl)
  step-ok not_found s rest h = grind arith
  step-ok invalid_arg s rest h = grind arith
  step-ok invalid_size s rest h = grind arith
  step-ok (failed n) s rest h = grind arith

  -- The same for a call that may also answer that there is nothing.
  step-gone :
      (e : Err) (s : A) (rest : Err × A)
      → (if not (is_ok e || is_not_found e) then (e, s) else rest).0 ≡ ok
      → (e ≡ ok ⊎ e ≡ not_found)
        × rest.0 ≡ ok
        × (if not (is_ok e || is_not_found e) then (e, s) else rest).1 ≡ rest.1
  step-gone ok s rest h = (inl refl, h, refl)
  step-gone not_found s rest h = (inr refl, h, refl)
  step-gone invalid_arg s rest h = grind arith
  step-gone invalid_size s rest h = grind arith
  step-gone (failed n) s rest h = grind arith

  -- A guard in front of the chain.
  guard-ok :
      (c : Bool) (e : Err) (s : A) (rest : Err × A)
      → is_ok e ≡ false
      → (if c then (e, s) else rest).0 ≡ ok
      → c ≡ false × rest.0 ≡ ok × (if c then (e, s) else rest).1 ≡ rest.1
  guard-ok false e s rest n h = (refl, h, refl)
  guard-ok true e s rest n h = grind (arith, subst (λ x. is_ok x ≡ false) h n)

  guard-skip : (c : Bool) (a rest : Err × A) → c ≡ false → (if c then a else rest) ≡ rest
  guard-skip c a rest h = rw h

module _ (N : Storage) where
  open N use {Store, open_read, open_write, get_str, set_str, erase_key, commit, get_len}

  -- A save of a key that answers ok has passed every step.
  api_key_save-steps :
      (key : List ℕ) (s : Store)
      → (api_key_save N key s).0 ≡ ok
      → (¬ length key ≡ 0 × length key < key_len)
        × (set_str s api_key key).0 ≡ ok
        × (api_key_save N key s).1 ≡ (commit (set_str s api_key key).1 api_key).1
  unfolding api_key_save
  api_key_save-steps key s h =
      let (c0, h0, e0) = guard-ok (length key == 0) invalid_arg s _ refl h in
      let (c1, h1, e1) = guard-ok (leb key_len (length key)) invalid_size s _ refl h0 in
      let (c2, h2, e2) = step-ok (open_write s api_key) s _ h1 in
      let (c3, h3, e3) = step-ok (set_str s api_key key).0 (set_str s api_key key).1 _ h2 in
      (ground arith, c3, e0 ∙ e1 ∙ e2 ∙ e3)

  -- A key whose save answers ok, whole and of at most 128 characters, is the key that is loaded
  -- afterwards, whatever the seed; and it then counts as stored.
  pub api_key_load-save :
      (seed key : List ℕ) (s : Store)
      → (api_key_save N key s).0 ≡ ok
      → api_key_load N seed (api_key_save N key s).1 ≡ some key
        × api_key_is_stored N (api_key_save N key s).1 ≡ true
  unfolding api_key_load api_key_is_stored
  api_key_load-save seed key s h =
      let ((n, l), e, p) = api_key_save-steps key s h in
      let s1 = (set_str s api_key key).1 in
      let opened : open_read (commit s1 api_key).1 api_key ≡ ok =
        N.open_read-commit s1 api_key api_key ∙ N.open_read-set_str s api_key key e in
      let got : get_str (commit s1 api_key).1 api_key key_len ≡ (ok, key) =
        N.get_str-commit s1 api_key api_key key_len ∙ N.get_str-set_str s api_key key key_len e l in
      rw (p, opened, got, N.get_len-get_str _ api_key key key_len got) (ground arith)

  -- A save of a network that answers ok has passed every step.
  wifi_creds_save-steps :
      (ssid pass : List ℕ) (s : Store)
      → (wifi_creds_save N ssid pass s).0 ≡ ok
      → let s1 = (set_str s wifi_ssid ssid).1 in
        ¬ length ssid ≡ 0
        × (set_str s wifi_ssid ssid).0 ≡ ok
        × (set_str s1 wifi_pass pass).0 ≡ ok
        × (wifi_creds_save N ssid pass s).1 ≡ (commit (set_str s1 wifi_pass pass).1 wifi_ssid).1
  unfolding wifi_creds_save
  wifi_creds_save-steps ssid pass s h =
      let s1 = (set_str s wifi_ssid ssid).1 in
      let (c0, h0, e0) = guard-ok (length ssid == 0) invalid_arg s _ refl h in
      let (c1, h1, e1) = step-ok (open_write s wifi_ssid) s _ h0 in
      let (c2, h2, e2) = step-ok (set_str s wifi_ssid ssid).0 s1 _ h1 in
      let (c3, h3, e3) = step-ok (set_str s1 wifi_pass pass).0 (set_str s1 wifi_pass pass).1 _ h2 in
      (ground arith, c2, c3, e0 ∙ e1 ∙ e2 ∙ e3)

  -- A network and a password that fit their buffers and whose save answers ok are what is loaded
  -- afterwards, whatever the seeds.
  pub wifi_creds_load-save :
      (seed_ssid seed_pass ssid pass : List ℕ) (s : Store)
      → length ssid < ssid_len
      → length pass < pass_len
      → (wifi_creds_save N ssid pass s).0 ≡ ok
      → wifi_creds_load N seed_ssid seed_pass (wifi_creds_save N ssid pass s).1 ≡ some (ssid, pass)
  unfolding wifi_creds_load
  wifi_creds_load-save seed_ssid seed_pass ssid pass s ls lp h =
      let (n, c1, c2, p) = wifi_creds_save-steps ssid pass s h in
      let s1 = (set_str s wifi_ssid ssid).1 in
      let s2 = (set_str s1 wifi_pass pass).1 in
      let opened : open_read (commit s2 wifi_ssid).1 wifi_ssid ≡ ok =
        N.open_read-commit s2 wifi_ssid wifi_ssid
        ∙ N.open_read-other s1 wifi_pass wifi_ssid pass (N.open_read-set_str s wifi_ssid ssid c1) in
      let got : get_str (commit s2 wifi_ssid).1 wifi_ssid ssid_len ≡ (ok, ssid) =
        N.get_str-commit s2 wifi_ssid wifi_ssid ssid_len
        ∙ N.get_str-other s1 wifi_pass wifi_ssid pass ssid_len refl
        ∙ N.get_str-set_str s wifi_ssid ssid ssid_len c1 ls in
      let got_pass : get_str (commit s2 wifi_ssid).1 wifi_pass pass_len ≡ (ok, pass) =
        N.get_str-commit s2 wifi_ssid wifi_pass pass_len
        ∙ N.get_str-set_str s1 wifi_pass pass pass_len c2 lp in
      rw (p, opened, got, got_pass) (ground arith)

  is_not_found-not_found : (e : Err) → is_not_found e ≡ true → e ≡ not_found
  is_not_found-not_found not_found h = refl
  is_not_found-not_found ok h = grind arith
  is_not_found-not_found invalid_arg h = grind arith
  is_not_found-not_found invalid_size h = grind arith
  is_not_found-not_found (failed n) h = grind arith

  -- An erase that answers ok found no namespace, or no network is found afterwards.
  wifi_creds_erase-steps :
      (s : Store)
      → (wifi_creds_erase N s).0 ≡ ok
      → open_read (wifi_creds_erase N s).1 wifi_ssid ≡ not_found
        ⊎ get_str (wifi_creds_erase N s).1 wifi_ssid ssid_len ≡ (not_found, [])
  unfolding wifi_creds_erase
  wifi_creds_erase-steps s h = elim (Bool-cases (is_not_found (open_write s wifi_ssid))) [
    | inl m ↦ inl (
        rw m
          (N.open_write-not_found s wifi_ssid (is_not_found-not_found (open_write s wifi_ssid) m)))
    | inr m ↦
        let s1 = (erase_key s wifi_ssid).1 in
        let s2 = (erase_key s1 wifi_pass).1 in
        let e0 = guard-skip _ (ok, s) _ m in
        let (c1, h1, e1) = step-ok (open_write s wifi_ssid) s _ (sym (ap (λ r. r.0) e0) ∙ h) in
        let (c2, h2, e2) = step-gone (erase_key s wifi_ssid).0 s1 _ h1 in
        let (c3, h3, e3) = step-gone (erase_key s1 wifi_pass).0 s2 _ h2 in
        let gone : get_str (commit s2 wifi_ssid).1 wifi_ssid ssid_len ≡ (not_found, []) =
          N.get_str-commit s2 wifi_ssid wifi_ssid ssid_len
          ∙ N.get_str-erase_other s1 wifi_pass wifi_ssid ssid_len refl
          ∙ N.get_str-erase_key s wifi_ssid ssid_len c2 in
        inr (rw (ap (λ r. r.1) e0 ∙ e1 ∙ e2 ∙ e3, gone))
  ]

  -- When erasing the network answers ok, the next load gives the seed, as on a device that was
  -- never provisioned.
  pub wifi_creds_load-erase :
      (seed_ssid seed_pass : List ℕ) (s : Store)
      → (wifi_creds_erase N s).0 ≡ ok
      → wifi_creds_load N seed_ssid seed_pass (wifi_creds_erase N s).1
        ≡ wifi_seed seed_ssid seed_pass
  unfolding wifi_creds_load
  wifi_creds_load-erase seed_ssid seed_pass s h = elim (wifi_creds_erase-steps s h) [
    | inl e ↦ rw e
    | inr e ↦ rw e (ground arith)
  ]

  -- A name that is accepted and whose save meets no error is the name of this session and of the
  -- next boot: the given text without the white space around it.
  pub agent_name_init-set :
      (default name clean current : List ℕ) (s : Store)
      → sanitise name_max name ≡ some clean
      → open_write s agent_name ≡ ok
      → (set_str s agent_name clean).0 ≡ ok
      → let after = agent_name_set N name current s in
        after.0 ≡ ok × after.1 ≡ clean × agent_name_init N default after.2 ≡ clean
  unfolding agent_name_set agent_name_init
  agent_name_init-set default name clean current s a w e =
      let s1 = (set_str s agent_name clean).1 in
      let l = IsName-short name_max clean (sanitise-IsName name_max name clean a).0 in
      let opened : open_read (commit s1 agent_name).1 agent_name ≡ ok =
        N.open_read-commit s1 agent_name agent_name ∙ N.open_read-set_str s agent_name clean e in
      let got : get_str (commit s1 agent_name).1 agent_name name_max ≡ (ok, clean) =
        N.get_str-commit s1 agent_name agent_name name_max
        ∙ N.get_str-set_str s agent_name clean name_max e l in
      rw
        (
          agent_name_set,
          agent_name_init,
          a,
          w,
          e,
          opened,
          got,
          sanitise_again name_max name clean a,
        )
        (refl, strlcpy_fits name_max clean l, strlcpy_fits name_max clean l)
