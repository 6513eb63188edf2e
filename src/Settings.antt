-- ===== src/Settings.antt =====
-- The settings that outlive a power cycle: main/wifi_creds.c, main/api_key.c and main/agent_name.c,
-- over the non-volatile storage of ESP-IDF (Settings/Nvs). A build's menuconfig values are
-- arguments.
pub mod Nvs
pub mod Names
pub mod RoundTrip
mod Tests
use esp32_deepgram_voice_age.Common.{
  ℕ, ◌-◌, Bool, true, false, not, ◌&&◌, ◌||◌, Option, none, some, List, [], ◌∷◌, ltb, leb, ◌==◌,
  if◌then◌else◌, length, take,
}
use Nvs.{
  Err, ok, not_found, invalid_arg, invalid_size, wifi_ssid, wifi_pass, api_key, agent_name, Storage,
}

abbrev pub ssid_len : ℕ
ssid_len = 33

abbrev pub pass_len : ℕ
pass_len = 65

abbrev pub key_len : ℕ
key_len = 129

abbrev pub name_max : ℕ
name_max = 32

abbrev pub is_ok : Err → Bool
is_ok ok = true
is_ok _ = false

abbrev pub is_not_found : Err → Bool
is_not_found not_found = true
is_not_found _ = false

-- `agent_name_default`: the name of the build, or "Grammer" when that is empty.
abbrev pub agent_name_default : List ℕ → List ℕ
agent_name_default [] = 71 ∷ 114 ∷ 97 ∷ 109 ∷ 109 ∷ 101 ∷ 114 ∷ []
agent_name_default (c ∷ s) = c ∷ s

-- `strlcpy` into a buffer of `len` bytes.
abbrev pub strlcpy : ℕ → List ℕ → List ℕ
strlcpy len s = take (len - 1) s

-- `isspace` and `iscntrl` of the C locale.
abbrev pub is_space : ℕ → Bool
is_space c = c == 0x20 || (leb 9 c && leb c 13)

abbrev pub is_cntrl : ℕ → Bool
is_cntrl c = ltb c 0x20 || c == 0x7F

pub skip_space : List ℕ → List ℕ
skip_space [] = []
skip_space (c ∷ s) = let rest = skip_space s in if is_space c then rest else c ∷ s

-- A character in front of a stripped text.
abbrev pub before : ℕ → List ℕ → List ℕ
before c [] = if is_space c then [] else c ∷ []
before c (d ∷ s) = c ∷ d ∷ s

pub strip_space : List ℕ → List ℕ
strip_space [] = []
strip_space (c ∷ s) = before c (strip_space s)

pub any_cntrl : List ℕ → Bool
any_cntrl [] = false
any_cntrl (c ∷ s) = is_cntrl c || any_cntrl s

-- `sanitise` of main/agent_name.c; `none` for a name that is refused.
unfoldable pub sanitise : ℕ → List ℕ → Option (List ℕ)
sanitise out_len name =
    let s = strip_space (skip_space name) in
    if length s == 0 || leb out_len (length s) then none else if any_cntrl s then none else some s

-- `load_seed` of main/wifi_creds.c.
pub wifi_seed : List ℕ → List ℕ → Option (List ℕ × List ℕ)
wifi_seed ssid pass =
    if length ssid == 0 then none else some (strlcpy ssid_len ssid, strlcpy pass_len pass)

module _ (N : Storage) where
  open N use {Store, open_read, open_write, get_str, set_str, erase_key, commit, get_len}

  -- `wifi_creds_load`, with the seed's network and password: `none` for false.
  unfoldable pub wifi_creds_load : List ℕ → List ℕ → Store → Option (List ℕ × List ℕ)
  unfolding wifi_seed
  wifi_creds_load seed_ssid seed_pass s =
      let (got, ssid) = get_str s wifi_ssid ssid_len in
      let (got_pass, pass) = get_str s wifi_pass pass_len in
      if not (is_ok (open_read s wifi_ssid))
      then wifi_seed seed_ssid seed_pass
      else if not (is_ok got)
      then wifi_seed seed_ssid seed_pass
      else if length ssid == 0
      then wifi_seed seed_ssid seed_pass
      else some (ssid, if is_ok got_pass then pass else [])

  -- `wifi_creds_save`. An open network has the empty password.
  unfoldable pub wifi_creds_save : List ℕ → List ℕ → Store → Err × Store
  wifi_creds_save ssid pass s =
      let (e1, s1) = set_str s wifi_ssid ssid in
      let (e2, s2) = set_str s1 wifi_pass pass in
      let (e3, s3) = commit s2 wifi_ssid in
      if length ssid == 0
      then (invalid_arg, s)
      else if not (is_ok (open_write s wifi_ssid))
      then (open_write s wifi_ssid, s)
      else if not (is_ok e1)
      then (e1, s1)
      else if not (is_ok e2)
      then (e2, s2)
      else (e3, s3)

  -- `wifi_creds_erase`. Nothing saved is the same outcome as erasing it.
  unfoldable pub wifi_creds_erase : Store → Err × Store
  wifi_creds_erase s =
      let (e1, s1) = erase_key s wifi_ssid in
      let (e2, s2) = erase_key s1 wifi_pass in
      let (e3, s3) = commit s2 wifi_ssid in
      if is_not_found (open_write s wifi_ssid)
      then (ok, s)
      else if not (is_ok (open_write s wifi_ssid))
      then (open_write s wifi_ssid, s)
      else if not (is_ok e1 || is_not_found e1)
      then (e1, s1)
      else if not (is_ok e2 || is_not_found e2)
      then (e2, s2)
      else (e3, s3)

  -- `api_key_load`, with the menuconfig seed.
  unfoldable pub api_key_load : List ℕ → Store → Option (List ℕ)
  api_key_load seed s =
      let from_seed = if length seed == 0 then none else some (strlcpy key_len seed) in
      let (got, key) = get_str s api_key key_len in
      if not (is_ok (open_read s api_key))
      then from_seed
      else if not (is_ok got)
      then from_seed
      else if length key == 0
      then from_seed
      else some key

  -- `api_key_save`.
  unfoldable pub api_key_save : List ℕ → Store → Err × Store
  api_key_save key s =
      let (e1, s1) = set_str s api_key key in
      let (e2, s2) = commit s1 api_key in
      if length key == 0
      then (invalid_arg, s)
      else if leb key_len (length key)
      then (invalid_size, s)
      else if not (is_ok (open_write s api_key))
      then (open_write s api_key, s)
      else if not (is_ok e1)
      then (e1, s1)
      else (e2, s2)

  -- `api_key_is_stored`: the size that the storage tells counts the NUL.
  unfoldable pub api_key_is_stored : Store → Bool
  api_key_is_stored s =
      let (got, len) = get_len s api_key in is_ok (open_read s api_key) && (is_ok got && ltb 1 len)

  -- `agent_name_init`: the current name, from the default name of the build.
  unfoldable pub agent_name_init : List ℕ → Store → List ℕ
  agent_name_init default s =
      let (got, saved) = get_str s agent_name name_max in
      if not (is_ok (open_read s agent_name))
      then strlcpy name_max (agent_name_default default)
      else if not (is_ok got)
      then strlcpy name_max (agent_name_default default)
      else elim (sanitise name_max saved) [
        | none ↦ strlcpy name_max (agent_name_default default)
        | some clean ↦ strlcpy name_max clean
      ]

  -- `agent_name_set`: the answer, the current name and the storage. A save that fails is only
  -- logged.
  unfoldable pub agent_name_set : List ℕ → List ℕ → Store → Err × List ℕ × Store
  agent_name_set name current s = elim (sanitise name_max name) [
    | none ↦ (invalid_arg, current, s)
    | some clean ↦
        let (e1, s1) = set_str s agent_name clean in
        let (e2, s2) = commit s1 agent_name in
        let s' =
          if not (is_ok (open_write s agent_name)) then s else if not (is_ok e1) then s1 else s2 in
        (ok, strlcpy name_max clean, s')
  ]

  -- `agent_name_reset`: the answer, the current name and the storage.
  unfoldable pub agent_name_reset : List ℕ → Store → Err × List ℕ × Store
  agent_name_reset default s =
      let current = strlcpy name_max (agent_name_default default) in
      let (e1, s1) = erase_key s agent_name in
      let (e2, s2) = commit s1 agent_name in
      if not (is_ok (open_write s agent_name))
      then (open_write s agent_name, current, s)
      else if not (is_ok e1 || is_not_found e1)
      then (e1, current, s1)
      else (e2, current, s2)
