-- ===== src/Settings/Nvs.antt =====
-- What the settings rely on of ESP-IDF's non-volatile storage.
use esp32_deepgram_voice_age.Common.{ℕ, suc, ◌<◌, ◌≡◌, ◌⊎◌, Bool, true, false, List, [], length}

pub data Err : Type 0 where
  ok not_found invalid_arg invalid_size : Err
  failed : ℕ → Err

-- The strings that these settings keep, each with its namespace.
pub data Key : Type 0 where
  wifi_ssid wifi_pass api_key agent_name : Key

abbrev pub same_key : Key → Key → Bool
same_key wifi_ssid wifi_ssid = true
same_key wifi_pass wifi_pass = true
same_key api_key api_key = true
same_key agent_name agent_name = true
same_key _ _ = false

-- The storage and its calls, as ESP-IDF documents them: a namespace that was written can be opened;
-- what nvs_set_str stored is what nvs_get_str returns into a buffer that holds it with its NUL; a
-- key is not changed by a write to another one, nor by a commit; an erased key is not found; the
-- length query counts the NUL; a namespace that cannot be opened for writing because it is missing
-- cannot be opened for reading.
pub record Storage : Type 1 where
  pub Store : Type 0
  pub open_read : Store → Key → Err
  pub open_write : Store → Key → Err
  pub get_str : Store → Key → ℕ → Err × List ℕ
  pub set_str : Store → Key → List ℕ → Err × Store
  pub erase_key : Store → Key → Err × Store
  pub commit : Store → Key → Err × Store
  pub get_len : Store → Key → Err × ℕ
  pub open_read-set_str :
      (s : Store) (k : Key) (v : List ℕ)
      → (set_str s k v).0 ≡ ok
      → open_read (set_str s k v).1 k ≡ ok
  pub open_read-other :
      (s : Store) (k j : Key) (v : List ℕ) → open_read s j ≡ ok → open_read (set_str s k v).1 j ≡ ok
  pub open_read-commit : (s : Store) (k j : Key) → open_read (commit s k).1 j ≡ open_read s j
  pub get_str-set_str :
      (s : Store) (k : Key) (v : List ℕ) (cap : ℕ)
      → (set_str s k v).0 ≡ ok
      → length v < cap
      → get_str (set_str s k v).1 k cap ≡ (ok, v)
  pub get_str-other :
      (s : Store) (k j : Key) (v : List ℕ) (cap : ℕ)
      → same_key k j ≡ false
      → get_str (set_str s k v).1 j cap ≡ get_str s j cap
  pub get_str-commit :
      (s : Store) (k j : Key) (cap : ℕ) → get_str (commit s k).1 j cap ≡ get_str s j cap
  pub get_len-get_str :
      (s : Store) (k : Key) (v : List ℕ) (cap : ℕ)
      → get_str s k cap ≡ (ok, v)
      → get_len s k ≡ (ok, suc (length v))
  pub open_write-not_found :
      (s : Store) (k : Key) → open_write s k ≡ not_found → open_read s k ≡ not_found
  pub get_str-erase_key :
      (s : Store) (k : Key) (cap : ℕ)
      → (erase_key s k).0 ≡ ok ⊎ (erase_key s k).0 ≡ not_found
      → get_str (erase_key s k).1 k cap ≡ (not_found, [])
  pub get_str-erase_other :
      (s : Store) (k j : Key) (cap : ℕ)
      → same_key k j ≡ false
      → get_str (erase_key s k).1 j cap ≡ get_str s j cap
