-- ===== src/Agent/Cache/Defs.antt =====
-- The cache and its operations, clause by clause.
use fast_spider.Prelude.{
  ℕ, ◌+◌, ◌&&◌, ◌||◌, not, [], ◌∷◌, Option, none, some, String, Map, if◌then◌else◌, ltb, leb, ◌==◌,
  str_eq, length, lookup, insert, delete, is_some,
}

pub record CacheEntry (T : Type 0) : Type 0 where
  pub value : T
  pub expires : ℕ

pub record TtlCache (T : Type 0) : Type 0 where
  pub entries : Map (CacheEntry T)
  pub ttl : ℕ
  pub max_keys : ℕ
  pub clone : Option (T → T)

module _ {T : Type 0} where
  unfoldable pub new_ttl_cache : ℕ → ℕ → Option (T → T) → TtlCache T
  new_ttl_cache ttl max_keys clone = record {
    entries = [];
    ttl = ttl;
    max_keys = if max_keys == 0 then 1 else max_keys;
    clone = clone;
  }

  unfoldable pub cloned : Option (T → T) → T → T
  cloned none value = value
  cloned (some clone) value = clone value

  -- An entry is live before its expiry; any other lookup deletes the key.
  unfoldable pub get_found : TtlCache T → String → ℕ → Option (CacheEntry T) → TtlCache T × Option T
  unfolding cloned
  get_found c key now none = (record c { entries = delete key c.entries }, none)
  get_found c key now (some entry) =
      if ltb now entry.expires
      then (c, some (cloned c.clone entry.value))
      else (record c { entries = delete key c.entries }, none)

  unfoldable pub get : TtlCache T → String → ℕ → TtlCache T × Option T
  unfolding get_found
  get c key now = get_found c key now (lookup key c.entries)

  -- The loop over the entries that keeps the key of the earliest expiry; "" is no key yet.
  unfoldable pub find_oldest : String → ℕ → Map (CacheEntry T) → String
  find_oldest oldest_key oldest [] = oldest_key
  find_oldest oldest_key oldest ((key, entry) ∷ m) =
      let earlier = str_eq oldest_key "" || ltb entry.expires oldest in
      find_oldest (if earlier then key else oldest_key) (if earlier then entry.expires else oldest)
        m

  unfoldable pub make_room : TtlCache T → String → Map (CacheEntry T)
  unfolding find_oldest
  make_room c key =
      if not (is_some (lookup key c.entries)) && leb c.max_keys (length c.entries)
      then delete (find_oldest "" 0 c.entries) c.entries
      else c.entries

  unfoldable pub put : TtlCache T → String → T → ℕ → TtlCache T
  unfolding make_room cloned
  put c key value now = record c {
    entries =
        insert key (record { value = cloned c.clone value; expires = now + c.ttl })
          (make_room c key);
  }

  unfoldable pub clear : TtlCache T → TtlCache T
  clear c = record c { entries = [] }
