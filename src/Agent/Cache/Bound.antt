-- ===== src/Agent/Cache/Bound.antt =====
-- The cache never holds more keys than it may, and an eviction takes the entry that ends first.
use fast_spider.Prelude.{
  ℕ, ◌+◌, ◌≤◌, ◌<◌, ◌≡◌, refl, ap, ◌∙◌, ◌⊎◌, inl, inr, true, false, ◌||◌, List, [], ◌∷◌, Option,
  none, some, String, Map, arith, if◌then◌else◌, ltb, leb, str_eq, eq_iff, eq_refl, length, lookup,
  delete, is_some, UniqueKeys, insert-UniqueKeys, delete-UniqueKeys, length-insert,
  length-delete-le, length-delete-lt, Bool-cases, if-cases, All, not, ◌&&◌, lookup-insert,
  lookup-delete, max, ◌==◌,
}
use fast_spider.Agent.Cache.Defs.{
  CacheEntry, TtlCache, new_ttl_cache, get, get_found, put, make_room, find_oldest, clear, cloned,
}

pub data Call (T : Type 0) : Type 0 where
  gets : String → ℕ → Call T
  puts : String → T → ℕ → Call T
  clears : Call T

lookup-head : {V : Type 0} (k : String) (v : V) (m : Map V) → lookup k ((k, v) ∷ m) ≡ some v
unfolding lookup
lookup-head k v m = rw (eq_refl k)

lookup_more :
    {V : Type 0} (k r : String) (v : V) (m : Map V)
    → is_some (lookup r m) ≡ true
    → is_some (lookup r ((k, v) ∷ m)) ≡ true
unfolding lookup
lookup_more k r v m h = ground arith

module _ {T : Type 0} where
  unfoldable pub apply : TtlCache T → Call T → TtlCache T
  apply c (gets key now) = (get c key now).0
  apply c (puts key value now) = put c key value now
  apply c clears = clear c

  unfoldable pub replay : TtlCache T → List (Call T) → TtlCache T
  replay c [] = c
  replay c (call ∷ calls) = replay (apply c call) calls

  pub record IsBounded (c : TtlCache T) : Type 0 where
    pub unique : UniqueKeys c.entries
    pub room : 0 < c.max_keys
    pub bounded : length c.entries ≤ c.max_keys

  -- No entry has the empty key, which the loop takes for "no key yet".
  abbrev pub NoEmptyKey : Map (CacheEntry T) → Type 0
  NoEmptyKey = All (λ p. str_eq p.0 "" ≡ false)

  abbrev pub AllFrom : ℕ → Map (CacheEntry T) → Type 0
  AllFrom t = All (λ p. t ≤ p.1.expires)

  AllFrom-mono : (s t : ℕ) (m : Map (CacheEntry T)) → s ≤ t → AllFrom t m → AllFrom s m
  AllFrom-mono s t [] h a = tt
  AllFrom-mono s t (p ∷ m) h a = (omega (arith, a.0), AllFrom-mono s t m h a.1)

  lookup_later :
      (key r : String) (entry : CacheEntry T) {e : CacheEntry T} (m : Map (CacheEntry T))
      → lookup key m ≡ none
      → lookup r m ≡ some e
      → lookup r ((key, entry) ∷ m) ≡ some e
  unfolding lookup
  lookup_later key r entry m absent found = ground (arith, eq_iff key r)

  find_oldest_min :
      (known : String) (oldest : ℕ) (m : Map (CacheEntry T))
      → str_eq known "" ≡ false
      → NoEmptyKey m
      → UniqueKeys m
      → let r = find_oldest known oldest m in
        ((r ≡ known) × AllFrom oldest m)
        ⊎ ((e : CacheEntry T) × (lookup r m ≡ some e) × (e.expires ≤ oldest) × AllFrom e.expires m)
  unfolding find_oldest
  find_oldest_min known oldest [] k n u = inl (refl, tt)
  find_oldest_min known oldest ((key, entry) ∷ m) k n u =
      elim (Bool-cases (ltb entry.expires oldest)) [
        | inl t ↦
            let lt : entry.expires < oldest = ground arith in
            rw (k, t)
              (elim (find_oldest_min key entry.expires m n.0 n.1 u.1) [
                | inl (same, all) ↦
                    inr (entry, rw same (lookup-head key entry m), omega arith, (omega arith, all))
                | inr (e, found, le, all) ↦
                    inr (e, lookup_later key _ entry m u.0 found, omega arith, (le, all))
              ])
        | inr t ↦
            let le : oldest ≤ entry.expires = ground arith in
            rw (k, t)
              (elim (find_oldest_min known oldest m k n.1 u.1) [
                | inl (same, all) ↦ inl (same, (le, all))
                | inr (e, found, small, all) ↦
                    inr (e, lookup_later key _ entry m u.0 found, small, (omega arith, all))
              ])
      ]

  -- From "no key yet" the loop finds an entry of the map that ends first.
  find_oldest_first :
      (m : Map (CacheEntry T))
      → 0 < length m
      → NoEmptyKey m
      → UniqueKeys m
      → (e : CacheEntry T) × (lookup (find_oldest "" 0 m) m ≡ some e) × AllFrom e.expires m
  unfolding find_oldest
  find_oldest_first [] h n u = absurd (omega arith)
  find_oldest_first ((key, entry) ∷ m) h n u =
      elim (find_oldest_min key entry.expires m n.0 n.1 u.1) [
        | inl (same, all) ↦ (entry, rw same (lookup-head key entry m), (omega arith, all))
        | inr (e, found, le, all) ↦ (e, lookup_later key _ entry m u.0 found, (le, all))
      ]

  -- The loop's answer is a key of the map, whatever its keys are.
  find_oldest_known :
      (known : String) (oldest : ℕ) (m : Map (CacheEntry T))
      → (find_oldest known oldest m ≡ known)
        ⊎ (is_some (lookup (find_oldest known oldest m) m) ≡ true)
  unfolding find_oldest
  find_oldest_known known oldest [] = inl refl
  find_oldest_known known oldest ((key, entry) ∷ m) =
      elim (Bool-cases (str_eq known "" || ltb entry.expires oldest)) [
        | inl t ↦ rw t (elim (find_oldest_known key entry.expires m) [
          | inl same ↦ inr (rw same (ap is_some (lookup-head key entry m)))
          | inr found ↦ inr (lookup_more key _ entry m found)
        ])
        | inr t ↦ rw t (elim (find_oldest_known known oldest m) [
          | inl same ↦ inl same
          | inr found ↦ inr (lookup_more key _ entry m found)
        ])
      ]

  find_oldest_exists :
      (m : Map (CacheEntry T)) → 0 < length m → is_some (lookup (find_oldest "" 0 m) m) ≡ true
  unfolding find_oldest
  find_oldest_exists [] h = absurd (omega arith)
  find_oldest_exists ((key, entry) ∷ m) h = elim (find_oldest_known key entry.expires m) [
    | inl same ↦ rw same (ap is_some (lookup-head key entry m))
    | inr found ↦ lookup_more key _ entry m found
  ]

  make_room-length :
      (c : TtlCache T) (key : String)
      → IsBounded c
      → (length (make_room c key) < c.max_keys)
        ⊎ ((is_some (lookup key (make_room c key)) ≡ true)
            × (length (make_room c key) ≤ c.max_keys))
  unfolding make_room
  make_room-length c key b = ground (
    arith,
    b.bounded,
    b.room,
    find_oldest_exists c.entries,
    length-delete-lt (find_oldest "" 0 c.entries) c.entries,
  )

  make_room-UniqueKeys :
      (c : TtlCache T) (key : String) → IsBounded c → UniqueKeys (make_room c key)
  unfolding make_room
  make_room-UniqueKeys c key b =
      if-cases UniqueKeys
        (not (is_some (lookup key c.entries)) && leb c.max_keys (length c.entries))
        (λ t. delete-UniqueKeys _ c.entries b.unique) (λ t. b.unique)

  deleted-IsBounded :
      (c : TtlCache T) (key : String)
      → IsBounded c
      → IsBounded (record c { entries = delete key c.entries })
  deleted-IsBounded c key b = record {
    unique = delete-UniqueKeys key c.entries b.unique;
    room = b.room;
    bounded = omega (arith, b.bounded, length-delete-le key c.entries);
  }

  put-IsBounded :
      (c : TtlCache T) (key : String) (value : T) (now : ℕ)
      → IsBounded c
      → IsBounded (put c key value now)
  unfolding put
  put-IsBounded c key value now b = record {
    unique = insert-UniqueKeys key _ (make_room c key) (make_room-UniqueKeys c key b);
    room = b.room;
    bounded = ground (
      arith,
      make_room-length c key b,
      length-insert key (record { value = cloned c.clone value; expires = now + c.ttl })
          (make_room c key),
    );
  }

  get-IsBounded :
      (c : TtlCache T) (key : String) (now : ℕ) → IsBounded c → IsBounded (get c key now).0
  unfolding get
  get-IsBounded c key now b = go (lookup key c.entries)
    where
      go : (o : Option (CacheEntry T)) → IsBounded (get_found c key now o).0
      go none = deleted-IsBounded c key b
      go (some entry) =
          if-cases (λ (r : TtlCache T × Option T). IsBounded r.0) (ltb now entry.expires) (λ t. b)
            (λ t. deleted-IsBounded c key b)

  apply-IsBounded : (c : TtlCache T) (call : Call T) → IsBounded c → IsBounded (apply c call)
  unfolding apply clear
  apply-IsBounded c (gets key now) b = get-IsBounded c key now b
  apply-IsBounded c (puts key value now) b = put-IsBounded c key value now b
  apply-IsBounded c clears b = record { unique = tt; room = b.room; bounded = omega arith }

  replay-IsBounded :
      (c : TtlCache T) (calls : List (Call T)) → IsBounded c → IsBounded (replay c calls)
  unfolding replay
  replay-IsBounded c [] b = b
  replay-IsBounded c (call ∷ calls) b =
      replay-IsBounded (apply c call) calls (apply-IsBounded c call b)

  get-max_keys : (c : TtlCache T) (key : String) (now : ℕ) → (get c key now).0.max_keys ≡ c.max_keys
  unfolding get
  get-max_keys c key now = go (lookup key c.entries)
    where
      go : (o : Option (CacheEntry T)) → (get_found c key now o).0.max_keys ≡ c.max_keys
      go none = refl
      go (some entry) =
          if-cases (λ (r : TtlCache T × Option T). r.0.max_keys ≡ c.max_keys)
            (ltb now entry.expires) (λ t. refl) (λ t. refl)

  apply-max_keys : (c : TtlCache T) (call : Call T) → (apply c call).max_keys ≡ c.max_keys
  unfolding apply put clear
  apply-max_keys c (gets key now) = get-max_keys c key now
  apply-max_keys c (puts key value now) = refl
  apply-max_keys c clears = refl

  replay-max_keys :
      (c : TtlCache T) (calls : List (Call T)) → (replay c calls).max_keys ≡ c.max_keys
  unfolding replay
  replay-max_keys c [] = refl
  replay-max_keys c (call ∷ calls) = replay-max_keys (apply c call) calls ∙ apply-max_keys c call

  -- After any calls on a new cache, no key is held twice and the number of keys is at most the limit
  -- that the cache was made with, or one where that limit is zero.
  pub cache_bounded :
      (ttl max_keys : ℕ) (clone : Option (T → T)) (calls : List (Call T))
      → let c = replay (new_ttl_cache ttl max_keys clone) calls in
        UniqueKeys c.entries × (length c.entries ≤ max 1 max_keys)
  unfolding new_ttl_cache
  cache_bounded ttl max_keys clone calls =
      let b =
        replay-IsBounded (new_ttl_cache ttl max_keys clone) calls
          (record { unique = tt; room = ground arith; bounded = omega arith }) in
      let kept = replay-max_keys (new_ttl_cache ttl max_keys clone) calls in
      let limit : (if max_keys == 0 then 1 else max_keys) ≡ max 1 max_keys = ground arith in
      (b.unique, omega (arith, b.bounded, kept, limit))

  -- Where a cache's keys are distinct, none of them empty, and as many as its limit, which is at least
  -- one, storing a new key deletes exactly one other entry, one of those that end first, and keeps the
  -- rest.
  pub eviction_takes_first :
      (c : TtlCache T) (key : String) (value : T) (now : ℕ)
      → IsBounded c
      → NoEmptyKey c.entries
      → lookup key c.entries ≡ none
      → length c.entries ≡ c.max_keys
      → (victim : String) × (e : CacheEntry T) × (lookup victim c.entries ≡ some e)
        × AllFrom e.expires c.entries
        × ((j : String)
            → lookup j (put c key value now).entries ≡ (
                if str_eq key j
                then some (record { value = cloned c.clone value; expires = now + c.ttl })
                else if str_eq victim j
                then none
                else lookup j c.entries))
  unfolding put make_room
  eviction_takes_first c key value now b n absent full =
      let (e, found, first) = find_oldest_first c.entries (omega (arith, b.room)) n b.unique in
      let victim = find_oldest "" 0 c.entries in
      let is_full : leb c.max_keys (length c.entries) ≡ true = ground arith in
      (
        victim,
        e,
        found,
        first,
        λ j.
            rw (absent, is_full)
              (lookup-insert key j _ (delete victim c.entries)
                ∙ ap
                    (λ x.
                      if str_eq key j
                      then some (record { value = cloned c.clone value; expires = now + c.ttl })
                      else x)
                    (lookup-delete victim j c.entries)),
      )
