-- ===== src/Agent/Cache/Reads.antt =====
-- What a read finds after a write.
use fast_spider.Prelude.{
  ℕ, ◌+◌, ◌≡◌, refl, none, some, String, if◌then◌else◌, ltb, lookup, delete, insert,
  lookup-insert_self, lookup-delete, eq_refl, Bool-cases, inl, inr,
}
use fast_spider.Agent.Cache.Defs.{CacheEntry, TtlCache, get, put, make_room, cloned}

module _ {T : Type 0} where
  -- A read of a key that was just stored gives the value, copied on the way in and on the way out,
  -- until the time to live has passed; from then on it gives nothing, and the key is deleted.
  pub get-put :
      (c : TtlCache T) (key : String) (value : T) (now later : ℕ)
      → let r = get (put c key value now) key later in
        let live = ltb later (now + c.ttl) in
        (r.1 ≡ (if live then some (cloned c.clone (cloned c.clone value)) else none))
        × (lookup key r.0.entries ≡ (
            if live
            then some (record { value = cloned c.clone value; expires = now + c.ttl })
            else none))
  unfolding get put
  get-put c key value now later =
      let entry : CacheEntry T = record { value = cloned c.clone value; expires = now + c.ttl } in
      let found = lookup-insert_self key entry (make_room c key) in
      let gone : lookup key (delete key (insert key entry (make_room c key))) ≡ none =
        rw (lookup-delete key key (insert key entry (make_room c key)), eq_refl key) refl in
      rw found (elim (Bool-cases (ltb later (now + c.ttl))) [
        | inl t ↦ rw t (refl, found)
        | inr t ↦ rw t (refl, gone)
      ])
