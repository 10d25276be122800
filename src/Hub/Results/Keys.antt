-- ===== src/Hub/Results/Keys.antt =====
-- One key of CreateResult stands for one result (internal/hub/core/result_pool.go).
use fast_spider.Prelude.{
  ℕ, ◌≡◌, refl, ap, sym, ◌∙◌, ◌⊎◌, inl, inr, true, false, not, ◌&&◌, ◌||◌, [], ◌∷◌, Option, none,
  some, String, Map, arith, if◌then◌else◌, Bool-cases, is_some, str_eq, eq_iff, eq_refl, lookup,
  insert, lookup-insert_self,
}
use fast_spider.Hub.Results.Rows.{
  Answer, ok, fail, not_found, unauthorized, expired, conflict, resource_limit, database,
  StoreError, ResultRecord, MachineRow, Db,
}
use fast_spider.Hub.Results.Store.{
  of_owner, get_result, find_key, found, lookup_result, blank_result, create_for, create_row,
}
use fast_spider.Hub.Results.Service.{
  Session, ResultSummary, summary, resolve, resolve_again, created, create_after, new_result,
  wrong_length, create_result,
}

-- A new row under a free identifier is the one that its key finds.
find_key-insert :
    (owner key id : String) (r : ResultRecord) (m : Map ResultRecord)
    → lookup id m ≡ none
    → find_key owner key m ≡ none
    → str_eq r.owner_id owner && str_eq r.idempotency_key key ≡ true
    → find_key owner key (insert id r m) ≡ some r
unfolding find_key insert lookup
find_key-insert owner key id r [] free none_there h = ground arith
find_key-insert owner key id r ((k, q) ∷ m) free none_there h =
    ground (arith, find_key-insert owner key id r m)

-- The key of a session is taken by a result with this summary.
record IsTaken (db : Db) (session : Session) (key hash : String) (s : ResultSummary) : Type 0 where
  pub row : ResultRecord
  pub by_key : find_key session.owner_id key db.results ≡ some row
  pub same_hash : row.request_hash ≡ hash
  pub same_machine : row.machine_id ≡ session.machine_id
  pub summed : summary row ≡ s

Answer-cases :
    {A : Type 0} (a : Answer A) → ((x : A) × (a ≡ ok x)) ⊎ ((e : StoreError) × (a ≡ fail e))
Answer-cases (ok x) = inl (x, refl)
Answer-cases (fail e) = inr (e, refl)

resolve-cases :
    (session : Session) (hash : String) (r : ResultRecord) (s : ResultSummary)
    → resolve session hash r ≡ ok s
    → (r.request_hash ≡ hash) × (r.machine_id ≡ session.machine_id) × (summary r ≡ s)
unfolding resolve
resolve-cases session hash r s e = (
  ground (arith, eq_iff r.request_hash hash),
  ground (arith, eq_iff r.machine_id session.machine_id),
  ground arith,
)

found-cases : (o : Option ResultRecord) (r : ResultRecord) → found o ≡ ok r → o ≡ some r
unfolding found
found-cases none r e = absurd (ground arith)
found-cases (some q) r e = ground arith

lookup_result-IsTaken :
    (db : Db) (session : Session) (key hash : String) (r : ResultRecord) (s : ResultSummary)
    → lookup_result db session.owner_id key ≡ ok r
    → resolve session hash r ≡ ok s
    → IsTaken db session key hash s
unfolding lookup_result
lookup_result-IsTaken db session key hash r s at e =
    let (h, m, t) = resolve-cases session hash r s e in
    record {
      row = r;
      by_key = found-cases (find_key session.owner_id key db.results) r at;
      same_hash = h;
      same_machine = m;
      summed = t;
    }

blank_matches :
    (r : ResultRecord)
    → str_eq (blank_result r).owner_id r.owner_id
        && str_eq (blank_result r).idempotency_key r.idempotency_key
      ≡ true
unfolding blank_result
blank_matches r = rw (eq_refl r.owner_id, eq_refl r.idempotency_key) refl

inserted_answer :
    (db : Db) (r : ResultRecord)
    → get_result
        (record db { results = insert r.result_id (blank_result r) db.results })
        r.owner_id
        r.result_id
      ≡ ok (blank_result r)
unfolding get_result of_owner blank_result
inserted_answer db r =
    rw (lookup-insert_self r.result_id (blank_result r) db.results, eq_refl r.owner_id) refl

-- What a successful INSERT leaves and answers.
create_for-ok :
    (db : Db) (r : ResultRecord) (o : Option MachineRow) (q : ResultRecord)
    → (create_for db r o).1 ≡ ok q
    → (find_key r.owner_id r.idempotency_key (create_for db r o).0.results ≡ some (blank_result r))
      × (q ≡ blank_result r)
unfolding create_for
create_for-ok db r none q e = absurd (ground arith)
create_for-ok db r (some machine) q e =
    elim (Bool-cases
      (not (str_eq machine.owner_id r.owner_id) || not (str_eq machine.status "active"))) [
        | inl a ↦ absurd (ground arith)
        | inr a ↦
            elim (Bool-cases (
              is_some (lookup r.result_id db.results)
              || is_some (find_key r.owner_id r.idempotency_key db.results))) [
                | inl b ↦ absurd (ground arith)
                | inr b ↦
                    rw (a, b)
                      (
                        find_key-insert r.owner_id r.idempotency_key r.result_id (blank_result r)
                            db.results (ground arith) (ground arith) (blank_matches r),
                        ground (arith, inserted_answer db r),
                      )
              ]
      ]

-- What a successful INSERT leaves and answers.
create_row-ok :
    (db : Db) (r q : ResultRecord)
    → (create_row db r).1 ≡ ok q
    → (find_key r.owner_id r.idempotency_key (create_row db r).0.results ≡ some (blank_result r))
      × (q ≡ blank_result r)
unfolding create_row
create_row-ok db r q e = create_for-ok db r (lookup r.machine_id db.machines) q e

ok-injective : {A : Type 0} {a b : A} → ok a ≡ ok b → a ≡ b
ok-injective e = ground arith

-- What a call of CreateResult that answers a result leaves.
created-IsTaken :
    (session : Session) (key hash : String) (x : Db × Answer ResultRecord) (r : ResultRecord)
    (s : ResultSummary)
    → ((q : ResultRecord)
        → x.1 ≡ ok q
        → (find_key session.owner_id key x.0.results ≡ some r) × (q ≡ r))
    → r.request_hash ≡ hash
    → r.machine_id ≡ session.machine_id
    → (created session key hash x).1 ≡ ok s
    → IsTaken (created session key hash x).0 session key hash s
unfolding created resolve_again
created-IsTaken session key hash (db, ok q) r s stored h m e =
    let (by_key, same) = stored q refl in
    record {
      row = r;
      by_key = by_key;
      same_hash = h;
      same_machine = m;
      summed = ap summary (sym same) ∙ ok-injective e;
    }
created-IsTaken session key hash (db, fail error) r s stored h m e =
    elim (Answer-cases (lookup_result db session.owner_id key)) [
      | inl (q, f) ↦ lookup_result-IsTaken db session key hash q s f (ground (arith, f))
      | inr (error', f) ↦ absurd (ground (arith, f))
    ]

create_after-IsTaken :
    (meanwhile : Db → Db) (db : Db) (session : Session) (key hash id : String) (now : ℕ)
    (a : Answer ResultRecord) (s : ResultSummary)
    → lookup_result db session.owner_id key ≡ a
    → (create_after meanwhile db session key hash id now a).1 ≡ ok s
    → IsTaken (create_after meanwhile db session key hash id now a).0 session key hash s
unfolding create_after new_result blank_result
create_after-IsTaken meanwhile db session key hash id now (ok r) s at e =
    lookup_result-IsTaken db session key hash r s at e
create_after-IsTaken meanwhile db session key hash id now (fail expired) s at e =
    absurd (ground arith)
create_after-IsTaken meanwhile db session key hash id now (fail unauthorized) s at e =
    absurd (ground arith)
create_after-IsTaken meanwhile db session key hash id now (fail conflict) s at e =
    absurd (ground arith)
create_after-IsTaken meanwhile db session key hash id now (fail resource_limit) s at e =
    absurd (ground arith)
create_after-IsTaken meanwhile db session key hash id now (fail database) s at e =
    absurd (ground arith)
create_after-IsTaken meanwhile db session key hash id now (fail not_found) s at e =
    created-IsTaken session key hash
      (create_row (meanwhile db) (new_result session key hash id now))
      (blank_result (new_result session key hash id now)) s
      (λ q f. create_row-ok (meanwhile db) (new_result session key hash id now) q f) refl refl e

created_again :
    (meanwhile : Db → Db) (db : Db) (session : Session) (key hash other id : String) (now : ℕ)
    (s : ResultSummary)
    → IsTaken db session key hash s
    → create_after meanwhile db session key other id now (lookup_result db session.owner_id key)
      ≡ (db, if str_eq hash other then ok s else fail conflict)
unfolding create_after lookup_result found resolve
created_again meanwhile db session key hash other id now s t =
    rw t.by_key (ground (arith, t.same_hash, t.same_machine, t.summed, eq_refl session.machine_id))

module _ (trim_space : String → String) (byte_length : String → ℕ) where
  create_result-started :
      (meanwhile : Db → Db) (db : Db) (session : Session) (key hash id : String) (now : ℕ)
      (s : ResultSummary)
      → (create_result trim_space byte_length meanwhile db session key hash id now).1 ≡ ok s
      → (wrong_length (byte_length (trim_space key)) (byte_length (trim_space hash)) ≡ false)
        × (create_result trim_space byte_length meanwhile db session key hash id now
            ≡ create_after meanwhile db session
                (trim_space key)
                (trim_space hash)
                id
                now
                (lookup_result db session.owner_id (trim_space key)))
  unfolding create_result
  create_result-started meanwhile db session key hash id now s e =
      elim (Bool-cases
        (wrong_length (byte_length (trim_space key)) (byte_length (trim_space hash)))) [
          | inl b ↦ absurd (ground arith)
          | inr b ↦ (b, rw b refl)
        ]

  create_result-again :
      (later : Db → Db) (db : Db) (session : Session) (key hash other id : String) (now : ℕ)
      (s : ResultSummary)
      → wrong_length (byte_length (trim_space key)) (byte_length (trim_space hash)) ≡ false
      → IsTaken db session (trim_space key) (trim_space hash) s
      → create_result trim_space byte_length later db session key other id now
        ≡ (db, if str_eq (trim_space hash) (trim_space other) then ok s else fail conflict)
  unfolding create_result
  create_result-again later db session key hash other id now s fits t =
      elim (Bool-cases
        (wrong_length (byte_length (trim_space key)) (byte_length (trim_space other)))) [
          | inl b ↦ elim (Bool-cases (str_eq (trim_space hash) (trim_space other))) [
            | inl same ↦
                let p : trim_space hash ≡ trim_space other =
                  ground (arith, eq_iff (trim_space hash) (trim_space other)) in
                let clash : true ≡ false =
                  sym b
                  ∙ ap (λ h. wrong_length (byte_length (trim_space key)) (byte_length h)) (sym p)
                  ∙ fits in
                absurd (ground arith)
            | inr differs ↦ rw (b, differs) refl
          ]
          | inr b ↦ rw b (
              created_again later db session (trim_space key) (trim_space hash) (trim_space other)
                id now s t)
        ]

  -- After a call of CreateResult answered a result, whatever other requests did during it, the next
  -- call of the same session with the same key (both trimmed) changes nothing: with the same hash it
  -- answers the same result, with another one a conflict.
  pub same_key_same_result :
      (meanwhile later : Db → Db) (db : Db) (session : Session) (key hash other id next_id : String)
      (now then_now : ℕ) (s : ResultSummary)
      → (create_result trim_space byte_length meanwhile db session key hash id now).1 ≡ ok s
      → let db' = (create_result trim_space byte_length meanwhile db session key hash id now).0 in
        create_result trim_space byte_length later db' session key other next_id then_now
        ≡ (db', if str_eq (trim_space hash) (trim_space other) then ok s else fail conflict)
  same_key_same_result meanwhile later db session key hash other id next_id now then_now s e =
      let (fits, started) = create_result-started meanwhile db session key hash id now s e in
      rw started (
        create_result-again later
          (create_after meanwhile db session (trim_space key) (trim_space hash) id now
            (lookup_result db session.owner_id (trim_space key))).0
          session key hash other next_id then_now s fits
          (create_after-IsTaken meanwhile db session (trim_space key) (trim_space hash) id now
            (lookup_result db session.owner_id (trim_space key)) s refl
            (ap (λ (x : Db × Answer ResultSummary). x.1) (sym started) ∙ e)))
