-- ===== src/Hub/Results/Sealed.antt =====
-- A result that has ended (internal/hub/store/store.go) is not changed any more.
use fast_spider.Prelude.{◌≡◌, refl, ◌∙◌, false, List, [], ◌∷◌, some, String, lookup}
use fast_spider.Hub.Results.Rows.{ResultRecord, Db, is_open, aborted, failed}
use fast_spider.Hub.Results.Changes.{
  create_row-Changes, attach_row-Changes, commit_row-Changes, transition_row-Changes,
  cleanup_deletes_nothing,
}
use fast_spider.Hub.Results.Revisions.{
  Call, creates, attaches, commits, aborts, fails, cleans, apply, replay,
}
use fast_spider.Hub.Results.Tables.{IsTable, IsKept, pages_of, Change-IsTable, Change-IsKept}

apply-IsTable : (db : Db) (call : Call) → IsTable db → IsTable (apply db call)
unfolding apply is_open
apply-IsTable db (creates r) t = Change-IsTable db _ (create_row-Changes db r) t
apply-IsTable db (attaches owner id page_no artifact_id expected now) t =
    Change-IsTable db _ (attach_row-Changes db owner id page_no artifact_id expected now) t
apply-IsTable db (commits owner id manifest expected now) t =
    Change-IsTable db _ (commit_row-Changes db owner id manifest expected now) t
apply-IsTable db (aborts owner id expected now) t =
    Change-IsTable db _ (transition_row-Changes db owner id aborted "" "" expected now refl) t
apply-IsTable db (fails owner id code message expected now) t =
    Change-IsTable db _ (transition_row-Changes db owner id failed code message expected now refl) t
apply-IsTable db (cleans now limit) t = rw (cleanup_deletes_nothing db now limit) t

apply-IsKept :
    (db : Db) (call : Call) (id : String) (r : ResultRecord)
    → IsTable db
    → lookup id db.results ≡ some r
    → is_open r.status ≡ false
    → IsKept id r db (apply db call)
unfolding apply is_open
apply-IsKept db (creates q) id r t at closed =
    Change-IsKept db _ id r (create_row-Changes db q) at closed
apply-IsKept db (attaches owner other page_no artifact_id expected now) id r t at closed =
    Change-IsKept db _ id r (attach_row-Changes db owner other page_no artifact_id expected now) at
      closed
apply-IsKept db (commits owner other manifest expected now) id r t at closed =
    Change-IsKept db _ id r (commit_row-Changes db owner other manifest expected now) at closed
apply-IsKept db (aborts owner other expected now) id r t at closed =
    Change-IsKept db _ id r (transition_row-Changes db owner other aborted "" "" expected now refl)
      at closed
apply-IsKept db (fails owner other code message expected now) id r t at closed =
    Change-IsKept db _ id r
      (transition_row-Changes db owner other failed code message expected now refl) at closed
apply-IsKept db (cleans now limit) id r t at closed =
    rw (cleanup_deletes_nothing db now limit) (record { row_same = at; pages_same = refl })

-- From tables in which each result stands once, under its own identifier, over every order of the
-- store's calls, cleanups included, the row and the pages of a result that is ready, aborted or failed
-- stay exactly as they are, also past its expiry: CleanupResults deletes nothing.
pub sealed_for_good :
    (db : Db) (calls : List Call) (id : String) (r : ResultRecord)
    → IsTable db
    → lookup id db.results ≡ some r
    → is_open r.status ≡ false
    → (lookup id (replay db calls).results ≡ some r)
      × (pages_of id (replay db calls).pages ≡ pages_of id db.pages)
unfolding replay
sealed_for_good db [] id r t at closed = (at, refl)
sealed_for_good db (call ∷ calls) id r t at closed =
    let k = apply-IsKept db call id r t at closed in
    let (row, pages) =
      sealed_for_good (apply db call) calls id r (apply-IsTable db call t) k.row_same closed in
    (row, pages ∙ k.pages_same)
