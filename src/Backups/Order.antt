-- ===== src/Backups/Order.antt =====
-- The order of backups (internal/opsbackup/prune.go, the sorts of pruneReleaseBackups): newest first,
-- backups of one time by name. A name is a list of bytes, a time a number of nanoseconds.
use fast_spider.Prelude.{ℕ, Bool, true, false, ◌||◌, ◌&&◌, List, [], ◌∷◌, if◌then◌else◌, ltb, ◌==◌}
use fast_spider.Node.Jobs.Job.{Text}

-- What a second look at a file must find again.
pub record FileFacts : Type 0 where
  pub is_regular : Bool
  pub identity : ℕ
  pub size : ℕ
  pub mod_time : ℕ

pub record Candidate : Type 0 where
  pub name : Text
  pub facts : FileFacts
  pub created_at : ℕ

-- `<` of strings
unfoldable pub text_lt : Text → Text → Bool
text_lt a [] = false
text_lt [] (c ∷ cs) = true
text_lt (b ∷ bs) (c ∷ cs) = ltb b c || ((b == c) && text_lt bs cs)

unfoldable pub precedes : Candidate → Candidate → Bool
unfolding text_lt
precedes a b =
    if a.created_at == b.created_at then text_lt a.name b.name else ltb b.created_at a.created_at

module _ {A : Type 0} (less : A → A → Bool) where
  unfoldable pub insert_by : A → List A → List A
  insert_by a [] = a ∷ []
  insert_by a (b ∷ bs) = let rest = insert_by a bs in if less b a then b ∷ rest else a ∷ b ∷ bs

  unfoldable pub sort_by : List A → List A
  unfolding insert_by
  sort_by [] = []
  sort_by (a ∷ rest) = insert_by a (sort_by rest)
