-- ===== src/Backups/Pruned.antt =====
-- What a pruning keeps (internal/opsbackup/prune.go, pruneReleaseBackups).
use fast_spider.Prelude.{
  ℕ, ◌≡◌, refl, ap, subst, sym, ◌∙◌, Bool, true, false, ◌⊎◌, inl, inr, List, [], ◌∷◌, ◌++◌, Option,
  none, some, arith, if-cases, ltb, ◌==◌, length, length-append, ◌<◌, ◌≤◌, ◌||◌, not, take, drop,
  keep_if, All, take-append-drop, min, length-take,
}
use mathlib.Core.List.{Permᴰ, append-nil, append_assoc}
use mathlib.Core.List.Permᴰ
use fast_spider.Node.Jobs.Job.{Text}
use fast_spider.Backups.Order.{Candidate, precedes, sort_by}
use fast_spider.Backups.Sorted.{
  sort_by-perm, sort_by-IsSorted, length-sort_by, IsNoNewer, behind-IsNoNewer,
}
use fast_spider.Backups.Prune.{
  PruneError, Removal, Disk, names_of, Answer, failure_result, Progress, stop_removing, remove_one,
  stop_or_go, stop_reason, remove_all, prune_sorted, prune_rechecked, prune_inspected,
  prune_entries, prune_release_backups, inspect_all, remove_failed, max_release_backup_candidates,
  max_release_backup_keep, recheck_all,
}

perm-middle : {A : Type 0} (l : List A) (a : A) (r : List A) → Permᴰ (l ++ a ∷ r) (a ∷ (l ++ r))
perm-middle [] a r = Permᴰ.refl (a ∷ r)
perm-middle (b ∷ l) a r = Permᴰ.trans (Permᴰ.cons refl (perm-middle l a r)) (Permᴰ.swap refl refl)

-- What the removals made of one progress: each candidate stayed or was deleted, in order, and all of
-- `P` that held of the candidates holds of the deleted ones.
record IsProgress (P : Candidate → Type 0) (before : Progress) (rest : List Candidate)
    (after : Progress) : Type 0 where
  pub stayed : List Candidate
  pub removed : List Candidate
  pub kept : after.kept ≡ before.kept ++ names_of stayed
  pub deleted : after.deleted ≡ before.deleted ++ names_of removed
  pub accounted : Permᴰ (stayed ++ removed) rest
  pub held : All P removed
  pub complete :
      ((after.errors ≡ before.errors) × (stayed ≡ []) × (removed ≡ rest))
      ⊎ (length before.errors < length after.errors)

module _ (P : Candidate → Type 0) where
  nothing_left : (so_far : Progress) → IsProgress P so_far [] so_far
  nothing_left so_far = record {
    stayed = [];
    removed = [];
    kept = sym (append-nil so_far.kept);
    deleted = sym (append-nil so_far.deleted);
    accounted = Permᴰ.nil;
    held = tt;
    complete = inl (refl, refl, refl);
  }

  all_stay :
      (so_far : Progress) (fault : PruneError) (rest : List Candidate)
      → IsProgress P so_far rest (stop_removing so_far fault rest)
  unfolding stop_removing
  all_stay so_far fault rest = record {
    stayed = rest;
    removed = [];
    kept = refl;
    deleted = sym (append-nil so_far.deleted);
    accounted = Permᴰ.append-nil rest;
    held = tt;
    complete = inr (omega (arith, length-append so_far.errors (fault ∷ [])));
  }

  one_more :
      (so_far after : Progress) (c : Candidate) (rest : List Candidate) (is_removed : Bool)
      → P c
      → IsProgress P (remove_one so_far c.name is_removed) rest after
      → IsProgress P so_far (c ∷ rest) after
  unfolding remove_one
  one_more so_far after c rest true p next = record {
    stayed = next.stayed;
    removed = c ∷ next.removed;
    kept = next.kept;
    deleted = next.deleted ∙ append_assoc so_far.deleted (c.name ∷ []) (names_of next.removed);
    accounted =
        Permᴰ.trans (perm-middle next.stayed c next.removed) (Permᴰ.cons refl next.accounted);
    held = (p, next.held);
    complete = elim next.complete [
      | inl (errors, stayed, removed) ↦ inl (errors, stayed, ap (◌∷◌ c) removed)
      | inr more ↦ inr more
    ];
  }
  one_more so_far after c rest false p next = record {
    stayed = c ∷ next.stayed;
    removed = next.removed;
    kept = next.kept ∙ append_assoc so_far.kept (c.name ∷ []) (names_of next.stayed);
    deleted = next.deleted;
    accounted = Permᴰ.cons refl next.accounted;
    held = next.held;
    complete = inr (elim next.complete [
      | inl (errors, stayed, removed) ↦
          omega (arith, ap length errors, length-append so_far.errors (remove_failed ∷ []))
      | inr more ↦ omega (arith, more, length-append so_far.errors (remove_failed ∷ []))
    ]);
  }

  stop_or_go-IsProgress :
      (o : Option PruneError) (so_far next : Progress) (rest : List Candidate)
      → IsProgress P so_far rest next
      → IsProgress P so_far rest (stop_or_go o so_far rest next)
  unfolding stop_or_go
  stop_or_go-IsProgress none so_far next rest h = h
  stop_or_go-IsProgress (some fault) so_far next rest h = all_stay so_far fault rest

  remove_all-IsProgress :
      (removal : Text → Removal) (so_far : Progress) (rest : List Candidate)
      → All P rest
      → IsProgress P so_far rest (remove_all removal so_far rest)
  unfolding remove_all
  remove_all-IsProgress removal so_far [] ps = nothing_left so_far
  remove_all-IsProgress removal so_far (c ∷ rest) ps =
      let found : Removal = removal c.name in
      let next : Progress = remove_one so_far c.name found.is_removed in
      stop_or_go-IsProgress (stop_reason c found) so_far (remove_all removal next rest) (c ∷ rest) (
        one_more so_far (remove_all removal next rest) c rest found.is_removed ps.0
          (remove_all-IsProgress removal next rest ps.1))

-- How a pruning that came to its removals used the candidates. The first `keep` of them, newest first,
-- stayed. None of those deleted is newer than one of them. Without an error all others were deleted.
pub record IsPruned (keep : ℕ) (candidates : List Candidate) (answer : Answer) : Type 0 where
  pub newest : List Candidate
  pub stayed : List Candidate
  pub removed : List Candidate
  pub count : length newest ≡ min keep (length candidates)
  pub kept : answer.0.kept ≡ names_of newest ++ names_of stayed
  pub deleted : answer.0.deleted ≡ names_of removed
  pub accounted : Permᴰ (newest ++ (stayed ++ removed)) candidates
  pub older : All (λ (d : Candidate). All (IsNoNewer d) newest) removed
  pub complete : ((answer.1 ≡ []) × (stayed ≡ [])) ⊎ (1 ≤ length answer.1)

-- Nothing is deleted, for a reason.
abbrev pub IsUntouched : Bool → Answer → Type 0
IsUntouched apply answer =
    (answer.0.deleted ≡ [])
    × ((apply ≡ false) ⊎ (1 ≤ length answer.1) ⊎ (answer.0.candidate_count ≡ 0))

prune_sorted-IsPruned :
    (disk : Disk) (keep : ℕ) (candidates : List Candidate)
    → IsPruned keep candidates (prune_sorted disk keep true (sort_by precedes candidates))
unfolding prune_sorted
prune_sorted-IsPruned disk keep candidates =
    let sorted : List Candidate = sort_by precedes candidates in
    let newest : List Candidate = take keep sorted in
    let begun : Progress = record { kept = names_of newest; deleted = []; errors = [] } in
    let old = behind-IsNoNewer keep sorted (sort_by-IsSorted candidates) in
    let done =
      remove_all-IsProgress (λ (d : Candidate). All (IsNoNewer d) newest) disk.removal begun
        (drop keep sorted) old in
    record {
      newest = newest;
      stayed = done.stayed;
      removed = done.removed;
      count = length-take keep sorted ∙ ap (min keep) (length-sort_by precedes candidates);
      kept = done.kept;
      deleted = done.deleted;
      accounted = Permᴰ.trans (Permᴰ.append_left newest done.accounted) (
          subst (λ l. Permᴰ l candidates) (sym (take-append-drop keep sorted))
            (sort_by-perm precedes candidates));
      older = done.held;
      complete = elim done.complete [
        | inl (errors, stayed, removed) ↦ inl (errors, stayed)
        | inr more ↦ inr (omega (arith, more))
      ];
    }

prune_rechecked-cases :
    (disk : Disk) (keep : ℕ) (apply : Bool) (names : List Text) (candidates : List Candidate)
    (o : Option PruneError)
    → IsUntouched apply (prune_rechecked disk keep apply names candidates o)
      ⊎ ((o ≡ none) × IsPruned keep candidates (prune_rechecked disk keep apply names candidates o))
unfolding prune_rechecked prune_sorted failure_result
prune_rechecked-cases disk keep apply names candidates (some fault) =
    inl (refl, inr (inl (omega arith)))
prune_rechecked-cases disk keep true names candidates none =
    inr (refl, prune_sorted-IsPruned disk keep candidates)
prune_rechecked-cases disk keep false names candidates none = inl (refl, inl refl)

-- What a pruning's answer must be.
abbrev pub IsFair : Disk → ℕ → Bool → Answer → Type 0
IsFair disk keep apply answer =
    IsUntouched apply answer
    ⊎ ((entries : List Text) × (candidates : List Candidate) × (disk.entries ≡ some entries)
        × (inspect_all disk.inspection (keep_if disk.is_backup_name entries) ≡ inr candidates)
        × (recheck_all disk.second_look candidates ≡ none)
        × IsPruned keep candidates answer)

prune_inspected-IsFair :
    (disk : Disk) (keep : ℕ) (apply : Bool) (entries : List Text) (o : PruneError ⊎ List Candidate)
    → disk.entries ≡ some entries
    → inspect_all disk.inspection (keep_if disk.is_backup_name entries) ≡ o
    → IsFair disk keep apply
        (prune_inspected disk keep apply (keep_if disk.is_backup_name entries) o)
unfolding prune_inspected failure_result
prune_inspected-IsFair disk keep apply entries (inl fault) found e =
    inl (refl, inr (inl (omega arith)))
prune_inspected-IsFair disk keep apply entries (inr candidates) found e =
    elim (prune_rechecked-cases disk keep apply (keep_if disk.is_backup_name entries) candidates
      (recheck_all disk.second_look candidates)) [
        | inl untouched ↦ inl untouched
        | inr (unchanged, pruned) ↦ inr (entries, candidates, found, e, unchanged, pruned)
      ]

prune_entries-IsFair :
    (disk : Disk) (keep : ℕ) (apply : Bool) (o : Option (List Text))
    → disk.entries ≡ o
    → IsFair disk keep apply (prune_entries disk keep apply o)
unfolding prune_entries
prune_entries-IsFair disk keep apply none found = inl (refl, inr (inl (omega arith)))
prune_entries-IsFair disk keep apply (some entries) found =
    let names : List Text = keep_if disk.is_backup_name entries in
    if-cases (IsFair disk keep apply) (ltb max_release_backup_candidates (length names))
      (λ e. inl (refl, inr (inl (omega arith))))
      (λ e.
        if-cases (IsFair disk keep apply) (length names == 0) (λ f. inl (refl, inr (inr refl)))
          (λ f.
            prune_inspected-IsFair disk keep apply entries (inspect_all disk.inspection names) found
              refl))

-- A pruning deletes nothing because it should not, had an error or found no backup; or every backup
-- was inspected and found unchanged, and then the newest `keep` stay, none of the deleted is newer
-- than one of them, every backup is kept or deleted once, and without an error all but the newest
-- `keep` are deleted.
pub prune_keeps_newest :
    (disk : Disk) (keep : ℕ) (apply : Bool)
    → IsFair disk keep apply (prune_release_backups disk keep apply)
unfolding prune_release_backups
prune_keeps_newest disk keep apply =
    if-cases (IsFair disk keep apply) (ltb keep 1 || ltb max_release_backup_keep keep)
      (λ e. inl (refl, inr (inl (omega arith))))
      (λ e.
        if-cases (IsFair disk keep apply) (not disk.directory_ok)
          (λ f. inl (refl, inr (inl (omega arith))))
          (λ f. prune_entries-IsFair disk keep apply disk.entries refl))
