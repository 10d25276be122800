-- ===== src/Tests/NotificationTests.antt =====
-- The notifications at concrete inputs.
use fast_spider.Prelude.{
  ℕ, ◌≤◌, ◌≡◌, refl, true, false, List, [], ◌∷◌, none, some, String, length, get_elem?, map, All,
  arith,
}
use fast_spider.Hub.Results.Rows.{ok}
use fast_spider.Hub.Notifications.Rows.{
  pending, claimed, acked, is_pending, is_claimed, is_acked, Notification,
}
use fast_spider.Hub.Notifications.Store.{
  has_text, lease_over, is_for, is_of_claim, insert_ordered, ordered, release_row, taken, is_free,
  claim_row, claim_each, prepend, cap_text, select, claim_done, claim_selected, held_rows,
  acked_rows, free_rows, claim_or_replay, claim_notifications,
}
use fast_spider.Hub.Notifications.Enqueue.{Texts, claimed_until}
use fast_spider.Hub.Notifications.History.{
  Call, enqueues, upgrades, claims, acknowledges, replay, spares, acked_for_good,
  lease_is_exclusive,
}
use fast_spider.Hub.Notifications.Claims.{text_bytes, AreTaken, new_claim_bounded}

abbrev four : String → ℕ
four s = 4

abbrev texts : Texts
texts = record {
  byte_length = four;
  rune_count = four;
  valid_utf8 = λ s. true;
  has_zero_byte = λ s. false;
  is_blank = λ s. false;
}

abbrev waiting : Notification
waiting = record {
  notification_id = "n1";
  owner_id = "own";
  collaboration_id = "c1";
  task_id = "t1";
  generation = 1;
  notification_kind = "completion";
  outcome = "failed";
  callback_type = "status";
  result_text = "";
  source_session_id = "s1";
  target_session_id = "s2";
  deliverable_path = "";
  state = pending;
  claim_id = none;
  claimed_at = none;
  acked_at = none;
  created_at = 1;
  updated_at = 1;
}

abbrev held : Notification
held = record waiting { state = claimed; claim_id = some "claim-a"; claimed_at = some 10 }

abbrev done : Notification
done = record held { state = acked; acked_at = some 11 }

-- A lease of 300 seconds; the calls come within it.
abbrev lease : ℕ
lease = 300000000000

abbrev busy_day : List Call
busy_day =
    enqueues waiting
    ∷ claims "own" "s2" "claim-b" 5 100 20000000000
    ∷ upgrades waiting 9
    ∷ acknowledges "own" "s2" "claim-b" 21000000000
    ∷ []

done-acked : is_acked done.state ≡ true
unfolding is_acked
done-acked = refl

acked_for_good_example : get_elem? (replay texts lease (done ∷ []) busy_day) 0 ≡ some done
acked_for_good_example = acked_for_good texts lease (done ∷ []) busy_day 0 done refl done-acked

held-claimed : is_claimed held.state ≡ true
unfolding is_claimed
held-claimed = refl

busy_day-spares : All (λ call. spares lease held call ≡ true) busy_day
unfolding spares claimed_until lease_over is_of_claim is_for has_text
busy_day-spares = (refl, (refl, (refl, (refl, tt))))

lease_is_exclusive_example : get_elem? (replay texts lease (held ∷ []) busy_day) 0 ≡ some held
lease_is_exclusive_example =
    lease_is_exclusive texts lease (held ∷ []) busy_day 0 held refl held-claimed busy_day-spares

nothing_held :
    held_rows "own" "s2" "claim-b" (map (release_row "own" "s2" 20000000000 lease) (waiting ∷ []))
    ≡ []
unfolding held_rows release_row is_of_claim is_for has_text is_claimed ordered insert_ordered
    lease_over
nothing_held = refl

nothing_acked :
    acked_rows "own" "s2" "claim-b" (map (release_row "own" "s2" 20000000000 lease) (waiting ∷ []))
    ≡ []
unfolding acked_rows release_row is_of_claim is_for has_text is_claimed is_acked lease_over
nothing_acked = refl

claimed_one :
    (claim_notifications four (waiting ∷ []) "own" "s2" "claim-b" 5 100 20000000000 lease).1
    ≡ ok (taken "claim-b" 20000000000 waiting ∷ [])
unfolding claim_notifications claim_or_replay held_rows acked_rows free_rows release_row is_of_claim
    is_for has_text is_pending is_claimed is_acked ordered insert_ordered lease_over claim_selected
    select cap_text prepend claim_each claim_row is_free claim_done taken
claimed_one = refl

new_claim_bounded_example :
    (length (taken "claim-b" 20000000000 waiting ∷ []) ≤ 5)
    × (text_bytes four (taken "claim-b" 20000000000 waiting ∷ []) ≤ 100)
    × AreTaken "claim-b" 20000000000 (taken "claim-b" 20000000000 waiting ∷ [])
new_claim_bounded_example =
    new_claim_bounded four (waiting ∷ []) "own" "s2" "claim-b" 5 100 20000000000 lease
      (taken "claim-b" 20000000000 waiting ∷ []) nothing_held nothing_acked (omega arith)
      claimed_one
