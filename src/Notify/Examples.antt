-- ===== src/Notify/Examples.antt =====
-- The theorems on notifications for single calls, and runs of `notify_each`.
use arkon.Base.{◌≡◌, refl, none, some, List, [], ◌∷◌, map}
use arkon.Notify.{
  Notification, Outbox, Payload, Item, make, notify_each, each_from, init_request_dispatch_scope,
  stage_for_dispatch, stage_into, extend_at,
}

abbrev quiet : Outbox
quiet = record { rows = []; request_staged = none; session_staged = [] }

abbrev news : Payload
news = record {
  type = "wiki_draft_submitted";
  subject = "New draft";
  body = "";
  target_type = "wiki_draft";
  target_id = 4;
  actor_id = some 2;
}

abbrev items : List Item
items =
    record { recipient_id = some 2; subject = "a"; body = ""; target_id = 1 }
    ∷ record { recipient_id = none; subject = "b"; body = ""; target_id = 2 }
    ∷ record { recipient_id = some 3; subject = "c"; body = ""; target_id = 3 }
    ∷ record { recipient_id = some 3; subject = "d"; body = ""; target_id = 4 }
    ∷ []

-- the actor, a missing recipient and a second item for one recipient are left out
each_told :
    map
      (λ (n : Notification). n.subject)
      (notify_each 1 news items (init_request_dispatch_scope quiet)).rows
    ≡ "c" ∷ []
unfolding notify_each each_from make init_request_dispatch_scope stage_for_dispatch stage_into
    extend_at
each_told = refl
