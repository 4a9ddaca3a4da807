-- ===== src/Notify/Staging.antt =====
-- What a fan-out adds, and what the dispatcher takes.
use mathlib.Core.List.{append_assoc, append-nil}
use arkon.Base.{ℕ, ◌≡◌, refl, ◌∙◌, ap, some, List, [], ◌∷◌, ◌++◌, map, arith}
use arkon.Notify.{
  Notification, Outbox, extend_at, staged_at, without, stage_into, stage_for_dispatch, take_from,
  take_pending_dispatch, Payload, make, notify, many_from, notify_many,
}
use arkon.Notify.Recipients.{picked, targets, picked-eq-targets}

-- what the dispatcher would take for a session
abbrev pub pending : ℕ → Outbox → List Notification
pending db o = (take_pending_dispatch (some db) o).0

staged_at-extend_at :
    (db : ℕ) (ns : List Notification) (m : List (ℕ × List Notification))
    → staged_at db (extend_at db ns m) ≡ staged_at db m ++ ns
unfolding staged_at extend_at
staged_at-extend_at db ns [] = ground arith
staged_at-extend_at db ns ((k, staged) ∷ m) = ground (arith, staged_at-extend_at db ns m)

staged_at-without : (db : ℕ) (m : List (ℕ × List Notification)) → staged_at db (without db m) ≡ []
unfolding staged_at without
staged_at-without db [] = refl
staged_at-without db ((k, staged) ∷ m) = ground (arith, staged_at-without db m)

pending-stage_for_dispatch :
    (db : ℕ) (ns : List Notification) (o : Outbox)
    → pending db (stage_for_dispatch db ns o) ≡ pending db o ++ ns
unfolding take_pending_dispatch take_from stage_for_dispatch stage_into
pending-stage_for_dispatch db [] o = rw append-nil
pending-stage_for_dispatch db (n ∷ ns) o =
    ground (arith, staged_at-extend_at db (n ∷ ns) o.session_staged)

rows-stage_for_dispatch :
    (db : ℕ) (ns : List Notification) (o : Outbox) → (stage_for_dispatch db ns o).rows ≡ o.rows
unfolding stage_for_dispatch stage_into
rows-stage_for_dispatch db ns o = ground arith

pending-rows :
    (db : ℕ) (rs : List Notification) (o : Outbox)
    → pending db (record o { rows = rs }) ≡ pending db o
unfolding take_pending_dispatch take_from
pending-rows db rs o = ground arith

module _ (db : ℕ) (p : Payload) where
  rows-notify : (rid : ℕ) (o : Outbox) → (notify db p rid o).rows ≡ o.rows ++ make p rid ∷ []
  unfolding notify
  rows-notify rid o = rows-stage_for_dispatch db (make p rid ∷ []) _

  pending-notify :
      (rid : ℕ) (o : Outbox) → pending db (notify db p rid o) ≡ pending db o ++ make p rid ∷ []
  unfolding notify
  pending-notify rid o =
      pending-stage_for_dispatch db (make p rid ∷ []) _
      ∙ ap (λ t. t ++ make p rid ∷ []) (pending-rows db (o.rows ++ make p rid ∷ []) o)

  rows-many_from :
      (seen rids : List ℕ) (o : Outbox)
      → (many_from db p seen rids o).rows ≡ o.rows ++ map (make p) (picked p.actor_id seen rids)
  unfolding many_from picked
  rows-many_from seen [] o = rw append-nil
  rows-many_from seen (rid ∷ rids) o = ground (
    arith,
    rows-many_from seen rids o,
    rows-many_from (rid ∷ seen) rids (notify db p rid o),
    rows-notify rid o,
    append_assoc o.rows (make p rid ∷ []) (map (make p) (picked p.actor_id (rid ∷ seen) rids)),
  )

  pending-many_from :
      (seen rids : List ℕ) (o : Outbox)
      → pending db (many_from db p seen rids o)
        ≡ pending db o ++ map (make p) (picked p.actor_id seen rids)
  unfolding many_from picked
  pending-many_from seen [] o = rw append-nil
  pending-many_from seen (rid ∷ rids) o = ground (
    arith,
    pending-many_from seen rids o,
    pending-many_from (rid ∷ seen) rids (notify db p rid o),
    pending-notify rid o,
    append_assoc (pending db o) (make p rid ∷ [])
        (map (make p) (picked p.actor_id (rid ∷ seen) rids)),
  )

-- `notify_many` adds, in the order of the recipients' first occurrences, one row for each recipient
-- but the actor, and stages exactly these rows behind what was pending.
pub notify_many_lem :
    (db : ℕ) (p : Payload) (rids : List ℕ) (o : Outbox)
    → ((notify_many db p rids o).rows ≡ o.rows ++ map (make p) (targets p.actor_id rids))
      × (pending db (notify_many db p rids o)
          ≡ pending db o ++ map (make p) (targets p.actor_id rids))
unfolding notify_many
notify_many_lem db p rids o =
    rw (← picked-eq-targets p.actor_id rids)
      (rows-many_from db p [] rids o, pending-many_from db p [] rids o)

-- What the dispatcher took is no longer pending, and the rows stay.
pub take_pending_dispatch_lem :
    (db : ℕ) (o : Outbox)
    → (pending db (take_pending_dispatch (some db) o).1 ≡ [])
      × ((take_pending_dispatch (some db) o).1.rows ≡ o.rows)
unfolding take_pending_dispatch take_from
take_pending_dispatch_lem db o = ground (arith, staged_at-without db o.session_staged)
