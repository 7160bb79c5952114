-- ===== src/Assignments/Laws/Late.antt =====
-- What happens when an assignment is confirmed after it was rejected.
use subnet.Prelude.{
  String, ◌≡◌, refl, sym, subst, ◌∙◌, none, some, List, [], ◌∷◌, arith, text_Eq, value_or, beq_refl,
}
use subnet.Map.{lookup, insert, lookup-insert_self, lookup-insert_ne}
use subnet.Bids.{Bid}
use subnet.Assignments.{
  Assignment, Status, Signer, AssignmentManager, Clock, new_assignment, store, confirm_assignment,
  activate_runner_up, handle_rejection, remove_from_queue,
}
use subnet.Assignments.Laws.Calls.{IsFresh}

module _ (v : Signer) (now : Clock) (m : AssignmentManager) (id : String) (a : Assignment)
    (bid : Bid) (rest : List Bid) where
  -- The assignment that a rejection gives to the runner-up.
  abbrev pub successor : Assignment
  successor = new_assignment v now a.intent_id bid.agent_id bid.bid_id m.matcher_id

  abbrev pub marked : AssignmentManager
  marked = record m {
    assignments = insert id (record a { status = Status.rejected }) m.assignments;
    runner_ups = insert a.intent_id rest m.runner_ups;
  }

  module _ (held : lookup id m.assignments ≡ some a)
      (waiting : value_or [] (lookup a.intent_id m.runner_ups) ≡ bid ∷ rest)
      (fresh : IsFresh v now m a.intent_id bid.agent_id) where
    handle_rejection_lem : handle_rejection v now m id ≡ (store marked successor, none)
    unfolding handle_rejection activate_runner_up
    handle_rejection_lem = rw (handle_rejection, held) (rw (activate_runner_up, waiting) refl)

    successor-differs : ¬ (successor.assignment_id ≡ id)
    successor-differs same =
        ground (arith, sym (subst (λ k. lookup k m.assignments ≡ none) same fresh) ∙ held)

    still-held :
        lookup id (store marked successor).assignments
        ≡ some (record a { status = Status.rejected })
    still-held =
        lookup-insert_ne successor.assignment_id id successor marked.assignments successor-differs
        ∙ lookup-insert_self id (record a { status = Status.rejected }) m.assignments

    abbrev confirmed : AssignmentManager
    confirmed = record (store marked successor) {
      assignments =
          insert id (record a { status = Status.active }) (store marked successor).assignments;
      pending_queue = remove_from_queue id (store marked successor).pending_queue;
    }

    confirm_marked : confirm_assignment (store marked successor) id a.agent_id ≡ (confirmed, none)
    unfolding confirm_assignment
    confirm_marked = rw (confirm_assignment, still-held) (rw (beq_refl a.agent_id) refl)

    -- When an assignment is rejected, its intent has a runner-up and the new identifier is fresh, then
    -- the agent that rejected can still confirm: the rejected assignment becomes active without an
    -- error, while the runner-up's assignment for the same intent stands pending beside it and is the
    -- one that the intent leads to.
    pub confirm_after_rejection :
        (m' : AssignmentManager) × (confirm_assignment (handle_rejection v now m id).0 id a.agent_id
          ≡ (m', none))
        × (lookup id m'.assignments ≡ some (record a { status = Status.active }))
        × (lookup successor.assignment_id m'.assignments ≡ some successor)
        × (lookup a.intent_id m'.assignments_by_intent ≡ some successor.assignment_id)
    confirm_after_rejection = (
      confirmed,
      rw (handle_rejection_lem) confirm_marked,
      lookup-insert_self id (record a { status = Status.active })
          (store marked successor).assignments,
      lookup-insert_ne id successor.assignment_id (record a { status = Status.active })
            (store marked successor).assignments (λ same. successor-differs (sym same))
          ∙ lookup-insert_self successor.assignment_id successor marked.assignments,
      lookup-insert_self a.intent_id successor.assignment_id m.assignments_by_intent,
    )
