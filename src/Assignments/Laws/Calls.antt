-- ===== src/Assignments/Laws/Calls.antt =====
-- Every call of the assignment manager as a step, what holds in the states that it reaches, and
-- what happens when a rejected assignment is confirmed.
use subnet.Prelude.{
  ℕ, String, ◌≡◌, refl, sym, ap, subst, ◌∙◌, inl, inr, none, some, List, [], ◌∷◌, arith, text_Eq,
  ◌==◌, Bool-cases, Option-cases, value_or, some_eq, is_empty,
}
use subnet.Map.{Map, lookup, insert, insert-IsMap, lookup-insert_self, lookup-insert_ne}
use subnet.Map.Each.{Each-insert}
use subnet.Bids.{Bid}
use subnet.Assignments.{
  Assignment, Status, MatchingResult, AgentConnection, Signer, AssignmentManager, Clock,
  new_assignment_manager, generate_assignment_id, new_assignment, store, keep_runner_ups,
  create_assignment, send_to_agent, confirm_assignment, activate_runner_up, handle_rejection,
  register_agent_connection, unregister_agent_connection, cleanup_expired,
}
use subnet.Assignments.Laws.{LeadsTo, Inv, write-LeadsTo, cleanup_all-Inv}

-- A status is written; the queue may change.
restatus-Inv :
    (m : AssignmentManager) (id : String) (a : Assignment) (status : Status) (queue : List String)
    → lookup id m.assignments ≡ some a
    → Inv m
    → Inv (record m {
      assignments = insert id (record a { status = status }) m.assignments;
      pending_queue = queue;
    })
restatus-Inv m id a status queue e h = record {
  distinct = insert-IsMap id (record a { status = status }) m.assignments h.distinct;
  named =
      Each-insert (λ k b. b.assignment_id ≡ k) id (record a { status = status }) m.assignments
        (h.named id a e) h.named;
  indexed = λ i k f.
      write-LeadsTo id (record a { status = status }) m.assignments i k
        (λ old g. ap (λ x. x.intent_id) (some_eq (sym g ∙ e))) (h.indexed i k f);
}

-- A new assignment is stored.
store-Inv :
    (m : AssignmentManager) (a : Assignment)
    → lookup a.assignment_id m.assignments ≡ none
    → Inv m
    → Inv (store m a)
store-Inv m a e h = record {
  distinct = insert-IsMap a.assignment_id a m.assignments h.distinct;
  named = Each-insert (λ k b. b.assignment_id ≡ k) a.assignment_id a m.assignments refl h.named;
  indexed =
      Each-insert (LeadsTo (insert a.assignment_id a m.assignments)) a.intent_id a.assignment_id
        m.assignments_by_intent (a, lookup-insert_self a.assignment_id a m.assignments, refl)
        (λ i k f.
          write-LeadsTo a.assignment_id a m.assignments i k
            (λ old g. absurd (ground (arith, sym e ∙ g))) (h.indexed i k f));
}

runner_ups-Inv :
    (m : AssignmentManager) (rs : Map String (List Bid))
    → Inv m
    → Inv (record m { runner_ups = rs })
runner_ups-Inv m rs h = record { distinct = h.distinct; named = h.named; indexed = h.indexed }

keep-Inv :
    (m : AssignmentManager) (result : MatchingResult) → Inv m → Inv (keep_runner_ups m result)
keep-Inv m result h = elim (Bool-cases (is_empty result.runner_up_bids)) [
  | inl y ↦ rw (keep_runner_ups, y) h
  | inr n ↦ rw (keep_runner_ups, n) (runner_ups-Inv m _ h)
]

module _ (v : Signer) where
  -- The identifier that the clock gives to an assignment is not one that the map holds.
  abbrev pub IsFresh : Clock → AssignmentManager → String → String → Type 0
  IsFresh now m intent_id agent_id =
      lookup (generate_assignment_id v now.1 intent_id agent_id) m.assignments ≡ none

  create-Inv :
      (now : Clock) (m : AssignmentManager) (result : MatchingResult)
      → IsFresh now m result.intent_id result.winning_agent_id
      → Inv m
      → Inv (create_assignment v now m (some result)).0
  unfolding create_assignment
  create-Inv now m result fresh h = elim (Option-cases result.winning_bid) [
    | inl n ↦ rw (create_assignment, n) h
    | inr (bid, y) ↦ elim (Option-cases (lookup result.intent_id m.assignments_by_intent)) [
      | inr (id, f) ↦ rw (create_assignment, y, f) h
      | inl n ↦
          let a =
            new_assignment v now result.intent_id result.winning_agent_id bid.bid_id
              result.matcher_id in
          rw (create_assignment, y, n) (keep-Inv (store m a) result (store-Inv m a fresh h))
    ]
  ]

  runner_up_cases-Inv :
      (now : Clock) (m : AssignmentManager) (intent_id : String) (bids : List Bid)
      → value_or [] (lookup intent_id m.runner_ups) ≡ bids
      → ((agent_id : String) → IsFresh now m intent_id agent_id)
      → Inv m
      → Inv (activate_runner_up v now m intent_id).0
  unfolding activate_runner_up
  runner_up_cases-Inv now m intent_id [] e fresh h = rw (activate_runner_up, e) h
  runner_up_cases-Inv now m intent_id (bid ∷ rest) e fresh h =
      rw (activate_runner_up, e)
        (store-Inv (record m { runner_ups = insert intent_id rest m.runner_ups })
          (new_assignment v now intent_id bid.agent_id bid.bid_id m.matcher_id) (fresh bid.agent_id)
          (runner_ups-Inv m (insert intent_id rest m.runner_ups) h))

  still-fresh :
      (m : AssignmentManager) (id new : String) (a b : Assignment)
      → lookup id m.assignments ≡ some a
      → lookup new m.assignments ≡ none
      → lookup new (insert id b m.assignments) ≡ none
  still-fresh m id new a b e f =
      lookup-insert_ne id new b m.assignments
        (λ same. ground (arith, sym (subst (λ k. lookup k m.assignments ≡ some a) same e) ∙ f))
      ∙ f

  reject-Inv :
      (now : Clock) (m : AssignmentManager) (id : String)
      → ((intent_id agent_id : String) → IsFresh now m intent_id agent_id)
      → Inv m
      → Inv (handle_rejection v now m id).0
  unfolding handle_rejection
  reject-Inv now m id fresh h = elim (Option-cases (lookup id m.assignments)) [
    | inl n ↦ rw (handle_rejection, n) h
    | inr (a, y) ↦
        let b = record a { status = Status.rejected } in
        let m' : AssignmentManager = record m { assignments = insert id b m.assignments } in
        rw (handle_rejection, y)
          (runner_up_cases-Inv now m' a.intent_id _ refl
            (λ agent_id.
              still-fresh m id (generate_assignment_id v now.1 a.intent_id agent_id) a b y
                (fresh a.intent_id agent_id))
            (restatus-Inv m id a Status.rejected m.pending_queue y h))
  ]

  confirm-Inv :
      (m : AssignmentManager) (id agent_id : String)
      → Inv m
      → Inv (confirm_assignment m id agent_id).0
  unfolding confirm_assignment
  confirm-Inv m id agent_id h = elim (Option-cases (lookup id m.assignments)) [
    | inl n ↦ rw (confirm_assignment, n) h
    | inr (a, y) ↦ elim (Bool-cases (a.agent_id == agent_id)) [
      | inl t ↦ rw (confirm_assignment, y, t) (restatus-Inv m id a Status.active _ y h)
      | inr f ↦ rw (confirm_assignment, y, f) h
    ]
  ]

  send-Inv :
      (m : AssignmentManager) (a : Assignment)
      → lookup a.assignment_id m.assignments ≡ some a
      → Inv m
      → Inv (send_to_agent m a).0
  unfolding send_to_agent
  send-Inv m a e h = elim (Option-cases (lookup a.agent_id m.agent_connections)) [
    | inl n ↦ rw (send_to_agent, n) h
    | inr (conn, y) ↦ elim (Bool-cases conn.is_connected) [
      | inr d ↦ rw (send_to_agent, y, d) h
      | inl c ↦ elim (Bool-cases (conn.takes a)) [
        | inl t ↦
            rw (send_to_agent, y, c, t)
              (restatus-Inv m a.assignment_id a Status.sent m.pending_queue e h)
        | inr f ↦ rw (send_to_agent, y, c, f) h
      ]
    ]
  ]

  -- One call; the identifiers that the clock gives are fresh, and an assignment that is sent is one
  -- that the map holds.
  pub data Step (m : AssignmentManager) : AssignmentManager → Type 0 where
    creates :
        (now : Clock) (result : MatchingResult)
        → IsFresh now m result.intent_id result.winning_agent_id
        → Step m (create_assignment v now m (some result)).0
    sends :
        (a : Assignment)
        → lookup a.assignment_id m.assignments ≡ some a
        → Step m (send_to_agent m a).0
    confirms : (id agent_id : String) → Step m (confirm_assignment m id agent_id).0
    rejects :
        (now : Clock) (id : String)
        → ((intent_id agent_id : String) → IsFresh now m intent_id agent_id)
        → Step m (handle_rejection v now m id).0
    activates :
        (now : Clock) (intent_id : String)
        → ((agent_id : String) → IsFresh now m intent_id agent_id)
        → Step m (activate_runner_up v now m intent_id).0
    registers :
        (agent_id : String) (conn : AgentConnection)
        → Step m (register_agent_connection m agent_id conn)
    unregisters : (agent_id : String) → Step m (unregister_agent_connection m agent_id)
    cleans : (now older_than : ℕ) → Step m (cleanup_expired now older_than m).0

  pub data Reach (m : AssignmentManager) : AssignmentManager → Type 0 where
    here : Reach m m
    next : {n k : AssignmentManager} → Reach m n → Step n k → Reach m k

  Step-Inv : {m n : AssignmentManager} → Inv m → Step m n → Inv n
  unfolding register_agent_connection unregister_agent_connection cleanup_expired
  Step-Inv {m} h (creates now result fresh) = create-Inv now m result fresh h
  Step-Inv {m} h (sends a e) = send-Inv m a e h
  Step-Inv {m} h (confirms id agent_id) = confirm-Inv m id agent_id h
  Step-Inv {m} h (rejects now id fresh) = reject-Inv now m id fresh h
  Step-Inv {m} h (activates now intent_id fresh) =
      runner_up_cases-Inv now m intent_id _ refl fresh h
  Step-Inv {m} h (registers agent_id conn) = record {
    distinct = h.distinct;
    named = h.named;
    indexed = h.indexed;
  }
  Step-Inv {m} h (unregisters agent_id) = record {
    distinct = h.distinct;
    named = h.named;
    indexed = h.indexed;
  }
  Step-Inv {m} h (cleans now older_than) = cleanup_all-Inv now older_than m h

  Reach-Inv : {m n : AssignmentManager} → Inv m → Reach m n → Inv n
  Reach-Inv h here = h
  Reach-Inv h (next r step) = Step-Inv (Reach-Inv h r) step

empty-Inv : (matcher_id : String) → Inv (new_assignment_manager matcher_id)
unfolding new_assignment_manager lookup
empty-Inv matcher_id = record {
  distinct = tt;
  named = λ k a f. absurd (ground (arith, f));
  indexed = λ k a f. absurd (ground (arith, f));
}

-- Where every new identifier is fresh and only held assignments are sent: after any calls of a new
-- manager no identifier is held twice, each assignment stands under its own, and the entry of an
-- intent leads to a held assignment of that intent.
pub new_manager-Reach :
    (v : Signer) (matcher_id : String) (m : AssignmentManager)
    → Reach v (new_assignment_manager matcher_id) m
    → Inv m
new_manager-Reach v matcher_id m r = Reach-Inv v (empty-Inv matcher_id) r
