-- ===== src/Matcher/Invariant/Assigning.antt =====
-- The making of an assignment, its failure and the choice of a runner-up keep the invariant.
use subnet.Prelude.{
  ℕ, String, ◌≡◌, refl, inl, inr, true, not, ◌&&◌, Option, none, some, text_Eq, Bool-cases,
  Option-cases,
}
use subnet.Map.{lookup, insert, delete}
use subnet.Map.Each.{Each-insert, Each-delete}
use subnet.Matcher.{
  Bid, Intent, IntentWithWindow, Assignment, ExecutionTask, Server, Services, Attempt,
}
use subnet.Matcher.Windows.{
  intent_expired, broadcast_intent_update, open_window, reset_intent_window, drop_intent,
  cleanup_pending_assignment, give_up_or_retry, handle_assignment_failure,
}
use subnet.Matcher.Submission.{extract_chain_address}
use subnet.Matcher.Matching.{
  is_chain_address, send_task_to_agent, submit_assignment, create_assignment, store_pending,
  root_assignment, execution_task, new_assignment_id,
}
use subnet.Matcher.Invariant.{IsSettledWindow, AreBidsOn, Inv}
use subnet.Matcher.Invariant.Writes.{
  deleted-results, stored-IsPending, cleaned-IsPending, untouched, undeleted,
}

pub broadcast-Inv :
    (now : ℕ) (s : Server) (id kind : String) → Inv s → Inv (broadcast_intent_update now s id kind)
unfolding broadcast_intent_update
broadcast-Inv now s id kind v = record {
  windows = v.windows;
  bids = v.bids;
  results = v.results;
  pending = v.pending;
  confirmed = v.confirmed;
}

drop_intent-Inv : (s : Server) (id : String) → Inv s → Inv (drop_intent s id)
unfolding drop_intent
drop_intent-Inv s id v = record {
  windows = Each-delete IsSettledWindow id s.intents v.windows;
  bids = Each-delete AreBidsOn id s.bids_by_intent v.bids;
  results =
      deleted-results id s.intents (delete id s.intents) s.bids_by_intent
        (delete id s.bids_by_intent) s.matching_results (λ k d. undeleted id k s.intents d)
        (λ k d. undeleted id k s.bids_by_intent d) v.results;
  pending = v.pending;
  confirmed = v.confirmed;
}

reset_window-Inv :
    (now : ℕ) (s : Server) (id : String) (o : Option IntentWithWindow)
    → lookup id s.intents ≡ o
    → Inv s
    → Inv (reset_intent_window now s id)
unfolding reset_intent_window
reset_window-Inv now s id none e v = rw (reset_intent_window, e) v
reset_window-Inv now s id (some w) e v =
    let window = open_window now s.cfg.bidding_window_sec w.intent in
    rw (reset_intent_window, e)
      (record {
        windows = Each-insert IsSettledWindow id window s.intents refl v.windows;
        bids = v.bids;
        results =
            deleted-results id s.intents (insert id window s.intents) s.bids_by_intent
              s.bids_by_intent s.matching_results (λ k d. untouched id k window s.intents d)
              (λ k d. refl) v.results;
        pending = v.pending;
        confirmed = v.confirmed;
      })

retry-Inv :
    (now : ℕ) (s : Server) (id : String) (o : Option IntentWithWindow)
    → lookup id s.intents ≡ o
    → Inv s
    → Inv (give_up_or_retry now s id)
retry-Inv now s id none e v = rw (give_up_or_retry, e) v
retry-Inv now s id (some w) e v = elim (Bool-cases (intent_expired w.intent now)) [
  | inl y ↦ rw (give_up_or_retry, e, y) (drop_intent-Inv s id v)
  | inr n ↦ rw (give_up_or_retry, e, n) (reset_window-Inv now s id (some w) e v)
]

pub failure-Inv :
    (now : ℕ) (s : Server) (id assignment_id : String)
    → Inv s
    → Inv (handle_assignment_failure now s id assignment_id)
unfolding handle_assignment_failure cleanup_pending_assignment
failure-Inv now s id assignment_id v =
    let u = retry-Inv now s id (lookup id s.intents) refl v in
    let t = give_up_or_retry now s id in
    record {
      windows = u.windows;
      bids = u.bids;
      results = u.results;
      pending = cleaned-IsPending assignment_id t.assignment_agents t.pending_assignments u.pending;
      confirmed = u.confirmed;
    }

send_task-Inv :
    (s : Server) (agent : String) (task : ExecutionTask)
    → Inv s
    → Inv (send_task_to_agent s agent task)
unfolding send_task_to_agent
send_task-Inv s agent task v = elim (Option-cases (lookup agent s.agent_tasks)) [
  | inl n ↦ rw (send_task_to_agent, n) v
  | inr (c, y) ↦
      rw (send_task_to_agent, y)
        (record {
          windows = v.windows;
          bids = v.bids;
          results = v.results;
          pending = v.pending;
          confirmed = v.confirmed;
        })
]

submit-Inv :
    (call : Attempt) (s : Server) (id : String) (task : ExecutionTask)
    → Inv s
    → Inv (submit_assignment call s id task)
unfolding submit_assignment
submit-Inv call s id task v =
    elim (Bool-cases (s.cfg.enable_chain_submit && s.has_sdk_client && not call.chain_accepts)) [
      | inl y ↦ rw (submit_assignment, y) (failure-Inv call.failed_at s id task.task_id v)
      | inr n ↦ elim (Bool-cases (s.has_rootlayer_client && call.rootlayer_accepts)) [
        | inl y ↦ rw (submit_assignment, n, y) (send_task-Inv s task.agent_id task v)
        | inr m ↦ rw (submit_assignment, n, m) (failure-Inv call.failed_at s id task.task_id v)
      ]
    ]

store_pending-Inv :
    (call : Attempt) (s : Server) (a : Assignment) (bid : Bid) (intent : Intent)
    → is_chain_address a.agent_id ≡ true
    → Inv s
    → Inv (store_pending call s a bid intent)
store_pending-Inv call s a bid intent c v = record {
  windows = v.windows;
  bids = v.bids;
  results = v.results;
  pending =
      stored-IsPending a.assignment_id bid.agent_id
        (record { assignment = a; created_at = call.unix_nano; intent = intent })
        s.assignment_agents s.pending_assignments (refl, c) v.pending;
  confirmed = v.confirmed;
}

pub create-Inv :
    (v : Services) (call : Attempt) (s : Server) (id : String) (bid : Bid)
    → Inv s
    → Inv (create_assignment v call s id bid)
unfolding create_assignment
create-Inv v call s id bid h = elim (Option-cases (lookup id s.intents)) [
  | inl n ↦ rw (create_assignment, n) h
  | inr (w, y) ↦ elim (Bool-cases (is_chain_address (extract_chain_address v bid))) [
    | inr n ↦ rw (create_assignment, y, n) h
    | inl c ↦
        let a =
          root_assignment v call s (new_assignment_id v call.unix_nano id bid.bid_id) id bid
            (extract_chain_address v bid) in
        rw (create_assignment, y, c)
          (submit-Inv call (store_pending call s a bid w.intent) id
            (execution_task call (new_assignment_id v call.unix_nano id bid.bid_id) id bid w.intent)
            (store_pending-Inv call s a bid w.intent c h))
  ]
]
