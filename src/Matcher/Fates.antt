-- ===== src/Matcher/Fates.antt =====
-- What becomes of an intent whose window has closed.
use subnet.Prelude.{
  ℕ, String, ◌≡◌, refl, sym, subst, ◌⊎◌, inl, inr, Bool, true, false, not, ◌&&◌, none, some, List,
  [], arith, text_Eq, Bool-cases, Option-cases, value_or, is_empty, beq_refl,
}
use subnet.Map.{lookup, insert, delete, lookup-insert_self}
use subnet.Matcher.{
  Bid, IntentWithWindow, ExecutionTask, PendingAssignment, Server, Services, Attempt,
}
use subnet.Matcher.Windows.{
  intent_expired, broadcast_intent_update, open_window, reset_intent_window, drop_intent,
  cleanup_pending_assignment, give_up_or_retry, handle_assignment_failure,
}
use subnet.Matcher.Submission.{extract_chain_address}
use subnet.Matcher.Matching.{
  Selection, send_task_to_agent, submit_assignment, create_assignment, is_chain_address,
  store_pending, root_assignment, execution_task, sign_assignment, sign_matching_result,
  new_assignment_id, set_matched, store_result, matching_result, perform_matching,
}
use subnet.Matcher.Invariant.Writes.{deleted}

-- The chain, if it is used, and the root layer take the assignment.
abbrev pub is_taken : Attempt → Server → Bool
is_taken call s =
    not (s.cfg.enable_chain_submit && s.has_sdk_client && not call.chain_accepts)
    && (s.has_rootlayer_client && call.rootlayer_accepts)

abbrev pub bids_of : Server → String → List Bid
bids_of s id = value_or [] (lookup id s.bids_by_intent)

-- Neither a pending assignment nor its agent is there.
abbrev pub HasNo : Server → String → Type 0
HasNo s name = (lookup name s.pending_assignments ≡ none) × (lookup name s.assignment_agents ≡ none)

given_up :
    (now : ℕ) (p : Server) (id : String) (w : IntentWithWindow)
    → lookup id p.intents ≡ some w
    → intent_expired w.intent now ≡ true
    → give_up_or_retry now p id ≡ drop_intent p id
given_up now p id w e y = rw (give_up_or_retry, e, y) refl

-- The server with a new window for the intent.
abbrev again : ℕ → Server → String → IntentWithWindow → Server
again now p id w = record p {
  intents = insert id (open_window now p.cfg.bidding_window_sec w.intent) p.intents;
  matching_results = delete id p.matching_results;
}

retried :
    (now : ℕ) (p : Server) (id : String) (w : IntentWithWindow)
    → lookup id p.intents ≡ some w
    → intent_expired w.intent now ≡ false
    → give_up_or_retry now p id ≡ again now p id w
unfolding reset_intent_window
retried now p id w e y = rw (give_up_or_retry, e, y) (rw (reset_intent_window, e) refl)

module _ (v : Services) (select : Selection) (call : Attempt) (s : Server) (id : String)
    (window : IntentWithWindow) where
  abbrev pub name_for : Bid → String
  name_for winner = new_assignment_id v call.unix_nano id winner.bid_id

  abbrev pub pending_for : Bid → PendingAssignment
  pending_for winner = record {
    assignment =
        root_assignment v call s (name_for winner) id winner (extract_chain_address v winner);
    created_at = call.unix_nano;
    intent = window.intent;
  }

  -- The five ends of a matching.
  pub data Fate (t : Server) : Type 0 where
    unmatched :
        (select window.intent (bids_of s id) ≡ none) ⊎ (is_empty (bids_of s id) ≡ true)
        → t ≡ set_matched s id window
        → Fate t
    stranded :
        (winner : Bid) (runner_ups : List Bid)
        → select window.intent (bids_of s id) ≡ some (winner, runner_ups)
        → is_chain_address (extract_chain_address v winner) ≡ false
        → t
          ≡ broadcast_intent_update call.unix
              (store_result v call s id window winner runner_ups)
              id
              "MATCHED"
        → Fate t
    assigned :
        (winner : Bid) (runner_ups : List Bid)
        → select window.intent (bids_of s id) ≡ some (winner, runner_ups)
        → is_chain_address (extract_chain_address v winner) ≡ true
        → is_taken call s ≡ true
        → lookup id t.matching_results ≡ some (matching_result v call s id winner runner_ups)
        → lookup id t.intents ≡ some (record window { matched = true })
        → lookup (name_for winner) t.pending_assignments ≡ some (pending_for winner)
        → lookup (name_for winner) t.assignment_agents ≡ some winner.agent_id
        → Fate t
    dropped :
        (winner : Bid) (runner_ups : List Bid)
        → select window.intent (bids_of s id) ≡ some (winner, runner_ups)
        → is_taken call s ≡ false
        → intent_expired window.intent call.failed_at ≡ true
        → lookup id t.intents ≡ none
        → lookup id t.bids_by_intent ≡ none
        → lookup id t.matching_results ≡ none
        → HasNo t (name_for winner)
        → Fate t
    reopened :
        (winner : Bid) (runner_ups : List Bid)
        → select window.intent (bids_of s id) ≡ some (winner, runner_ups)
        → is_taken call s ≡ false
        → intent_expired window.intent call.failed_at ≡ false
        → lookup id t.intents
          ≡ some (open_window call.failed_at s.cfg.bidding_window_sec window.intent)
        → bids_of t id ≡ bids_of s id
        → lookup id t.matching_results ≡ none
        → HasNo t (name_for winner)
        → Fate t

  -- The state with the result and the pending assignment, before it is submitted.
  abbrev prepared : Bid → List Bid → Server
  prepared winner runner_ups =
      store_pending call (store_result v call s id window winner runner_ups)
        (root_assignment v call (store_result v call s id window winner runner_ups)
          (name_for winner) id winner (extract_chain_address v winner))
        winner window.intent

  abbrev task_for : Bid → ExecutionTask
  task_for winner = execution_task call (name_for winner) id winner window.intent

  settled_window :
      (winner : Bid) (runner_ups : List Bid)
      → lookup id (prepared winner runner_ups).intents ≡ some (record window { matched = true })
  settled_window winner runner_ups =
      lookup-insert_self id (record window { matched = true }) s.intents

  failed-Fate :
      (winner : Bid) (runner_ups : List Bid)
      → select window.intent (bids_of s id) ≡ some (winner, runner_ups)
      → is_taken call s ≡ false
      → Fate (
          broadcast_intent_update call.unix
            (handle_assignment_failure call.failed_at
              (prepared winner runner_ups)
              id
              (name_for winner))
            id
            "MATCHED")
  unfolding broadcast_intent_update handle_assignment_failure cleanup_pending_assignment drop_intent
  failed-Fate winner runner_ups e n =
      let p = prepared winner runner_ups in
      let w = settled_window winner runner_ups in
      let name = name_for winner in
      let none_left : (q : Server) → HasNo (cleanup_pending_assignment q name) name = λ q. (
        deleted name name q.pending_assignments (beq_refl name),
        deleted name name q.assignment_agents (beq_refl name),
      ) in
      let ended : Server → Server =
        λ q. broadcast_intent_update call.unix (cleanup_pending_assignment q name) id "MATCHED" in
      elim (Bool-cases (intent_expired window.intent call.failed_at)) [
        | inl y ↦
            subst (λ q. Fate (ended q))
              (sym (given_up call.failed_at p id (record window { matched = true }) w y))
              (dropped winner runner_ups e n y (deleted id id p.intents (beq_refl id))
                (deleted id id p.bids_by_intent (beq_refl id))
                (deleted id id p.matching_results (beq_refl id)) (none_left (drop_intent p id)))
        | inr o ↦
            subst (λ q. Fate (ended q))
              (sym (retried call.failed_at p id (record window { matched = true }) w o))
              (reopened winner runner_ups e n o
                (lookup-insert_self id
                  (open_window call.failed_at s.cfg.bidding_window_sec window.intent) p.intents)
                refl (deleted id id p.matching_results (beq_refl id))
                (none_left (again call.failed_at p id (record window { matched = true }))))
      ]

  sent-Fate :
      (winner : Bid) (runner_ups : List Bid) (agent : String)
      → select window.intent (bids_of s id) ≡ some (winner, runner_ups)
      → is_chain_address (extract_chain_address v winner) ≡ true
      → is_taken call s ≡ true
      → Fate (
          broadcast_intent_update call.unix
            (send_task_to_agent (prepared winner runner_ups) agent (task_for winner))
            id
            "MATCHED")
  unfolding broadcast_intent_update send_task_to_agent sign_assignment sign_matching_result
  sent-Fate winner runner_ups agent e c t =
      let p = prepared winner runner_ups in
      let name = name_for winner in
      let ending : (q : Server)
          → q.intents ≡ p.intents
          → q.matching_results ≡ p.matching_results
          → q.pending_assignments ≡ p.pending_assignments
          → q.assignment_agents ≡ p.assignment_agents
          → Fate (broadcast_intent_update call.unix q id "MATCHED") =
        λ q i r g a.
          assigned winner runner_ups e c t
            (subst (λ m. lookup id m ≡ some (matching_result v call s id winner runner_ups)) (sym r)
              (lookup-insert_self id (matching_result v call s id winner runner_ups)
                s.matching_results))
            (subst (λ m. lookup id m ≡ some (record window { matched = true })) (sym i)
              (settled_window winner runner_ups))
            (subst (λ m. lookup name m ≡ some (pending_for winner)) (sym g)
              (lookup-insert_self name (pending_for winner) s.pending_assignments))
            (subst (λ m. lookup name m ≡ some winner.agent_id) (sym a)
              (lookup-insert_self name winner.agent_id s.assignment_agents)) in
      elim (Option-cases (lookup agent p.agent_tasks)) [
        | inl n ↦ rw (send_task_to_agent, n) (ending p refl refl refl refl)
        | inr (ch, y) ↦ rw (send_task_to_agent, y) (ending _ refl refl refl refl)
      ]

  submit-Fate :
      (winner : Bid) (runner_ups : List Bid)
      → select window.intent (bids_of s id) ≡ some (winner, runner_ups)
      → is_chain_address (extract_chain_address v winner) ≡ true
      → Fate (
          broadcast_intent_update call.unix
            (submit_assignment call (prepared winner runner_ups) id (task_for winner))
            id
            "MATCHED")
  unfolding submit_assignment
  submit-Fate winner runner_ups e c =
      let chain = s.cfg.enable_chain_submit && s.has_sdk_client && not call.chain_accepts in
      let root = s.has_rootlayer_client && call.rootlayer_accepts in
      elim (Bool-cases chain) [
        | inl y ↦ rw (submit_assignment, y) (failed-Fate winner runner_ups e (ground (arith, y)))
        | inr n ↦ elim (Bool-cases root) [
          | inl y ↦
              rw (submit_assignment, n, y)
                (sent-Fate winner runner_ups winner.agent_id e c (ground (arith, n, y)))
          | inr m ↦
              rw (submit_assignment, n, m) (failed-Fate winner runner_ups e (ground (arith, n, m)))
        ]
      ]

  chosen-Fate :
      (winner : Bid) (runner_ups : List Bid)
      → select window.intent (bids_of s id) ≡ some (winner, runner_ups)
      → Fate (
          broadcast_intent_update call.unix
            (create_assignment v call (store_result v call s id window winner runner_ups) id winner)
            id
            "MATCHED")
  unfolding create_assignment
  chosen-Fate winner runner_ups e =
      let stored = store_result v call s id window winner runner_ups in
      let w : lookup id stored.intents ≡ some (record window { matched = true }) =
        lookup-insert_self id (record window { matched = true }) s.intents in
      elim (Bool-cases (is_chain_address (extract_chain_address v winner))) [
        | inr n ↦ rw (create_assignment, w, n) (stranded winner runner_ups e n refl)
        | inl c ↦ rw (create_assignment, w, c) (submit-Fate winner runner_ups e c)
      ]

-- A matching has five ends. Without bids, or when the strategy fails, the intent is matched and
-- nothing else changes. When the winner has no address that starts with 0x, the result is stored
-- and announced and the intent stays matched without any assignment. When the chain, if it is
-- used, and the root layer take the assignment, result, assignment and agent are recorded, the
-- last two under the assignment's name. When one of them refuses, or there is no root layer
-- client, neither the assignment nor the result stays: an expired intent is dropped with its bids,
-- and any other gets a new window and keeps its bids.
pub perform_matching-Fate :
    (v : Services) (select : Selection) (call : Attempt) (s : Server) (id : String)
    (window : IntentWithWindow)
    → Fate v select call s id window (perform_matching v select call s id window)
unfolding perform_matching
perform_matching-Fate v select call s id window = elim (Bool-cases (is_empty (bids_of s id))) [
  | inl y ↦ rw (perform_matching, y) (unmatched (inr y) refl)
  | inr n ↦ elim (Option-cases (select window.intent (bids_of s id))) [
    | inl f ↦ rw (perform_matching, n, f) (unmatched (inl f) refl)
    | inr ((winner, runner_ups), f) ↦
        rw (perform_matching, n, f) (chosen-Fate v select call s id window winner runner_ups f)
  ]
]
