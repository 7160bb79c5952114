-- ===== src/Examples/Tasks.antt =====
-- A task manager with two bids and no agent that takes a task, and one whose task is running.
use subnet.Prelude.{
  ℕ, ◌+◌, String, ◌≡◌, refl, ap, ◌≢◌, true, false, none, some, [], ◌∷◌, arith, nat_eq, text_Eq,
  ◌==◌,
}
use subnet.Map.{lookup}
use subnet.Matcher.{BidStatus, Bid, Intent}
use subnet.TaskManager.{
  SimpleTaskManager, PendingTask, Sending, Outcome, returned, panicked, unfinished,
  new_simple_task_manager, create_and_send_task, monitor_execution,
}
use subnet.TaskManager.Passing.{ends_at_deadline, passed_on_forever}
use subnet.TaskManager.Failures.{monitor_execution_lem}

abbrev until : ℕ → Intent
until deadline = record {
  intent_id = "i";
  intent_type = "t";
  params = some [];
  deadline = deadline;
  intent_expiration = 0;
}

abbrev bid_by : String → Bid
bid_by agent = record {
  bid_id = "b";
  intent_id = "i";
  agent_id = agent;
  price = 5;
  status = BidStatus.submitted;
  metadata = [];
}

-- Each attempt takes a second, and none reaches its agent.
abbrev refusing : ℕ → Sending
refusing k = record { unix = k + 1; unix_nano = k; takes = λ agent. false; failed_at = k + 1 }

x_differs : (bid_by "x").agent_id ≢ (bid_by "y").agent_id
x_differs e = absurd (ground (arith, ap (λ s. s == "y") e))

passed_on_forever_example :
    create_and_send_task
      (λ n. "7")
      refusing
      (("i", bid_by "x" ∷ bid_by "y" ∷ []) ∷ [])
      1000
      0
      new_simple_task_manager
      "i"
      (bid_by "x")
      (until 0)
    ≡ unfinished
unfolding lookup
passed_on_forever_example =
    passed_on_forever (λ n. "7") refusing (("i", bid_by "x" ∷ bid_by "y" ∷ []) ∷ []) "i" (until 0)
      [] 0 1 (bid_by "x") (bid_by "y") 1000 0 new_simple_task_manager (bid_by "x") refl refl
      (λ k agent. refl) refl refl refl refl x_differs

ends_at_deadline_example : ¬ (
    create_and_send_task
      (λ n. "7")
      refusing
      (("i", bid_by "x" ∷ bid_by "y" ∷ []) ∷ [])
      5
      0
      new_simple_task_manager
      "i"
      (bid_by "x")
      (until 3)
    ≡ unfinished)
ends_at_deadline_example =
    ends_at_deadline (λ n. "7") refusing (("i", bid_by "x" ∷ bid_by "y" ∷ []) ∷ []) "i" (until 3)
      new_simple_task_manager (bid_by "x") 4 5 refl (omega arith)

abbrev accepted_task : PendingTask
accepted_task = record {
  task_id = "task";
  intent_id = "i";
  agent_id = "x";
  intent = until 9;
  created_at = 1;
  responded = true;
  accepted = true;
}

abbrev running : SimpleTaskManager
running = record {
  pending_tasks = ("task", accepted_task) ∷ [];
  agent_tasks = ("x", "task" ∷ []) ∷ [];
}

abbrev nobody : SimpleTaskManager → Bid → Intent → Outcome
nobody t bid intent = panicked

task_is_held : lookup "task" running.pending_tasks ≡ some accepted_task
unfolding lookup
task_is_held = refl

monitor_execution_lem_example :
    (t' : SimpleTaskManager) × (monitor_execution nobody [] 30 5 9 running "task" 9
      ≡ returned t' none)
    × ((id : String) (q : PendingTask)
        → lookup id t'.pending_tasks ≡ some q
        → (lookup id running.pending_tasks ≡ some q) × ((q.intent_id == "i") ≡ false))
monitor_execution_lem_example =
    monitor_execution_lem nobody [] 30 5 9 running "task" accepted_task task_is_held refl
      (omega arith) (omega arith)
