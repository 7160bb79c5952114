-- ===== src/TaskManager.antt =====
-- internal/matcher/simple_task_manager.go: tasks that wait for the answers of their agents.
-- A pending task is an object that the map and its goroutines share; a goroutine's part after its
-- sleep is a call of its own. The bids are those that the server holds, and no other call changes
-- them while a task is passed on. Times are in seconds and not negative; the submission of an
-- assignment to the root layer and the logs change nothing here.
pub mod Passing
pub mod Failures
use subnet.Prelude.{
  ℕ, zero, suc, ◌+◌, String, Bool, true, false, ◌&&◌, Option, none, some, List, [], ◌∷◌, ◌++◌, ltb,
  nat_eq, text_Eq, ◌==◌, if◌then◌else◌, value_or,
}
use Prim.Native.String.{◌++◌ as append}
use subnet.Map.{Map, lookup, insert, delete}
use subnet.Matcher.{Bid, Intent}
use subnet.Matcher.Tasks.{is_candidate}

pub record PendingTask : Type 0 where
  pub task_id : String
  pub intent_id : String
  pub agent_id : String
  pub intent : Intent
  pub created_at : ℕ
  pub responded : Bool
  pub accepted : Bool

pub record SimpleTaskManager : Type 0 where
  pub pending_tasks : Map String PendingTask
  pub agent_tasks : Map String (List String)

unfoldable pub new_simple_task_manager : SimpleTaskManager
new_simple_task_manager = record { pending_tasks = []; agent_tasks = [] }

-- The clock while a task is made, whether a stream of the agent takes it in time, and the clock
-- when none did.
pub record Sending : Type 0 where
  pub unix : ℕ
  pub unix_nano : ℕ
  pub takes : String → Bool
  pub failed_at : ℕ

pub data TaskError : Type 0 where
  expired : TaskError
  not_sent : TaskError
  unknown_task : TaskError

-- A call returns with an error or none, panics, or has not returned within its fuel.
pub data Outcome : Type 0 where
  returned : SimpleTaskManager → Option TaskError → Outcome
  panicked : Outcome
  unfinished : Outcome

abbrev pub is_past : ℕ → Intent → Bool
is_past now intent = ltb 0 intent.deadline && ltb intent.deadline now

abbrev pub cheaper_bid : Bid → Option Bid → Option Bid
cheaper_bid bid none = some bid
cheaper_bid bid (some best) = if ltb bid.price best.price then some bid else some best

unfoldable pub cheapest : String → Option Bid → List Bid → Option Bid
cheapest excluded best [] = best
cheapest excluded best (bid ∷ bids) =
    let better = cheaper_bid bid best in
    cheapest excluded (if is_candidate excluded bid then better else best) bids

unfoldable pub find_runner_up : Map String (List Bid) → String → String → Option Bid
find_runner_up bids intent_id excluded =
    cheapest excluded none (value_or [] (lookup intent_id bids))

unfoldable pub without : String → List String → List String
without id [] = []
without id (x ∷ xs) = let rest = without id xs in if x == id then rest else x ∷ rest

abbrev pub drop_task : String → String → SimpleTaskManager → SimpleTaskManager
drop_task task_id agent_id t = record {
  pending_tasks = delete task_id t.pending_tasks;
  agent_tasks = elim (lookup agent_id t.agent_tasks) [
    | none ↦ t.agent_tasks
    | some ids ↦ insert agent_id (without task_id ids) t.agent_tasks
  ];
}

-- The tasks that the loop walks, and the test for those that go.
unfoldable pub drop_each :
    (PendingTask → Bool) → Map String PendingTask → SimpleTaskManager → SimpleTaskManager
drop_each gone [] t = t
drop_each gone ((id, p) ∷ rest) t =
    drop_each gone rest (if gone p then drop_task id p.agent_id t else t)

unfoldable pub report_intent_failure : String → SimpleTaskManager → SimpleTaskManager
report_intent_failure intent_id t = drop_each (λ p. p.intent_id == intent_id) t.pending_tasks t

-- `tryRunnerUp` does not look at the error of the task that it makes.
abbrev pub ignore_error : Outcome → Outcome
ignore_error (returned t e) = returned t none
ignore_error panicked = panicked
ignore_error unfinished = unfinished

-- `again` makes and sends a task. A task that is gone has no intent to pass on.
unfoldable pub try_runner_up :
    (SimpleTaskManager → Bid → Intent → Outcome)
    → Map String (List Bid)
    → ℕ
    → SimpleTaskManager
    → String
    → String
    → String
    → Outcome
try_runner_up again bids now t intent_id task_id excluded = elim (lookup task_id t.pending_tasks) [
  | none ↦ elim (find_runner_up bids intent_id excluded) [
    | none ↦ returned (report_intent_failure intent_id t) none
    | some bid ↦ panicked
  ]
  | some p ↦ elim (is_past now p.intent) [
    | true ↦ returned t none
    | false ↦ elim (find_runner_up bids intent_id excluded) [
      | none ↦ returned (report_intent_failure intent_id t) none
      | some bid ↦ ignore_error (again t bid p.intent)
    ]
  ]
]

-- The error of a task that was not sent is returned whatever became of its runner-up.
abbrev pub then_not_sent : Outcome → Outcome
then_not_sent (returned t e) = returned t (some not_sent)
then_not_sent panicked = panicked
then_not_sent unfinished = unfinished

abbrev pub task_id_of : (ℕ → String) → String → ℕ → String
task_id_of format_int intent_id nano =
    append "task-" (append intent_id (append "-" (format_int nano)))

abbrev pub track : String → String → Bid → Intent → ℕ → SimpleTaskManager → SimpleTaskManager
track task_id intent_id bid intent now t = record {
  pending_tasks =
      insert task_id
        (record {
          task_id = task_id;
          intent_id = intent_id;
          agent_id = bid.agent_id;
          intent = intent;
          created_at = now;
          responded = false;
          accepted = false;
        })
        t.pending_tasks;
  agent_tasks =
      insert bid.agent_id (value_or [] (lookup bid.agent_id t.agent_tasks) ++ (task_id ∷ []))
        t.agent_tasks;
}

-- The first argument after the bids is the fuel, and the attempts are numbered from the next one.
unfoldable pub create_and_send_task :
    (ℕ → String)
    → (ℕ → Sending)
    → Map String (List Bid)
    → ℕ
    → ℕ
    → SimpleTaskManager
    → String
    → Bid
    → Intent
    → Outcome
create_and_send_task format_int sendings bids zero k t intent_id bid intent = unfinished
create_and_send_task format_int sendings bids (suc n) k t intent_id bid intent =
    let s = sendings k in
    let task_id = task_id_of format_int intent_id s.unix_nano in
    let tracked = track task_id intent_id bid intent s.unix t in
    elim (is_past s.unix intent) [
      | true ↦ returned t (some expired)
      | false ↦ elim intent.params [
        | none ↦ panicked
        | some raw ↦ elim (s.takes bid.agent_id) [
          | true ↦ returned tracked none
          | false ↦ then_not_sent (
              try_runner_up
                (λ t' next i.
                  create_and_send_task format_int sendings bids n (suc k) t' intent_id next i)
                bids s.failed_at tracked intent_id task_id bid.agent_id)
        ]
      ]
    ]

-- An answer of an agent, which is not compared with the agent that the task went to.
unfoldable pub handle_agent_response :
    (SimpleTaskManager → Bid → Intent → Outcome)
    → Map String (List Bid)
    → ℕ
    → SimpleTaskManager
    → String
    → String
    → Bool
    → Outcome
handle_agent_response again bids now t task_id agent_id accepted =
    elim (lookup task_id t.pending_tasks) [
      | none ↦ returned t (some unknown_task)
      | some p ↦
          let answered = record t {
            pending_tasks =
                insert task_id (record p { responded = true; accepted = accepted }) t.pending_tasks;
          } in
          elim accepted [
            | true ↦ returned answered none
            | false ↦ try_runner_up again bids now answered p.intent_id task_id agent_id
          ]
    ]

-- `waitForResponse` after its sleep.
unfoldable pub response_timed_out :
    (SimpleTaskManager → Bid → Intent → Outcome)
    → Map String (List Bid)
    → ℕ
    → SimpleTaskManager
    → String
    → Outcome
response_timed_out again bids now t task_id = elim (lookup task_id t.pending_tasks) [
  | none ↦ returned t none
  | some p ↦ elim p.responded [
    | true ↦ returned t none
    | false ↦ try_runner_up again bids now t p.intent_id task_id p.agent_id
  ]
]

abbrev pub and_drop : String → String → Outcome → Outcome
and_drop task_id agent_id (returned t e) = returned (drop_task task_id agent_id t) e
and_drop task_id agent_id panicked = panicked
and_drop task_id agent_id unfinished = unfinished

-- `min_time` is the time that a reassignment needs at least.
unfoldable pub handle_task_timeout :
    (SimpleTaskManager → Bid → Intent → Outcome)
    → Map String (List Bid)
    → ℕ
    → ℕ
    → SimpleTaskManager
    → PendingTask
    → Outcome
handle_task_timeout again bids min_time now t p =
    let passed_on = try_runner_up again bids now t p.intent_id p.task_id p.agent_id in
    let failed = returned (report_intent_failure p.intent_id t) none in
    and_drop p.task_id p.agent_id (elim (ltb 0 p.intent.deadline) [
      | false ↦ passed_on
      | true ↦ elim (ltb (now + min_time) p.intent.deadline) [ true ↦ passed_on | false ↦ failed ]
    ])

-- `monitorExecution`, which sleeps from `started` until the deadline, if that is ahead, and goes on
-- at `now`, when the manager is as given.
unfoldable pub monitor_execution :
    (SimpleTaskManager → Bid → Intent → Outcome)
    → Map String (List Bid)
    → ℕ
    → ℕ
    → ℕ
    → SimpleTaskManager
    → String
    → ℕ
    → Outcome
monitor_execution again bids min_time started now t task_id deadline =
    elim (ltb 0 deadline && ltb started deadline) [
      | false ↦ returned t none
      | true ↦ elim (lookup task_id t.pending_tasks) [
        | none ↦ returned t none
        | some p ↦ elim p.accepted [
          | false ↦ returned t none
          | true ↦ handle_task_timeout again bids min_time now t p
        ]
      ]
    ]

unfoldable pub cleanup_old_tasks : ℕ → ℕ → SimpleTaskManager → SimpleTaskManager
cleanup_old_tasks interval now t =
    drop_each (λ p. ltb (p.created_at + interval) now) t.pending_tasks t
