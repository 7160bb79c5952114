-- ===== src/TaskManager/Failures.antt =====
-- What a deadline leaves of the tasks of an intent.
use subnet.Prelude.{
  ℕ, ◌+◌, ◌≤◌, ◌<◌, String, ◌≡◌, refl, subst, inl, inr, Bool, true, false, ◌&&◌, none, some, List,
  [], ◌∷◌, arith, ltb, lt→ltb, nat_eq, text_Eq, ◌==◌, if◌then◌else◌, Bool-cases,
}
use subnet.Map.{Map, lookup, lookup-delete}
use subnet.Matcher.{Bid, Intent}
use subnet.TaskManager.{
  SimpleTaskManager, PendingTask, drop_task, drop_each, report_intent_failure, handle_task_timeout,
  monitor_execution, returned, Outcome,
}

-- Dropping a task adds none.
drop_task-lookup :
    (i agent_id : String) (t : SimpleTaskManager) (id : String) (p : PendingTask)
    → lookup id (drop_task i agent_id t).pending_tasks ≡ some p
    → (lookup id t.pending_tasks ≡ some p) × ((i == id) ≡ false)
drop_task-lookup i agent_id t id p h = elim (Bool-cases (i == id)) [
  | inl y ↦ absurd (ground (arith, lookup-delete i id t.pending_tasks, y, h))
  | inr n ↦ (ground (arith, lookup-delete i id t.pending_tasks, n, h), n)
]

-- What is left was there and is not one that the loop drops.
drop_each-lookup :
    (gone : PendingTask → Bool) (entries : Map String PendingTask) (t : SimpleTaskManager)
    (id : String) (p : PendingTask)
    → lookup id (drop_each gone entries t).pending_tasks ≡ some p
    → (lookup id t.pending_tasks ≡ some p)
      × ((q : PendingTask) → lookup id entries ≡ some q → gone q ≡ false)
unfolding drop_each lookup
drop_each-lookup gone [] t id p h = (h, λ q e. absurd (ground (arith, e)))
drop_each-lookup gone ((i, x) ∷ rest) t id p h = elim (Bool-cases (gone x)) [
  | inl y ↦
      let (old, kept) = drop_each-lookup gone rest (drop_task i x.agent_id t) id p (
        subst
          (λ z.
            lookup id
              (drop_each gone rest (if z then drop_task i x.agent_id t else t)).pending_tasks
            ≡ some p)
          y h) in
      let (was, other) = drop_task-lookup i x.agent_id t id p old in
      (was, λ q e. kept q (ground (arith, other, e)))
  | inr n ↦
      let (old, kept) = drop_each-lookup gone rest t id p (
        subst
          (λ z.
            lookup id
              (drop_each gone rest (if z then drop_task i x.agent_id t else t)).pending_tasks
            ≡ some p)
          n h) in
      (
        old,
        λ q e. elim (Bool-cases (i == id)) [
          | inl same ↦ subst (λ z. gone z ≡ false) (ground (arith, same, e)) n
          | inr other ↦ kept q (ground (arith, other, e))
        ],
      )
]

-- After a failure was reported no task of the intent is pending, and no other was added.
failure-lookup :
    (intent_id : String) (t : SimpleTaskManager) (id : String) (p : PendingTask)
    → lookup id (report_intent_failure intent_id t).pending_tasks ≡ some p
    → (lookup id t.pending_tasks ≡ some p) × ((p.intent_id == intent_id) ≡ false)
unfolding report_intent_failure
failure-lookup intent_id t id p h =
    let (old, kept) = drop_each-lookup (λ q. q.intent_id == intent_id) t.pending_tasks t id p h in
    (old, kept p old)

-- A task that was accepted before its deadline and is still accepted when the monitoring goes on, at
-- the deadline or later, is passed on to nobody, whatever bids are there: the call returns without
-- an error, no task of its intent is pending any more, and every task that is pending was pending
-- before.
pub monitor_execution_lem :
    (again : SimpleTaskManager → Bid → Intent → Outcome) (bids : Map String (List Bid))
    (min_time started now : ℕ) (t : SimpleTaskManager) (task_id : String) (p : PendingTask)
    → lookup task_id t.pending_tasks ≡ some p
    → p.accepted ≡ true
    → started < p.intent.deadline
    → p.intent.deadline ≤ now
    → (t' : SimpleTaskManager) × (monitor_execution again bids min_time started now t task_id
          p.intent.deadline
        ≡ returned t' none)
      × ((id : String) (q : PendingTask)
          → lookup id t'.pending_tasks ≡ some q
          → (lookup id t.pending_tasks ≡ some q) × ((q.intent_id == p.intent_id) ≡ false))
unfolding monitor_execution handle_task_timeout
monitor_execution_lem again bids min_time started now t task_id p e a b c = (
  drop_task p.task_id p.agent_id (report_intent_failure p.intent_id t),
  simp (monitor_execution, guard, e, a) (simp (handle_task_timeout, ahead, late) refl),
  λ id q h.
      failure-lookup p.intent_id t id q
        (drop_task-lookup p.task_id p.agent_id (report_intent_failure p.intent_id t) id q h).0,
)
  where
    guard : (ltb 0 p.intent.deadline && ltb started p.intent.deadline) ≡ true
    guard = ground (arith, b)

    ahead : ltb 0 p.intent.deadline ≡ true
    ahead = lt→ltb 0 p.intent.deadline (omega (arith, b))

    late : ltb (now + min_time) p.intent.deadline ≡ false
    late = ground (arith, c)
