-- ===== src/TaskManager/Passing.antt =====
-- When a task that no agent takes is passed on without end, and when it is not.
use subnet.Prelude.{
  ℕ, zero, suc, ◌+◌, ◌<◌, String, ◌≡◌, refl, sym, ap, subst, ◌∙◌, ◌≢◌, ◌⊎◌, inl, inr, Bool, true,
  false, Option, none, some, List, [], ◌∷◌, arith, nat_eq, text_Eq, ◌==◌, if◌then◌else◌, Bool-cases,
  Option-cases, value_or, some_eq, is_some, beq_ne, beq→eq, get_elem?,
}
use subnet.Map.{Map, lookup, lookup-insert_self}
use subnet.Bytes.{Bytes}
use subnet.Matcher.{Bid, Intent}
use subnet.Matcher.Tasks.{is_candidate, is_submitted}
use subnet.TaskManager.{
  SimpleTaskManager, Sending, Outcome, is_past, cheaper_bid, cheapest, find_runner_up,
  try_runner_up, create_and_send_task, then_not_sent, ignore_error, track, task_id_of, returned,
  panicked, unfinished, not_sent, report_intent_failure,
}

cheaper_bid-is_some : (bid : Bid) (best : Option Bid) → is_some (cheaper_bid bid best) ≡ true
cheaper_bid-is_some bid none = refl
cheaper_bid-is_some bid (some b) = ground arith

step-is_some :
    (c : Bool) (bid : Bid) (best : Option Bid)
    → (is_some best ≡ true) ⊎ (c ≡ true)
    → is_some (if c then cheaper_bid bid best else best) ≡ true
step-is_some true bid best h = cheaper_bid-is_some bid best
step-is_some false bid best (inl h) = h
step-is_some false bid best (inr f) = absurd (ground (arith, f))

cheapest-is_some :
    (excluded : String) (best : Option Bid) (bids : List Bid)
    → is_some best ≡ true
    → is_some (cheapest excluded best bids) ≡ true
unfolding cheapest
cheapest-is_some excluded best [] h = h
cheapest-is_some excluded best (bid ∷ bids) h =
    cheapest-is_some excluded (if is_candidate excluded bid then cheaper_bid bid best else best)
      bids (step-is_some (is_candidate excluded bid) bid best (inl h))

candidate-is_some :
    (excluded : String) (best : Option Bid) (bids : List Bid) (i : ℕ) (bid : Bid)
    → get_elem? bids i ≡ some bid
    → is_candidate excluded bid ≡ true
    → is_some (cheapest excluded best bids) ≡ true
unfolding cheapest
candidate-is_some excluded best [] i bid e c = absurd (ground (arith, e))
candidate-is_some excluded best (b ∷ bids) zero bid e c = cheapest-is_some excluded _ bids (
    step-is_some (is_candidate excluded b) b best
      (inr (subst (λ x. is_candidate excluded x ≡ true) (sym (some_eq e)) c)))
candidate-is_some excluded best (b ∷ bids) (suc i) bid e c =
    candidate-is_some excluded (if is_candidate excluded b then cheaper_bid b best else best) bids i
      bid e c

module _ (format_int : ℕ → String) (sendings : ℕ → Sending) (bids : Map String (List Bid))
    (intent_id : String) (intent : Intent) where
  abbrev pub run : ℕ → ℕ → SimpleTaskManager → Bid → Outcome
  run n k t bid = create_and_send_task format_int sendings bids n k t intent_id bid intent

  -- The manager with the task of an attempt.
  abbrev tracked : ℕ → SimpleTaskManager → Bid → SimpleTaskManager
  tracked k t bid =
      let s = sendings k in
      track (task_id_of format_int intent_id s.unix_nano) intent_id bid intent s.unix t

  passes_on :
      (n k : ℕ) (t : SimpleTaskManager) (bid next : Bid) (raw : Bytes)
      → intent.params ≡ some raw
      → is_past (sendings k).unix intent ≡ false
      → is_past (sendings k).failed_at intent ≡ false
      → (sendings k).takes bid.agent_id ≡ false
      → find_runner_up bids intent_id bid.agent_id ≡ some next
      → run (suc n) k t bid ≡ then_not_sent (ignore_error (run n (suc k) (tracked k t bid) next))
  unfolding create_and_send_task try_runner_up
  passes_on n k t bid next raw r p q f e =
      simp (create_and_send_task, p, r, f)
        (rw
          (
            try_runner_up,
            lookup-insert_self (task_id_of format_int intent_id (sendings k).unix_nano) _
                t.pending_tasks,
            q,
            e,
          )
          refl)

  -- An attempt after the deadline is the last one.
  run-past :
      (n k : ℕ) (t : SimpleTaskManager) (bid : Bid)
      → is_past (sendings k).unix intent ≡ true
      → ¬ (run (suc n) k t bid ≡ unfinished)
  unfolding create_and_send_task
  run-past n k t bid p = simp (create_and_send_task, p) (λ e. ground (arith, e))

  then_not_sent-unfinished :
      (r : Outcome) → then_not_sent (ignore_error r) ≡ unfinished → r ≡ unfinished
  then_not_sent-unfinished (returned t e) h = absurd (ground (arith, h))
  then_not_sent-unfinished panicked h = absurd (ground (arith, h))
  then_not_sent-unfinished unfinished h = refl

  refused-step :
      (n k : ℕ) (t : SimpleTaskManager) (bid : Bid) (raw : Bytes)
      → intent.params ≡ some raw
      → is_past (sendings k).unix intent ≡ false
      → (sendings k).takes bid.agent_id ≡ false
      → run (suc n) k t bid ≡ unfinished
      → (t' : SimpleTaskManager) × (next : Bid) × (run n (suc k) t' next ≡ unfinished)
  unfolding create_and_send_task try_runner_up
  refused-step n k t bid raw r p f h =
      let id = task_id_of format_int intent_id (sendings k).unix_nano in
      elim (Bool-cases (is_past (sendings k).failed_at intent)) [
        | inl y ↦
            let ends : run (suc n) k t bid ≡ returned (tracked k t bid) (some not_sent) =
              simp (create_and_send_task, p, r, f)
                (rw (try_runner_up, lookup-insert_self id _ t.pending_tasks, y) refl) in
            absurd (ground (arith, sym ends ∙ h))
        | inr q ↦ elim (Option-cases (find_runner_up bids intent_id bid.agent_id)) [
          | inl e ↦
              let ends : run (suc n) k t bid
                  ≡ returned (report_intent_failure intent_id (tracked k t bid)) (some not_sent) =
                simp (create_and_send_task, p, r, f)
                  (rw (try_runner_up, lookup-insert_self id _ t.pending_tasks, q, e) refl) in
              absurd (ground (arith, sym ends ∙ h))
          | inr (next, e) ↦ (
            tracked k t bid,
            next,
            then_not_sent-unfinished (run n (suc k) (tracked k t bid) next)
                (sym (passes_on n k t bid next raw r p q f e) ∙ h),
          )
        ]
      ]

  -- An attempt is the last one, or the next one follows.
  run-step :
      (n k : ℕ) (t : SimpleTaskManager) (bid : Bid)
      → run (suc n) k t bid ≡ unfinished
      → (t' : SimpleTaskManager) × (next : Bid) × (run n (suc k) t' next ≡ unfinished)
  unfolding create_and_send_task try_runner_up
  run-step n k t bid h = elim (Bool-cases (is_past (sendings k).unix intent)) [
    | inl y ↦ absurd (run-past n k t bid y h)
    | inr p ↦ elim (Option-cases intent.params) [
      | inl r ↦
          let ends : run (suc n) k t bid ≡ panicked = simp (create_and_send_task, p, r) refl in
          absurd (ground (arith, sym ends ∙ h))
      | inr (raw, r) ↦ elim (Bool-cases ((sendings k).takes bid.agent_id)) [
        | inl f ↦
            let ends : run (suc n) k t bid ≡ returned (tracked k t bid) none =
              simp (create_and_send_task, p, r, f) refl in
            absurd (ground (arith, sym ends ∙ h))
        | inr f ↦ refused-step n k t bid raw r p f h
      ]
    ]
  ]

  run-ends :
      (j n k : ℕ) (t : SimpleTaskManager) (bid : Bid)
      → is_past (sendings (k + j)).unix intent ≡ true
      → j < n
      → ¬ (run n k t bid ≡ unfinished)
  run-ends j zero k t bid p l = absurd (omega (arith, l))
  run-ends zero (suc n) k t bid p l =
      run-past n k t bid (subst (λ x. is_past (sendings x).unix intent ≡ true) (omega arith) p)
  run-ends (suc j) (suc n) k t bid p l = λ h.
      let (t', next, g) = run-step n k t bid h in
      run-ends j n (suc k) t' next
        (subst (λ x. is_past (sendings x).unix intent ≡ true) (omega arith) p) (omega (arith, l)) g

  zero_fuel : (k : ℕ) (t : SimpleTaskManager) (bid : Bid) → run 0 k t bid ≡ unfinished
  unfolding create_and_send_task
  zero_fuel k t bid = refl

  candidates-next :
      (i j : ℕ) (a b : Bid) (excluded : String)
      → get_elem? (value_or [] (lookup intent_id bids)) i ≡ some a
      → get_elem? (value_or [] (lookup intent_id bids)) j ≡ some b
      → is_submitted a.status ≡ true
      → is_submitted b.status ≡ true
      → a.agent_id ≢ b.agent_id
      → is_some (find_runner_up bids intent_id excluded) ≡ true
  unfolding find_runner_up
  candidates-next i j a b excluded at_i at_j sa sb differ =
      elim (Bool-cases (a.agent_id == excluded)) [
        | inr n ↦ candidate-is_some excluded none _ i a at_i (ground (arith, n, sa))
        | inl y ↦ candidate-is_some excluded none _ j b at_j (
            ground (
              arith,
              sb,
              beq_ne b.agent_id excluded (λ e. differ (beq→eq a.agent_id excluded y ∙ sym e)),
            ))
      ]

-- Where an attempt would be made after the deadline, CreateAndSendTask returns or panics by then:
-- that many attempts and one more are enough, whoever takes tasks and whatever bids there are.
pub ends_at_deadline :
    (format_int : ℕ → String) (sendings : ℕ → Sending) (bids : Map String (List Bid))
    (intent_id : String) (intent : Intent) (t : SimpleTaskManager) (bid : Bid) (j n : ℕ)
    → is_past (sendings j).unix intent ≡ true
    → j < n
    → ¬ (create_and_send_task format_int sendings bids n 0 t intent_id bid intent ≡ unfinished)
ends_at_deadline format_int sendings bids intent_id intent t bid j n p l =
    run-ends format_int sendings bids intent_id intent j n 0 t bid
      (subst (λ x. is_past (sendings x).unix intent ≡ true) (omega arith) p) l

module _ (format_int : ℕ → String) (sendings : ℕ → Sending) (bids : Map String (List Bid))
    (intent_id : String) (intent : Intent) where
  -- An intent without a deadline that has parameters, submitted bids of two agents and no agent that
  -- takes a task: however many attempts are allowed, CreateAndSendTask has not returned after them.
  pub passed_on_forever :
      (raw : Bytes) (i j : ℕ) (a b : Bid) (n k : ℕ) (t : SimpleTaskManager) (bid : Bid)
      → intent.params ≡ some raw
      → intent.deadline ≡ 0
      → ((k : ℕ) (agent_id : String) → (sendings k).takes agent_id ≡ false)
      → get_elem? (value_or [] (lookup intent_id bids)) i ≡ some a
      → get_elem? (value_or [] (lookup intent_id bids)) j ≡ some b
      → is_submitted a.status ≡ true
      → is_submitted b.status ≡ true
      → a.agent_id ≢ b.agent_id
      → create_and_send_task format_int sendings bids n k t intent_id bid intent ≡ unfinished
  passed_on_forever raw i j a b zero k t bid params no_deadline refused at_i at_j sa sb differ =
      zero_fuel format_int sendings bids intent_id intent k t bid
  passed_on_forever raw i j a b (suc n) k t bid params no_deadline refused at_i at_j sa sb differ =
      elim (Option-cases (find_runner_up bids intent_id bid.agent_id)) [
        | inl e ↦ absurd (
            ground (
              arith,
              e,
              candidates-next format_int sendings bids intent_id intent i j a b bid.agent_id at_i
                  at_j sa sb differ,
            ))
        | inr (next, e) ↦
            passes_on format_int sendings bids intent_id intent n k t bid next raw params
              (ground (arith, no_deadline)) (ground (arith, no_deadline)) (refused k bid.agent_id) e
            ∙ ap (λ r. then_not_sent (ignore_error r))
                (passed_on_forever raw i j a b n (suc k) _ next params no_deadline refused at_i at_j
                  sa sb differ)
      ]
