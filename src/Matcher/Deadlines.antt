-- ===== src/Matcher/Deadlines.antt =====
-- After the windows were checked, no window past its end is open.
pub mod Checked
use subnet.Prelude.{
  ℕ, ◌≤◌, ◌<◌, String, ◌≡◌, refl, sym, subst, ◌∙◌, inl, inr, true, false, not, ◌&&◌, Option, none,
  some, arith, text_Eq, ◌==◌, Bool-cases, Option-cases, some_eq, beq_refl,
}
use subnet.Map.{Map, lookup, insert, delete}
use subnet.Map.Each.{Each}
use subnet.Matcher.{
  Bid, Intent, IntentWithWindow, ExecutionTask, Assignment, Config, Server, Services, Attempt,
}
use subnet.Matcher.Windows.{
  intent_expired, broadcast_intent_update, open_window, reset_intent_window, drop_intent,
  cleanup_pending_assignment, give_up_or_retry, handle_assignment_failure,
}
use subnet.Matcher.Submission.{extract_chain_address}
use subnet.Matcher.Matching.{
  Selection, send_task_to_agent, submit_assignment, create_assignment, is_chain_address,
  store_pending, root_assignment, execution_task, new_assignment_id, set_matched, set_closed,
  store_result, perform_matching, close_window, check_window, check_windows,
  check_and_close_windows, keys,
}
use subnet.Matcher.Invariant.{IsSettledWindow}
use subnet.Matcher.Invariant.Writes.{written, untouched, deleted, undeleted}

-- An open window of the intent ends later.
abbrev pub IsTimely : ℕ → Server → String → Type 0
IsTimely now s id =
    (w : IntentWithWindow)
    → lookup id s.intents ≡ some w
    → w.window_closed ≡ false
    → now < w.bidding_end_time

abbrev pub IsClosed : Server → String → Type 0
IsClosed s id = (w : IntentWithWindow) → lookup id s.intents ≡ some w → w.window_closed ≡ true

-- The windows of the other intents and the configuration stay.
pub record Keeps (id : String) (s t : Server) : Type 0 where
  pub cfg : t.cfg ≡ s.cfg
  pub others : (k : String) → (id == k) ≡ false → lookup k t.intents ≡ lookup k s.intents

pub Keeps-refl : (id : String) (s : Server) → Keeps id s s
Keeps-refl id s = record { cfg = refl; others = λ k d. refl }

pub Keeps-trans : (id : String) (s t u : Server) → Keeps id s t → Keeps id t u → Keeps id s u
Keeps-trans id s t u h k = record {
  cfg = k.cfg ∙ h.cfg;
  others = λ j d. k.others j d ∙ h.others j d;
}

pub IsClosed-IsTimely : (now : ℕ) (s : Server) (id : String) → IsClosed s id → IsTimely now s id
IsClosed-IsTimely now s id c w e o = absurd (ground (arith, c w e, o))

-- The result of an operation on one intent: the others stay, and this one is timely.
abbrev pub Closes : ℕ → String → Server → Server → Type 0
Closes now id s t = Keeps id s t × IsTimely now t id

drop-Closes : (now : ℕ) (s : Server) (id : String) → Closes now id s (drop_intent s id)
unfolding drop_intent
drop-Closes now s id = (
  record { cfg = refl; others = λ k d. undeleted id k s.intents d },
  λ w e o. absurd (ground (arith, sym (deleted id id s.intents (beq_refl id)) ∙ e)),
)

reset-Closes :
    (now later : ℕ) (s : Server) (id : String) (o : Option IntentWithWindow)
    → lookup id s.intents ≡ o
    → now ≤ later
    → 0 < s.cfg.bidding_window_sec
    → Closes now id s (reset_intent_window later s id)
unfolding reset_intent_window
reset-Closes now later s id none e l p =
    rw (reset_intent_window, e) (Keeps-refl id s, λ w f o. absurd (ground (arith, sym e ∙ f)))
reset-Closes now later s id (some window) e l p =
    let fresh = open_window later s.cfg.bidding_window_sec window.intent in
    rw (reset_intent_window, e)
      (
        record { cfg = refl; others = λ k d. untouched id k fresh s.intents d },
        λ w f o.
            let same : fresh ≡ w =
              some_eq (sym (written id id fresh s.intents (beq_refl id)) ∙ f) in
            subst (λ u. now < u.bidding_end_time) same (omega (arith, l, p)),
      )

retry-Closes :
    (now later : ℕ) (s : Server) (id : String) (o : Option IntentWithWindow)
    → lookup id s.intents ≡ o
    → now ≤ later
    → 0 < s.cfg.bidding_window_sec
    → Closes now id s (give_up_or_retry later s id)
retry-Closes now later s id none e l p =
    rw (give_up_or_retry, e) (Keeps-refl id s, λ w f o. absurd (ground (arith, sym e ∙ f)))
retry-Closes now later s id (some w) e l p = elim (Bool-cases (intent_expired w.intent later)) [
  | inl y ↦ rw (give_up_or_retry, e, y) (drop-Closes now s id)
  | inr n ↦ rw (give_up_or_retry, e, n) (reset-Closes now later s id (some w) e l p)
]

failure-Closes :
    (now later : ℕ) (s : Server) (id assignment_id : String)
    → now ≤ later
    → 0 < s.cfg.bidding_window_sec
    → Closes now id s (handle_assignment_failure later s id assignment_id)
unfolding handle_assignment_failure cleanup_pending_assignment
failure-Closes now later s id assignment_id l p =
    let (k, t) = retry-Closes now later s id (lookup id s.intents) refl l p in
    (record { cfg = k.cfg; others = k.others }, t)

send-Closes :
    (now : ℕ) (s : Server) (id agent : String) (task : ExecutionTask)
    → IsClosed s id
    → Closes now id s (send_task_to_agent s agent task)
unfolding send_task_to_agent
send-Closes now s id agent task c = elim (Option-cases (lookup agent s.agent_tasks)) [
  | inl n ↦ rw (send_task_to_agent, n) (Keeps-refl id s, IsClosed-IsTimely now s id c)
  | inr (ch, y) ↦
      rw (send_task_to_agent, y)
        (record { cfg = refl; others = λ k d. refl }, IsClosed-IsTimely now s id c)
]

submit-Closes :
    (now : ℕ) (call : Attempt) (s : Server) (id : String) (task : ExecutionTask)
    → now ≤ call.failed_at
    → 0 < s.cfg.bidding_window_sec
    → IsClosed s id
    → Closes now id s (submit_assignment call s id task)
unfolding submit_assignment
submit-Closes now call s id task l p c =
    elim (Bool-cases (s.cfg.enable_chain_submit && s.has_sdk_client && not call.chain_accepts)) [
      | inl y ↦ rw (submit_assignment, y) (failure-Closes now call.failed_at s id task.task_id l p)
      | inr n ↦ elim (Bool-cases (s.has_rootlayer_client && call.rootlayer_accepts)) [
        | inl y ↦ rw (submit_assignment, n, y) (send-Closes now s id task.agent_id task c)
        | inr m ↦
            rw (submit_assignment, n, m) (failure-Closes now call.failed_at s id task.task_id l p)
      ]
    ]

pub create-Closes :
    (now : ℕ) (v : Services) (call : Attempt) (s : Server) (id : String) (bid : Bid)
    → now ≤ call.failed_at
    → 0 < s.cfg.bidding_window_sec
    → IsClosed s id
    → Closes now id s (create_assignment v call s id bid)
unfolding create_assignment
create-Closes now v call s id bid l p c = elim (Option-cases (lookup id s.intents)) [
  | inl n ↦ rw (create_assignment, n) (Keeps-refl id s, IsClosed-IsTimely now s id c)
  | inr (w, y) ↦ elim (Bool-cases (is_chain_address (extract_chain_address v bid))) [
    | inr n ↦ rw (create_assignment, y, n) (Keeps-refl id s, IsClosed-IsTimely now s id c)
    | inl h ↦
        let name = new_assignment_id v call.unix_nano id bid.bid_id in
        let a = root_assignment v call s name id bid (extract_chain_address v bid) in
        let (k, t) =
          submit-Closes now call (store_pending call s a bid w.intent) id
            (execution_task call name id bid w.intent) l p c in
        rw (create_assignment, y, h) (record { cfg = k.cfg; others = k.others }, t)
  ]
]
