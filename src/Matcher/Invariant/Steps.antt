-- ===== src/Matcher/Invariant/Steps.antt =====
-- Every call of the server as a step, the states that it reaches, and what holds in all of them.
use subnet.Prelude.{ℕ, String, Bool, Option, List, [], arith, text_Eq}
use subnet.Map.{lookup}
use subnet.Map.Each.{Each}
use subnet.Matcher.{Bid, Intent, Config, Server, Services, Attempt, new_server}
use subnet.Matcher.Windows.{add_intent}
use subnet.Matcher.Submission.{process_single_bid, submit_bid_batch}
use subnet.Matcher.Matching.{Selection, check_and_close_windows}
use subnet.Matcher.Tasks.{
  respond_to_task, try_assign_to_runner_up, register_agent_for_tasks, unregister_agent_for_tasks,
}
use subnet.Matcher.Selection.{IsCheapestFirst}
use subnet.Matcher.Invariant.{Inv}
use subnet.Matcher.Invariant.Calls.{add_intent-Inv, process-Inv, submit_bid_batch-Inv}
use subnet.Matcher.Invariant.Closing.{closing-Inv}
use subnet.Matcher.Invariant.Answers.{respond-Inv, runner_up-Inv, register-Inv, unregister-Inv}

module _ (v : Services) (verifier : Option (String → Option Bool)) (select : Selection) where
  -- One call, at any time and with any answers of the chain and the root layer. A runner-up may be
  -- sought at any moment for any agent. A batch with other calls between its bids is a step for each
  -- of its bids, and one without them a single step.
  pub data Step (s : Server) : Server → Type 0 where
    adds : (now : ℕ) (intent : Option Intent) → Step s (add_intent now s intent).0
    bids : (now : ℕ) (bid : Option Bid) → Step s (process_single_bid v verifier now s bid).0
    bids_in_batch :
        (clock : ℕ → ℕ) (batch : List Bid) (partial_ok : Option Bool)
        → Step s (submit_bid_batch v verifier clock (λ k t. t) s batch partial_ok).0
    closes :
        (calls : String → Attempt) (now : ℕ) → Step s (check_and_close_windows v select calls now s)
    responds :
        (task_id agent_id : String) (agreed : Bool)
        → Step s (respond_to_task s task_id agent_id agreed).0
    reassigns :
        (call : Attempt) (intent : Intent) (excluded : String)
        → Step s (try_assign_to_runner_up v call s intent excluded)
    registers : (agent_id : String) → Step s (register_agent_for_tasks s agent_id)
    unregisters : (agent_id : String) → Step s (unregister_agent_for_tasks s agent_id)

  pub data Reach (s : Server) : Server → Type 0 where
    here : Reach s s
    next : {t u : Server} → Reach s t → Step t u → Reach s u

  Step-Inv : {s t : Server} → IsCheapestFirst select → Inv s → Step s t → Inv t
  Step-Inv {s} c h (adds now intent) = add_intent-Inv now s intent h
  Step-Inv {s} c h (bids now bid) = process-Inv v verifier now s bid h
  Step-Inv {s} c h (bids_in_batch clock batch partial_ok) =
      submit_bid_batch-Inv v verifier clock (λ k t. t) s batch partial_ok (λ k t g. g) h
  Step-Inv {s} c h (closes calls now) = closing-Inv v select calls now s c h
  Step-Inv {s} c h (responds task_id agent_id agreed) = respond-Inv s task_id agent_id agreed h
  Step-Inv {s} c h (reassigns call intent excluded) = runner_up-Inv v call s intent excluded h
  Step-Inv {s} c h (registers agent_id) = register-Inv s agent_id h
  Step-Inv {s} c h (unregisters agent_id) = unregister-Inv s agent_id h

  pub Reach-Inv : {s t : Server} → IsCheapestFirst select → Inv s → Reach s t → Inv t
  Reach-Inv c h here = h
  Reach-Inv c h (next r step) = Step-Inv c (Reach-Inv c h r) step

nothing : {V : Type 0} (P : String → V → Type 0) → Each P []
unfolding lookup
nothing P k w f = absurd (ground (arith, f))

new_server-Inv :
    (cfg : Config) (address : String) (r k u : Bool) → Inv (new_server cfg address r k u)
unfolding new_server
new_server-Inv cfg address r k u = record {
  windows = nothing _;
  bids = nothing _;
  results = nothing _;
  pending = nothing _;
  confirmed = nothing _;
}

-- For a strategy that takes a cheapest bid: after any calls of a new server, windows are closed
-- exactly while their intents are matched, bids stand with their intents, a result is for a
-- matched intent and names one of its bids that no other bid undercuts, every assignment stands
-- under its identifier and goes to a chain address, and a pending one has its agent.
pub new_server-Reach :
    (v : Services) (verifier : Option (String → Option Bool)) (select : Selection) (cfg : Config)
    (address : String) (r k u : Bool) (s : Server)
    → IsCheapestFirst select
    → Reach v verifier select (new_server cfg address r k u) s
    → Inv s
new_server-Reach v verifier select cfg address r k u s c reached =
    Reach-Inv v verifier select c (new_server-Inv cfg address r k u) reached
