-- ===== src/Consensus/Leader/Failover.antt =====
-- When the tracker lets the backup take over.
use subnet.Prelude.{
  ℕ, ◌-◌, ◌≡◌, refl, sym, subst, ◌∙◌, ◌≢◌, ◌⊎◌, inl, inr, Bool, true, false, not, ◌&&◌, none, some,
  List, [], ◌∷◌, arith, leb, ◌==◌, nat_eq, Bool-cases, beq→eq,
}
use subnet.Consensus.Leader.{
  Tracker, move_to_epoch, leader, backup, record_activity, should_failover,
}

-- The calls that ask the tracker, each for an epoch.
pub data Query : Type 0 where
  asks_leader : ℕ → Query
  asks_backup : ℕ → Query
  asks_failover : ℕ → ℕ → Query

abbrev ask : Tracker → Query → Tracker
ask lt (asks_leader epoch) = (leader lt epoch).0
ask lt (asks_backup epoch) = (backup lt epoch).0
ask lt (asks_failover epoch now) = (should_failover lt epoch now).0

abbrev pub ask_all : Tracker → List Query → Tracker
ask_all lt [] = lt
ask_all lt (q ∷ qs) = ask_all (ask lt q) qs

abbrev epoch_of : Query → ℕ
epoch_of (asks_leader epoch) = epoch
epoch_of (asks_backup epoch) = epoch
epoch_of (asks_failover epoch now) = epoch

abbrev pub all_for : ℕ → List Query → Bool
all_for epoch [] = true
all_for epoch (q ∷ qs) = epoch_of q == epoch && all_for epoch qs

ask_same : (lt : Tracker) (q : Query) → epoch_of q ≡ lt.epoch → ask lt q ≡ lt
unfolding leader backup should_failover move_to_epoch
ask_same lt (asks_leader epoch) e = ground arith
ask_same lt (asks_backup epoch) e = ground arith
ask_same lt (asks_failover epoch now) e = ground arith

-- Without a heartbeat, or with the timeout off, no question brings one back.
abbrev IsSilent : Tracker → Type 0
IsSilent lt = (lt.timeout ≡ 0) ⊎ (lt.last_beat ≡ none)

ask-IsSilent : (lt : Tracker) (q : Query) → IsSilent lt → IsSilent (ask lt q)
unfolding leader backup should_failover move_to_epoch
ask-IsSilent lt (asks_leader epoch) s = ground arith
ask-IsSilent lt (asks_backup epoch) s = ground arith
ask-IsSilent lt (asks_failover epoch now) s = ground arith

ask_other : (lt : Tracker) (q : Query) → epoch_of q ≢ lt.epoch → IsSilent (ask lt q)
unfolding leader backup should_failover move_to_epoch
ask_other lt (asks_leader epoch) n = ground arith
ask_other lt (asks_backup epoch) n = ground arith
ask_other lt (asks_failover epoch now) n = ground arith

ask_all-IsSilent : (lt : Tracker) (qs : List Query) → IsSilent lt → IsSilent (ask_all lt qs)
ask_all-IsSilent lt [] s = s
ask_all-IsSilent lt (q ∷ qs) s = ask_all-IsSilent (ask lt q) qs (ask-IsSilent lt q s)

silent_holds :
    (lt : Tracker) (epoch now : ℕ) → IsSilent lt → (should_failover lt epoch now).1 ≡ false
unfolding should_failover
silent_holds lt epoch now s = ground arith

failover_now :
    (lt : Tracker) (epoch ts now : ℕ)
    → lt.epoch ≡ epoch
    → lt.last_beat ≡ some ts
    → (should_failover lt epoch now).1 ≡ (not (lt.timeout == 0) && leb lt.timeout (now - ts))
unfolding should_failover
failover_now lt epoch ts now e b = ground arith

abbrev Expected : Tracker → Tracker → ℕ → ℕ → ℕ → List Query → Type 0
Expected lt t epoch ts now qs =
    (should_failover (ask_all t qs) epoch now).1
    ≡ (all_for epoch qs && (not (lt.timeout == 0) && leb lt.timeout (now - ts)))

failover_from :
    (lt : Tracker) (epoch ts now : ℕ) (qs : List Query)
    → lt.epoch ≡ epoch
    → lt.last_beat ≡ some ts
    → Expected lt lt epoch ts now qs
failover_from lt epoch ts now [] e b = failover_now lt epoch ts now e b
failover_from lt epoch ts now (q ∷ qs) e b = elim (Bool-cases (epoch_of q == epoch)) [
  | inl y ↦ rw y (
      subst (λ t. Expected lt t epoch ts now qs) (sym (ask_same lt q (beq→eq _ _ y ∙ sym e)))
        (failover_from lt epoch ts now qs e b))
  | inr n ↦ rw n (
      silent_holds _ epoch now
        (ask_all-IsSilent (ask lt q) qs (ask_other lt q (λ p. ground (arith, p)))))
]

-- After activity at `ts`, and whatever questions for leaders, backups and failovers follow, the
-- backup may take over at `now` exactly if the timeout is on, has passed since `ts`, and every
-- question was about the same epoch: one about another epoch forgets the activity.
pub failover_iff :
    (lt : Tracker) (epoch ts now : ℕ) (qs : List Query)
    → (should_failover (ask_all (record_activity lt epoch ts) qs) epoch now).1
      ≡ (all_for epoch qs && (not (lt.timeout == 0) && leb lt.timeout (now - ts)))
unfolding record_activity
failover_iff lt epoch ts now qs =
    failover_from (record_activity lt epoch ts) epoch ts now qs refl refl
