-- ===== src/Consensus/Leader/Rotation.antt =====
-- The rotation of leaders over the epochs.
use subnet.Prelude.{
  ℕ, ◌+◌, ◌-◌, ◌*◌, ◌/◌, ◌%◌, ◌≤◌, ◌<◌, ◌≡◌, ap, ◌∙◌, ◌≢◌, inl, inr, some, arith, ltb, leb, ltb→lt,
  leb→le, leb-false→lt, nat_eq, Bool-cases, length,
}
use native.Mathlib.Nat.{
  mod-lt, mod-add-mod, div-add-mod, mul-add-mod_self_left, mod-eq_of_lt, mod-eq-sub-mod,
}
use subnet.Validators.{ValidatorSet}
use subnet.Consensus.Leader.{select_leader, select_backup}

-- With a validator in the set, the leader's index lies in the set, and the backup is the leader of
-- the next epoch.
pub backup_leads_next :
    (vs : ValidatorSet) (epoch : ℕ)
    → 0 < length vs.validators
    → (i : ℕ) × (select_leader epoch vs ≡ some i)
      × (i < length vs.validators)
      × (select_backup epoch vs ≡ select_leader (epoch + 1) vs)
unfolding select_leader select_backup
backup_leads_next vs epoch h = (
  epoch % length vs.validators,
  ground arith,
  mod-lt epoch h,
  ground (arith, mod-add-mod epoch (length vs.validators) 1),
)

-- Moving on by `k` epochs from a leader `m` reaches validator `i`.
reaches_index :
    (epoch n i k : ℕ) → i < n → 0 < n → (c : ℕ) → epoch + k ≡ n * c + i → (epoch + k) % n ≡ i
reaches_index epoch n i k lt pos c e = rw (e, mul-add-mod_self_left n c i) (mod-eq_of_lt lt)

-- Any run of as many epochs as there are validators gives each of them a turn.
pub rotation_fair :
    (vs : ValidatorSet) (epoch i : ℕ)
    → i < length vs.validators
    → (k : ℕ) × (k < length vs.validators) × (select_leader (epoch + k) vs ≡ some i)
unfolding select_leader
rotation_fair vs epoch i h =
    let n = length vs.validators in
    let pos : 0 < n = omega arith in
    let split = div-add-mod epoch n in
    elim (Bool-cases (leb (epoch % n) i)) [
      | inl y ↦ (
        i - epoch % n,
        omega arith,
        ground (
          arith,
          reaches_index epoch n i (i - epoch % n) h pos (epoch / n)
              (omega (arith, split, leb→le _ _ y)),
        ),
      )
      | inr x ↦ (
        n + i - epoch % n,
        omega (arith, leb-false→lt _ _ x, mod-lt epoch pos),
        ground (
          arith,
          reaches_index epoch n i (n + i - epoch % n) h pos (epoch / n + 1)
              (omega (arith, split, mod-lt epoch pos)),
        ),
      )
    ]

-- A step of less than `n` changes the remainder.
mod_moves : (a d n : ℕ) → 0 < d → d < n → (a + d) % n ≢ a % n
mod_moves a d n pos lt e =
    let r = a % n in
    let below : r < n = mod-lt a (omega arith) in
    let step : (r + d) % n ≡ r = mod-add-mod a n d ∙ e in
    elim (Bool-cases (ltb (r + d) n)) [
      | inl y ↦ omega (arith, step, mod-eq_of_lt (ltb→lt (r + d) n y))
      | inr x ↦
          let past : n ≤ r + d = ground (arith, x) in
          omega (arith, step, mod-eq-sub-mod past, mod-eq_of_lt (fits r past below))
    ]
  where
    fits : (r : ℕ) → n ≤ r + d → r < n → r + d - n < n
    fits r p q = omega arith

-- Within as many consecutive epochs as there are validators, no validator leads twice.
pub rotation_once :
    (vs : ValidatorSet) (epoch i j k : ℕ)
    → j < k
    → k < length vs.validators
    → select_leader (epoch + j) vs ≡ some i
    → select_leader (epoch + k) vs ≢ some i
unfolding select_leader
rotation_once vs epoch i j k lt h p q =
    mod_moves (epoch + j) (k - j) (length vs.validators) (omega arith) (omega arith) (
      ap (λ (t : ℕ). t % length vs.validators) {x = epoch + j + (k - j)} {y = epoch + k}
        (omega arith)
      ∙ ground arith)
