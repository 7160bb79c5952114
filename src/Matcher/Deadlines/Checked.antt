-- ===== src/Matcher/Deadlines/Checked.antt =====
-- The loop of `checkAndCloseWindows`.
use subnet.Prelude.{
  ℕ, ◌≤◌, ◌<◌, String, ◌≡◌, refl, sym, subst, ◌∙◌, ◌⊎◌, inl, inr, Bool, true, false, ◌||◌, Option,
  none, some, List, [], ◌∷◌, arith, leb, leb-false→lt, text_Eq, ◌==◌, Bool-cases, Option-cases,
  value_or, some_eq, is_empty, beq_refl, beq→eq,
}
use subnet.Map.{Map, lookup, insert}
use subnet.Map.Each.{Each}
use subnet.Matcher.{IntentWithWindow, Server, Services, Attempt}
use subnet.Matcher.Windows.{broadcast_intent_update}
use subnet.Matcher.Matching.{
  Selection, create_assignment, set_matched, set_closed, store_result, perform_matching,
  close_window, check_window, check_windows, check_and_close_windows, keys,
}
use subnet.Matcher.Invariant.{IsSettledWindow}
use subnet.Matcher.Invariant.Writes.{written, untouched}
use subnet.Matcher.Deadlines.{
  IsTimely, IsClosed, Keeps, Keeps-refl, Keeps-trans, IsClosed-IsTimely, Closes, create-Closes,
}

abbrev closed : IntentWithWindow → IntentWithWindow
closed w = record w { window_closed = true }

abbrev done : IntentWithWindow → IntentWithWindow
done w = record w { window_closed = true; matched = true }

-- The writes before an assignment: the window is closed, then matched.
settled-Keeps :
    (s : Server) (id : String) (w : IntentWithWindow)
    → Keeps id s (set_matched (set_closed s id w) id (closed w))
settled-Keeps s id w = record {
  cfg = refl;
  others = λ k d.
      untouched id k (done w) (insert id (closed w) s.intents) d
      ∙ untouched id k (closed w) s.intents d;
}

settled-IsClosed :
    (s : Server) (id : String) (w : IntentWithWindow)
    → IsClosed (set_matched (set_closed s id w) id (closed w)) id
settled-IsClosed s id w u e =
    let same : done w ≡ u =
      some_eq (sym (written id id (done w) (insert id (closed w) s.intents) (beq_refl id)) ∙ e) in
    subst (λ x. x.window_closed ≡ true) same refl

broadcast-Closes :
    (now later : ℕ) (s t : Server) (id kind : String)
    → Closes now id s t
    → Closes now id s (broadcast_intent_update later t id kind)
unfolding broadcast_intent_update
broadcast-Closes now later s t id kind (k, h) = (record { cfg = k.cfg; others = k.others }, h)

matching-Closes :
    (now : ℕ) (v : Services) (select : Selection) (call : Attempt) (s : Server) (id : String)
    (w : IntentWithWindow)
    → now ≤ call.failed_at
    → 0 < s.cfg.bidding_window_sec
    → Closes now id s (perform_matching v select call (set_closed s id w) id (closed w))
unfolding perform_matching
matching-Closes now v select call s id w l p =
    let bids = value_or [] (lookup id s.bids_by_intent) in
    let k = settled-Keeps s id w in
    let c = settled-IsClosed s id w in
    let t = IsClosed-IsTimely now (set_matched (set_closed s id w) id (closed w)) id c in
    elim (Bool-cases (is_empty bids)) [
      | inl y ↦ rw (perform_matching, y) (k, t)
      | inr n ↦ elim (Option-cases (select w.intent bids)) [
        | inl f ↦ rw (perform_matching, n, f) (k, t)
        | inr ((winner, runner_ups), f) ↦
            let stored = store_result v call (set_closed s id w) id (closed w) winner runner_ups in
            let kept : Keeps id s stored = record { cfg = refl; others = k.others } in
            let (j, u) = create-Closes now v call stored id winner l p c in
            rw (perform_matching, n, f)
              (broadcast-Closes now call.unix s (create_assignment v call stored id winner) id
                "MATCHED"
                (Keeps-trans id s stored (create_assignment v call stored id winner) kept j, u))
      ]
    ]

abbrev mentions : String → List String → Bool
mentions k [] = false
mentions k (id ∷ ids) = id == k || mentions k ids

missing :
    (k : String) (m : Map String IntentWithWindow)
    → (lookup k m ≡ none) ⊎ (mentions k (keys m) ≡ true)
unfolding lookup
missing k [] = inl refl
missing k ((j, w) ∷ m) = ground (arith, missing k m)

module _ (v : Services) (select : Selection) (calls : String → Attempt) (now : ℕ)
    (later : (id : String) → now ≤ (calls id).failed_at) where
  closing-Closes :
      (s : Server) (id : String) (w : IntentWithWindow)
      → 0 < s.cfg.bidding_window_sec
      → Closes now id s (close_window v select (calls id) now s id w)
  closing-Closes s id w p =
      broadcast-Closes now now s
        (perform_matching v select (calls id) (set_closed s id w) id (closed w)) id "WINDOW_CLOSED"
        (matching-Closes now v select (calls id) s id w (later id) p)

  -- A round for an intent whose window is settled, or that is timely already.
  round-Closes :
      (s : Server) (id : String) (o : Option IntentWithWindow)
      → lookup id s.intents ≡ o
      → 0 < s.cfg.bidding_window_sec
      → ((w : IntentWithWindow) → lookup id s.intents ≡ some w → w.window_closed ≡ w.matched)
        ⊎ IsTimely now s id
      → Closes now id s (check_window v select calls now s id)
  unfolding check_window
  round-Closes s id none e p h =
      rw (check_window, e) (Keeps-refl id s, λ w f o. absurd (ground (arith, sym e ∙ f)))
  round-Closes s id (some w) e p h = elim (Bool-cases (w.window_closed || w.matched)) [
    | inl t ↦
        rw (check_window, e, t)
          (
            Keeps-refl id s,
            elim h [
              | inr timely ↦ timely
              | inl settled ↦ λ u f o.
                  let same : w ≡ u = some_eq (sym e ∙ f) in
                  absurd (
                    ground
                      (arith, settled w e, t, subst (λ x. x.window_closed ≡ false) (sym same) o))
            ],
          )
    | inr n ↦ elim (Bool-cases (leb w.bidding_end_time now)) [
      | inl t ↦ rw (check_window, e, n, t) (closing-Closes s id w p)
      | inr f ↦
          rw (check_window, e, n, f)
            (
              Keeps-refl id s,
              λ u g o.
                  subst (λ x. now < x.bidding_end_time) (some_eq (sym e ∙ g))
                    (leb-false→lt w.bidding_end_time now f),
            )
    ]
  ]

  -- What the rounds so far have to know of one intent.
  abbrev Known : Server → String → Type 0
  Known s k =
      ((w : IntentWithWindow) → lookup k s.intents ≡ some w → w.window_closed ≡ w.matched)
      ⊎ IsTimely now s k

  Known-moved :
      (s t : Server) (id k : String) → Keeps id s t → (id == k) ≡ false → Known s k → Known t k
  Known-moved s t id k h d (inl settled) = inl (λ w f. settled w (sym (h.others k d) ∙ f))
  Known-moved s t id k h d (inr timely) = inr (λ w f. timely w (sym (h.others k d) ∙ f))

  -- A round leaves every intent known, and the own one timely.
  round-Known :
      (s : Server) (id k : String)
      → 0 < s.cfg.bidding_window_sec
      → Known s id
      → Known s k
      → Known (check_window v select calls now s id) k
  round-Known s id k p h g =
      let (kept, timely) = round-Closes s id (lookup id s.intents) refl p h in
      elim (Bool-cases (id == k)) [
        | inl y ↦
            inr (subst (IsTimely now (check_window v select calls now s id)) (beq→eq id k y) timely)
        | inr d ↦ Known-moved s (check_window v select calls now s id) id k kept d g
      ]

  round-IsTimely :
      (s : Server) (id k : String)
      → 0 < s.cfg.bidding_window_sec
      → Known s id
      → IsTimely now s k
      → IsTimely now (check_window v select calls now s id) k
  round-IsTimely s id k p h g =
      let (kept, timely) = round-Closes s id (lookup id s.intents) refl p h in
      elim (Bool-cases (id == k)) [
        | inl y ↦ subst (IsTimely now (check_window v select calls now s id)) (beq→eq id k y) timely
        | inr d ↦ λ w f. g w (sym (kept.others k d) ∙ f)
      ]

  rounds-IsTimely :
      (s : Server) (ids : List String) (k : String)
      → 0 < s.cfg.bidding_window_sec
      → ((j : String) → Known s j)
      → (mentions k ids ≡ true) ⊎ IsTimely now s k
      → IsTimely now (check_windows v select calls now s ids) k
  unfolding check_windows
  rounds-IsTimely s [] k p known (inl m) = absurd (ground (arith, m))
  rounds-IsTimely s [] k p known (inr t) = t
  rounds-IsTimely s (id ∷ ids) k p known h =
      let after = check_window v select calls now s id in
      let (kept, timely) = round-Closes s id (lookup id s.intents) refl p (known id) in
      rounds-IsTimely after ids k (subst (λ c. 0 < c.bidding_window_sec) (sym kept.cfg) p)
        (λ j. round-Known s id j p (known id) (known j))
        (elim h [
          | inr t ↦ inr (round-IsTimely s id k p (known id) t)
          | inl m ↦ elim (Bool-cases (id == k)) [
            | inl y ↦ inr (subst (IsTimely now after) (beq→eq id k y) timely)
            | inr d ↦ inl (ground (arith, m, d))
          ]
        ])

-- If the clock does not run back and the bidding window is positive, then once the windows were
-- checked at an instant, every window that is open ends after that instant, whatever the chain and
-- the root layer answered, where before the windows were closed exactly for matched intents.
pub check_and_close_windows_lem :
    (v : Services) (select : Selection) (calls : String → Attempt) (now : ℕ) (s : Server)
    (id : String) (w : IntentWithWindow)
    → ((other : String) → now ≤ (calls other).failed_at)
    → 0 < s.cfg.bidding_window_sec
    → Each IsSettledWindow s.intents
    → lookup id (check_and_close_windows v select calls now s).intents ≡ some w
    → w.window_closed ≡ false
    → now < w.bidding_end_time
unfolding check_and_close_windows
check_and_close_windows_lem v select calls now s id w later p settled =
    rounds-IsTimely v select calls now later s (keys s.intents) id p (λ j. inl (settled j))
      (elim (missing id s.intents) [
        | inl n ↦ inr (λ w f. absurd (ground (arith, sym n ∙ f)))
        | inr y ↦ inl y
      ])
      w
