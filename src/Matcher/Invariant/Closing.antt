-- ===== src/Matcher/Invariant/Closing.antt =====
-- The closing of windows and the matching keep the invariant.
use subnet.Prelude.{
  ℕ, ◌≤◌, String, ◌≡◌, refl, sym, ap, subst, ◌∙◌, inl, inr, true, ◌||◌, List, [], ◌∷◌, leb, text_Eq,
  ◌==◌, Bool-cases, Option-cases, value_or, some_eq, is_empty, All,
}
use subnet.Map.{lookup, insert, lookup-insert_self}
use subnet.Map.Each.{Each, Each-insert}
use subnet.Matcher.{Bid, IntentWithWindow, Server, Services, Attempt}
use subnet.Matcher.Matching.{
  Selection, set_matched, set_closed, store_result, perform_matching, check_window, check_windows,
  check_and_close_windows, keys, matching_result,
}
use subnet.Matcher.Selection.{Any, Any-mono, IsCheapestFirst}
use subnet.Matcher.Invariant.{IsSettledWindow, IsResult, Inv}
use subnet.Matcher.Invariant.Writes.{written, untouched}
use subnet.Matcher.Invariant.Assigning.{broadcast-Inv, create-Inv}

abbrev closed : IntentWithWindow → IntentWithWindow
closed w = record w { window_closed = true }

abbrev done : IntentWithWindow → IntentWithWindow
done w = record w { window_closed = true; matched = true }

-- An intent whose window was just closed becomes matched.
settled-Inv :
    (s : Server) (id : String) (w : IntentWithWindow)
    → Inv s
    → Inv (set_matched (set_closed s id w) id (closed w))
settled-Inv s id w v =
    let twice : Each IsSettledWindow (insert id (done w) (insert id (closed w) s.intents)) =
      λ k u f. elim (Bool-cases (id == k)) [
        | inl y ↦
            let e : done w ≡ u =
              some_eq (sym (written id k (done w) (insert id (closed w) s.intents) y) ∙ f) in
            subst (λ x. x.window_closed ≡ x.matched) e refl
        | inr d ↦ v.windows k u (
            sym (untouched id k (closed w) s.intents d)
            ∙ (sym (untouched id k (done w) (insert id (closed w) s.intents) d) ∙ f))
      ] in
    let results : Each
        (IsResult (insert id (done w) (insert id (closed w) s.intents)) s.bids_by_intent)
        s.matching_results =
      λ k r f.
        let (e, m, n) = v.results k r f in
        (
          e,
          elim (Bool-cases (id == k)) [
            | inl y ↦ (done w, written id k (done w) (insert id (closed w) s.intents) y, refl)
            | inr d ↦ (
              m.0,
              untouched id k (done w) (insert id (closed w) s.intents) d
                  ∙ (untouched id k (closed w) s.intents d ∙ m.1),
              m.2,
            )
          ],
          n,
        ) in
    record {
      windows = twice;
      bids = v.bids;
      results = results;
      pending = v.pending;
      confirmed = v.confirmed;
    }

-- The result of a strategy that takes a cheapest bid is stored.
store_result-Inv :
    (v : Services) (call : Attempt) (s : Server) (id : String) (w : IntentWithWindow) (winner : Bid)
    (runner_ups : List Bid)
    → (Any (λ bid. bid ≡ winner) (value_or [] (lookup id s.bids_by_intent))
        × All (λ bid. winner.price ≤ bid.price) (value_or [] (lookup id s.bids_by_intent)))
    → Inv s
    → Inv (store_result v call (set_closed s id w) id (closed w) winner runner_ups)
store_result-Inv v call s id w winner runner_ups c h =
    let u = settled-Inv s id w h in
    let intents = insert id (done w) (insert id (closed w) s.intents) in
    let result = matching_result v call (set_closed s id w) id winner runner_ups in
    record {
      windows = u.windows;
      bids = u.bids;
      results =
          Each-insert (IsResult intents s.bids_by_intent) id result s.matching_results
            (
              refl,
              (done w, lookup-insert_self id (done w) (insert id (closed w) s.intents), refl),
              (
                winner.price,
                Any-mono (λ bid. bid ≡ winner)
                    (λ bid.
                      (bid.bid_id ≡ winner.bid_id)
                      × (bid.agent_id ≡ winner.agent_id)
                      × (bid.price ≡ winner.price))
                    (value_or [] (lookup id s.bids_by_intent))
                    (λ bid e. (ap (λ b. b.bid_id) e, ap (λ b. b.agent_id) e, ap (λ b. b.price) e))
                    c.0,
                c.1,
              ),
            )
            u.results;
      pending = u.pending;
      confirmed = u.confirmed;
    }

matching-Inv :
    (v : Services) (select : Selection) (call : Attempt) (s : Server) (id : String)
    (w : IntentWithWindow)
    → IsCheapestFirst select
    → Inv s
    → Inv (perform_matching v select call (set_closed s id w) id (closed w))
unfolding perform_matching
matching-Inv v select call s id w c h =
    let bids = value_or [] (lookup id s.bids_by_intent) in
    elim (Bool-cases (is_empty bids)) [
      | inl y ↦ rw (perform_matching, y) (settled-Inv s id w h)
      | inr n ↦ elim (Option-cases (select w.intent bids)) [
        | inl f ↦ rw (perform_matching, n, f) (settled-Inv s id w h)
        | inr ((winner, runner_ups), f) ↦
            rw (perform_matching, n, f)
              (broadcast-Inv call.unix _ id "MATCHED" (
                create-Inv v call
                  (store_result v call (set_closed s id w) id (closed w) winner runner_ups) id
                  winner
                  (store_result-Inv v call s id w winner runner_ups
                    (c w.intent bids winner runner_ups f) h)))
      ]
    ]

check_window-Inv :
    (v : Services) (select : Selection) (calls : String → Attempt) (now : ℕ) (s : Server)
    (id : String)
    → IsCheapestFirst select
    → Inv s
    → Inv (check_window v select calls now s id)
unfolding check_window
check_window-Inv v select calls now s id c h = elim (Option-cases (lookup id s.intents)) [
  | inl n ↦ rw (check_window, n) h
  | inr (w, y) ↦ elim (Bool-cases (w.window_closed || w.matched)) [
    | inl t ↦ rw (check_window, y, t) h
    | inr f ↦ elim (Bool-cases (leb w.bidding_end_time now)) [
      | inr n ↦ rw (check_window, y, f, n) h
      | inl t ↦
          rw (check_window, y, f, t)
            (broadcast-Inv now
              (perform_matching v select (calls id) (set_closed s id w) id (closed w)) id
              "WINDOW_CLOSED" (matching-Inv v select (calls id) s id w c h))
    ]
  ]
]

check_windows-Inv :
    (v : Services) (select : Selection) (calls : String → Attempt) (now : ℕ) (s : Server)
    (ids : List String)
    → IsCheapestFirst select
    → Inv s
    → Inv (check_windows v select calls now s ids)
unfolding check_windows
check_windows-Inv v select calls now s [] c h = h
check_windows-Inv v select calls now s (id ∷ ids) c h =
    check_windows-Inv v select calls now (check_window v select calls now s id) ids c
      (check_window-Inv v select calls now s id c h)

pub closing-Inv :
    (v : Services) (select : Selection) (calls : String → Attempt) (now : ℕ) (s : Server)
    → IsCheapestFirst select
    → Inv s
    → Inv (check_and_close_windows v select calls now s)
unfolding check_and_close_windows
closing-Inv v select calls now s c h = check_windows-Inv v select calls now s (keys s.intents) c h
