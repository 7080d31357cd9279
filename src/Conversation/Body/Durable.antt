-- ===== src/Conversation/Body/Durable.antt =====
-- shookie/src/slack/conversation-runtime.ts: a run that succeeds has its turn in the database.
use shookie.Prelude.{
  ℕ, String, Bool, true, false, Option, none, some, List, [], ◌∷◌, ◌++◌, ◌≡◌, ◌⊎◌, inl, inr, refl,
  sym, ◌∙◌, arith, Bool-cases, Option-cases, not, eq_iff, is_some,
}
use shookie.Prelude.Maps.{lookup}
use shookie.Cancellation.Control.{
  Control, Outcome, ExecutionState, running, committing, committed, settled, done, failed, cancel,
  fire_timer, checkpoint, end_operation, begin_commit, end_commit,
}
use shookie.Conversation.Memory.{
  Message, Budgeted, ok, input_too_large, budget_messages, get, recent_turns,
}
use shookie.Conversation.Repository.{
  Event, Turn, TurnRow, Database, claim, complete, fail, has_turn, recent,
}
use shookie.Conversation.Body.{
  World, State, Statement, acknowledged, rejected, unacknowledged, Outside, cancels, fires, Script,
  returns, throws, commits, Ended, resolved, threw, apply_outside, advance, effect, has_failed,
  remember, persist_turn, commit_turn, run_script, end_script, check, execute_with, with_budget,
  with_history, with_context, claimed_body, catch_error, end_try, after_claim, run_body,
  messages_of, read_history, use_source, read_source, source_outcome, choose_context, after_start,
  is_committed,
}

outside-state : (os : List Outside) (c : Control) → (apply_outside os c).state ≡ c.state
unfolding cancel fire_timer
outside-state [] c = refl
outside-state (cancels now ∷ os) c = ground (arith, outside-state os (cancel now c).0)
outside-state (fires ∷ os) c = ground (arith, outside-state os (fire_timer c))

checkpoint-state : (now : ℕ) (c : Control) → (checkpoint now c).0.state ≡ c.state
unfolding checkpoint
checkpoint-state now c = ground arith

end_operation-state :
    (now : ℕ) (o : Outcome) (c : Control) → (end_operation now o c).0.state ≡ c.state
unfolding end_operation checkpoint
end_operation-state now done c = ground arith
end_operation-state now (failed e) c = refl

begin_commit-committed :
    (now : ℕ) (c : Control) → (begin_commit now c).0.state ≡ committed → c.state ≡ committed
unfolding begin_commit checkpoint
begin_commit-committed now c h = ground (arith, h)

has_turn-append :
    (id : String) (rows : List TurnRow) (r : TurnRow)
    → r.request_id ≡ id
    → has_turn id (rows ++ r ∷ []) ≡ true
has_turn-append id [] r h = ground (arith, h, eq_iff r.request_id id)
has_turn-append id (q ∷ rows) r h = ground (arith, has_turn-append id rows r h)

complete-has_turn :
    (now : ℕ) (e : Event) (turn : Turn) (db db' : Database)
    → complete now e turn db ≡ some db'
    → has_turn e.request_id db'.turns ≡ true
unfolding complete
complete-has_turn now e turn db db' h = ground (
  arith,
  h,
  has_turn-append e.request_id db.turns
      (record { request_id = e.request_id; session_id = e.session_id; turn = turn }) refl,
)

fail-turns : (now : ℕ) (id : String) (db : Database) → (fail now id db).turns ≡ db.turns
unfolding fail
fail-turns now id db = ground arith

Statement-cases : (x : Statement) → (x ≡ acknowledged) ⊎ ((x ≡ rejected) ⊎ (x ≡ unacknowledged))
Statement-cases acknowledged = inl refl
Statement-cases rejected = inr (inl refl)
Statement-cases unacknowledged = inr (inr refl)

claimed_before :
    (now : ℕ) (e : Event) (db : Database)
    → (claim now e db).1 ≡ false
    → is_some (lookup e.request_id db.events) ≡ true
unfolding claim
claimed_before now e db h = ground (arith, h)

module _ (w : World) (e : Event) (text : String) where
  abbrev Stored : State → Type 0
  Stored s = has_turn e.request_id s.db.turns ≡ true

  -- A committed control means a stored turn.
  abbrev Linked : State → Type 0
  Linked s = s.control.state ≡ committed → Stored s

  abbrev Good : State × Ended → Type 0
  Good r = Linked r.0 × (r.1 ≡ resolved → Stored r.0)

  advance-Linked : (s : State) → Linked s → Linked (advance w s)
  advance-Linked s l h = l (sym (outside-state (w.outside s.step) s.control) ∙ h)

  check-Good :
      (s : State) (go : State → State × Ended)
      → ((s' : State) → Linked s' → Good (go s'))
      → Linked s
      → Good (check w s go)
  check-Good s go keep l =
      let s' = advance w s in
      let c = (checkpoint (w.now s'.step) s'.control).0 in
      let l' : Linked (record s' { control = c }) =
        (λ h. advance-Linked s l (sym (checkpoint-state (w.now s'.step) s'.control) ∙ h)) in
      elim (Bool-cases (has_failed (checkpoint (w.now s'.step) s'.control).1)) [
        | inl stopped ↦ rw stopped (l', λ h. cc)
        | inr passed ↦ rw passed (keep (record s' { control = c }) l')
      ]

  remember-Linked :
      (messages : List Message) (answer : String) (s : State)
      → Stored s
      → Stored (remember w e messages answer s)
  remember-Linked messages answer s h = elim (Option-cases w.authoritative) [
    | inl none_given ↦ rw none_given h
    | inr (source, given) ↦ rw given h
  ]

  persist_turn-Linked :
      (messages : List Message) (answer : String) (s : State)
      → Linked s
      → Linked (persist_turn w e text messages answer s).0
        × ((persist_turn w e text messages answer s).1 ≡ false
            → Stored (persist_turn w e text messages answer s).0)
  unfolding end_commit
  persist_turn-Linked messages answer s l =
      let s' = advance w s in
      let turn : Turn = record { user_content = text; assistant_content = answer } in
      elim (Option-cases (complete (w.now s'.step) e turn s'.db)) [
        | inl lost ↦ rw lost (λ h. cc, λ h. cc)
        | inr (db, found) ↦ rw found (elim (Statement-cases (w.statement s'.step)) [
          | inl fine ↦ rw fine (
              let stored =
                remember-Linked messages answer
                  (record s' { db = db; control = (end_commit done s'.control).0 })
                  (complete-has_turn (w.now s'.step) e turn s'.db db found) in
              (λ h. stored, λ h. stored))
          | inr (inl bad) ↦ rw bad (λ h. cc, λ h. cc)
          | inr (inr lost) ↦ rw lost (λ h. cc, λ h. cc)
        ])
      ]

  commit_turn-Linked :
      (messages : List Message) (answer : String) (s : State)
      → Linked s
      → Linked (commit_turn w e text messages answer s).0
        × ((commit_turn w e text messages answer s).1 ≡ false
            → Stored (commit_turn w e text messages answer s).0)
  commit_turn-Linked messages answer s l =
      let s' = advance w s in
      let begun : State = record s' { control = (begin_commit (w.now s'.step) s'.control).0 } in
      let l' : Linked begun =
        (λ h. advance-Linked s l (begin_commit-committed (w.now s'.step) s'.control h)) in
      elim (Bool-cases (has_failed (begin_commit (w.now s'.step) s'.control).1)) [
        | inl refused ↦ rw refused (l', λ h. cc)
        | inr begins ↦ rw begins (persist_turn-Linked messages answer begun l')
      ]

  -- The script's own flag tells of a stored turn.
  run_script-Good :
      (messages : List Message) (script : Script) (flag : Bool) (s : State)
      → Linked s
      → (flag ≡ true → Stored s)
      → Good (end_script (run_script w e text messages script flag s))
  unfolding run_script
  run_script-Good messages returns true s l f = (l, λ h. f refl)
  run_script-Good messages returns false s l f = (l, λ h. cc)
  run_script-Good messages throws true s l f = (l, λ h. cc)
  run_script-Good messages throws false s l f = (l, λ h. cc)
  run_script-Good messages (commits answer next) true s l f =
      run_script-Good messages (next true) true s l f
  run_script-Good messages (commits answer next) false s l f =
      let (l', stored) = commit_turn-Linked messages answer s l in
      run_script-Good messages (next (commit_turn w e text messages answer s).1)
        (not (commit_turn w e text messages answer s).1) (commit_turn w e text messages answer s).0
        l' (λ h. stored (ground (arith, h)))

  execute_with-Good :
      (messages : List Message) (s : State) → Linked s → Good (execute_with w e text messages s)
  execute_with-Good messages s l =
      check-Good s (λ s'. end_script (run_script w e text messages (w.execute messages) false s'))
        (λ s' l'. run_script-Good messages (w.execute messages) false s' l' (λ h. cc)) l

  with_budget-Good : (b : Budgeted) (s : State) → Linked s → Good (with_budget w e text b s)
  with_budget-Good input_too_large s l = (l, λ h. cc)
  with_budget-Good (ok messages) s l = execute_with-Good messages s l

  read_history-Good : (x : Statement) (s : State) → Linked s → Good (read_history w e text x s)
  read_history-Good acknowledged s l =
      with_budget-Good (budget_messages (messages_of (recent e.session_id recent_turns s.db)) text)
        s l
  read_history-Good rejected s l = (l, λ h. cc)
  read_history-Good unacknowledged s l = (l, λ h. cc)

  with_history-Good :
      (history : Option (List Message)) (s : State)
      → Linked s
      → Good (with_history w e text history s)
  with_history-Good (some history) s l = with_budget-Good (budget_messages history text) s l
  with_history-Good none s l =
      let s' = advance w s in read_history-Good (w.statement s'.step) s' (advance-Linked s l)

  use_source-Good :
      (source : Option (List Message)) (stopped : Bool) (s : State)
      → Linked s
      → Good (use_source w e text source stopped s)
  use_source-Good none stopped s l = (l, λ h. cc)
  use_source-Good (some messages) true s l = (l, λ h. cc)
  use_source-Good (some messages) false s l = execute_with-Good messages s l

  read_source-Good :
      (source : Option (List Message)) (s : State) → Linked s → Good (read_source w e text source s)
  read_source-Good source s l =
      let s' = advance w s in
      let r = end_operation (w.now s'.step) (source_outcome source) s'.control in
      use_source-Good source (has_failed r.1) (record s' { control = r.0 })
        (λ h.
          advance-Linked s l
            (sym (end_operation-state (w.now s'.step) (source_outcome source) s'.control) ∙ h))

  choose_context-Good :
      (source : Option (Option (List Message))) (s : State)
      → Linked s
      → Good (choose_context w e text source s)
  choose_context-Good none s l =
      let (cache, history) = get (w.now s.step) e.session_id s.cache in
      with_history-Good history (record s { cache = cache }) l
  choose_context-Good (some source) s l =
      check-Good s (read_source w e text source) (read_source-Good source) l

  after_start-Good : (fails : Bool) (s : State) → Linked s → Good (after_start w e text fails s)
  after_start-Good true s l = (l, λ h. cc)
  after_start-Good false s l =
      check-Good s (with_context w e text) (choose_context-Good w.authoritative) l

  claimed_body-Good : (s : State) → Linked s → Good (claimed_body w e text s)
  claimed_body-Good s l =
      check-Good s (after_start w e text w.start_throws) (after_start-Good w.start_throws) l

  is_committed-committed : (x : ExecutionState) → is_committed x ≡ true → x ≡ committed
  is_committed-committed running h = cc
  is_committed-committed committing h = cc
  is_committed-committed committed h = refl
  is_committed-committed settled h = cc

  -- Without a commit the `catch` throws again.
  catch_error-threw :
      (claimed : Bool) (s : State)
      → is_committed s.control.state ≡ false
      → (catch_error w e claimed s).1 ≡ threw
  catch_error-threw claimed s fresh = rw fresh refl

  end_try-Stored :
      (r : State × Ended) → Good r → (end_try w e r).1 ≡ resolved → Stored (end_try w e r).0
  end_try-Stored (s, resolved) (l, stored) h = stored refl
  end_try-Stored (s, threw) (l, stored) h = elim (Bool-cases (is_committed s.control.state)) [
    | inl durable ↦ rw durable (l (is_committed-committed s.control.state durable))
    | inr fresh ↦ (let thrown = catch_error-threw true s fresh in cc)
  ]

  after_claim-Stored :
      (db : Database) (claimed failed_claim : Bool) (s : State)
      → is_committed s.control.state ≡ false
      → (after_claim w e text (db, claimed) failed_claim s).1 ≡ resolved
      → (claimed ≡ false) ⊎ Stored (after_claim w e text (db, claimed) failed_claim s).0
  after_claim-Stored db claimed true s fresh h =
      let thrown = catch_error-threw false (record s { db = db }) fresh in cc
  after_claim-Stored db false false s fresh h = inl refl
  after_claim-Stored db true false s fresh h = inr (
      end_try-Stored (claimed_body w e text (record s { db = db }))
        (claimed_body-Good (record s { db = db }) (λ c. cc)) h)

  -- A run that resolves has found its event claimed before, or its turn is in the database: also if its
  -- callbacks threw after the commit, and whatever the event loop did to its control.
  pub run_body-Stored :
      (s : State)
      → is_committed s.control.state ≡ false
      → (run_body w e text s).1 ≡ resolved
      → (is_some (lookup e.request_id s.db.events) ≡ true)
        ⊎ (has_turn e.request_id (run_body w e text s).0.db.turns ≡ true)
  unfolding run_body
  run_body-Stored s fresh h =
      let s' = advance w s in
      let c = claim (w.now s'.step) e s'.db in
      let f = effect (w.statement s'.step) s'.db c.0 in
      let kept = outside-state (w.outside s.step) s.control in
      elim (after_claim-Stored f.0 c.1 f.1 s' (rw kept fresh) h) [
        | inl refused ↦ inl (claimed_before (w.now s'.step) e s.db refused)
        | inr stored ↦ inr stored
      ]
