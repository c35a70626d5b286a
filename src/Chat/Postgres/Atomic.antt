-- ===== src/Chat/Postgres/Atomic.antt =====
-- A transaction takes effect as a whole or not at all.
use ragpolyglot_demo.Base.{
  ◌∙◌, ◌≡◌, refl, subst, Bool, true, false, Option, none, some, List, [], ◌∷◌, ◌++◌, ◌⊎◌, inl, inr,
  map, arith, if◌then◌else◌,
}
use ragpolyglot_demo.Base.Text.{Text}
use ragpolyglot_demo.Chat.Postgres.{
  Db, Statement, Command, Transaction, Session, Sent, commit, run, Postgres, Ran, next, later,
  try_connect, ensure_ready, execute, execute_command, within, and_next, run_commands, transaction,
  rolled_back, in_session, fresh, close, run_connected, run_in_transaction,
}

module _ (uuid : Text → Option Text) (now : Text) where
  abbrev pub and_execute : Option Db → (Db → Option Db) → Option Db
  and_execute none rest = none
  and_execute (some db) rest = rest db

  -- The statements one after the other, on a server that takes every command.
  unfoldable pub execute_all : List Statement → Db → Option Db
  execute_all [] db = some db
  execute_all (s ∷ sts) db = and_execute (execute uuid now s db) (λ db'. execute_all sts db')

  -- The commands went through and have left the tables that are expected and no transaction, or one
  -- of them failed and the tables are as they were.
  abbrev Whole : Option Db → Db → Sent → Type 0
  Whole expected db sent =
      ((sent.completed ≡ true)
        × (expected ≡ some sent.session.tables)
        × (sent.session.transaction ≡ Transaction.idle))
      ⊎ ((sent.completed ≡ false) × (sent.session.tables ≡ db))

  if-Whole :
      (b : Bool) (x y : Sent) (expected : Option Db) (db : Db)
      → Whole expected db x
      → Whole expected db y
      → Whole expected db (if b then x else y)
  if-Whole true x y expected db h k = h
  if-Whole false x y expected db h k = k

  abbrev open_session : Db → Db → Session
  open_session db work = record { tables = db; transaction = Transaction.active work }

  within-Whole :
      (o : Option Db) (cs : List Command) (db : Db) (link link' : List Bool) (pure : Db → Option Db)
      → ((work : Db) → Whole (pure work) db (run_commands uuid now cs (open_session db work) link))
      → Whole (and_execute o pure) db (
          and_next uuid now
            (within uuid now db o)
            link'
            (run_commands uuid now cs (within uuid now db o).session link))
  within-Whole none cs db link link' pure h = inr (refl, refl)
  within-Whole (some work) cs db link link' pure h = h work

  run_commands-Whole :
      (sts : List Statement) (db work : Db) (link : List Bool)
      → Whole
          (execute_all sts work)
          db
          (run_commands uuid now (map run sts ++ commit ∷ []) (open_session db work) link)
  unfolding run_commands execute_all execute_command
  run_commands-Whole [] db work link =
      if-Whole (next link) _ _ _ db (inl (refl, refl, refl)) (inr (refl, refl))
  run_commands-Whole (s ∷ sts) db work link =
      if-Whole (next link) _ _ _ db
        (within-Whole (execute uuid now s work) (map run sts ++ commit ∷ []) db (later link)
          (later link) (execute_all sts) (λ work'. run_commands-Whole sts db work' (later link)))
        (inr (refl, refl))

  transaction-Whole :
      (sts : List Statement) (db : Db) (link : List Bool)
      → Whole
          (execute_all sts db)
          db
          (run_commands uuid now (transaction uuid now sts) (fresh uuid now db) link)
  unfolding run_commands transaction execute_command
  transaction-Whole sts db link =
      if-Whole (next link) _ _ _ db (run_commands-Whole sts db db (later link)) (inr (refl, refl))

  rolled_back-tables :
      (sent : Sent) → (rolled_back uuid now sent).session.tables ≡ sent.session.tables
  unfolding rolled_back execute_command
  rolled_back-tables sent = ground arith

  rolled_back-idle :
      (sent : Sent) → (rolled_back uuid now sent).session.transaction ≡ Transaction.idle
  unfolding rolled_back execute_command
  rolled_back-idle sent = ground arith

  rolled_back-completed : (sent : Sent) → (rolled_back uuid now sent).completed ≡ false
  unfolding rolled_back
  rolled_back-completed sent = ground arith

  -- The same of a connection that has been rolled back where that is due: no transaction is left.
  abbrev Closed : Option Db → Db → Sent → Type 0
  Closed expected db sent = Whole expected db sent × (sent.session.transaction ≡ Transaction.idle)

  if-Closed :
      (b : Bool) (x y : Sent) (expected : Option Db) (db : Db)
      → (b ≡ true → Closed expected db x)
      → (b ≡ false → Closed expected db y)
      → Closed expected db (if b then x else y)
  if-Closed true x y expected db h k = h refl
  if-Closed false x y expected db h k = k refl

  completed-Closed :
      (expected : Option Db) (db : Db) (sent : Sent)
      → Whole expected db sent
      → sent.completed ≡ true
      → Closed expected db sent
  completed-Closed expected db sent (inl (ok, all, idle)) b = (inl (ok, all, idle), idle)
  completed-Closed expected db sent (inr (threw, same)) b = cc

  failed-Closed :
      (expected : Option Db) (db : Db) (sent : Sent)
      → Whole expected db sent
      → sent.completed ≡ false
      → Closed expected db (rolled_back uuid now sent)
  failed-Closed expected db sent (inl (ok, all, idle)) b = cc
  failed-Closed expected db sent (inr (threw, same)) b =
      (inr (rolled_back-completed sent, rolled_back-tables sent ∙ same), rolled_back-idle sent)

  catch-Closed :
      (expected : Option Db) (db : Db) (sent : Sent)
      → Whole expected db sent
      → Closed expected db (if sent.completed then sent else rolled_back uuid now sent)
  catch-Closed expected db sent h =
      if-Closed sent.completed sent (rolled_back uuid now sent) expected db
        (completed-Closed expected db sent h) (failed-Closed expected db sent h)

  in_session-Closed :
      (sts : List Statement) (db : Db) (link : List Bool)
      → Closed (execute_all sts db) db (in_session uuid now sts (fresh uuid now db) link)
  unfolding in_session
  in_session-Closed sts db link = catch-Closed _ db _ (transaction-Whole sts db link)

  -- All of it, or an exception and nothing.
  abbrev pub Atomic : List Statement → Db → Ran → Type 0
  Atomic sts db out =
      ((out.threw ≡ false) × (execute_all sts db ≡ some out.postgres.db))
      ⊎ ((out.threw ≡ true) × (out.postgres.db ≡ db))

  pub if-Atomic :
      (b : Bool) (x y : Ran) (sts : List Statement) (db : Db)
      → Atomic sts db x
      → Atomic sts db y
      → Atomic sts db (if b then x else y)
  if-Atomic true x y sts db h k = h
  if-Atomic false x y sts db h k = k

  close-Atomic :
      (sts : List Statement) (p : Postgres) (sent : Sent)
      → Whole (execute_all sts p.db) p.db sent
      → Atomic sts p.db (close uuid now p sent)
  close-Atomic sts p sent h = ground (arith, h)

  pub ensure_ready-db : (p : Postgres) → (ensure_ready p).db ≡ p.db
  unfolding ensure_ready try_connect
  ensure_ready-db p = ground arith

  run_connected-Atomic :
      (sts : List Statement) (p : Postgres) → Atomic sts p.db (run_connected uuid now sts p)
  run_connected-Atomic sts p =
      if-Atomic (next p.link) _ _ sts p.db
        (close-Atomic sts p _ (in_session-Closed sts p.db (later p.link)).0) (inr (refl, refl))

  pub run_in_transaction-Atomic :
      (sts : List Statement) (p : Postgres) → Atomic sts p.db (run_in_transaction uuid now sts p)
  unfolding run_in_transaction
  run_in_transaction-Atomic sts p =
      let p' = ensure_ready p in
      subst (λ db. Atomic sts db (run_in_transaction uuid now sts p)) (ensure_ready-db p)
        (if-Atomic p'.ready (run_connected uuid now sts p') (record { postgres = p'; threw = true })
          sts p'.db (run_connected-Atomic sts p') (inr (refl, refl)))

  -- On a server that applies what a transaction did when it is told to commit, and each statement at
  -- once outside of a transaction: either `runInTransaction` returns and all statements have taken
  -- effect, one after the other, or it throws and the tables are as they were, at whichever command
  -- the connection fails or the server refuses a statement, if a command whose reply does not come
  -- back has not been run. Whatever happens, the connection goes back with no transaction open.
  pub run_in_transaction-closed :
      (sts : List Statement) (p : Postgres) (link : List Bool)
      → Atomic sts p.db (run_in_transaction uuid now sts p)
        × ((in_session uuid now sts (fresh uuid now p.db) link).session.transaction
            ≡ Transaction.idle)
  run_in_transaction-closed sts p link =
      (run_in_transaction-Atomic sts p, (in_session-Closed sts p.db link).1)
