-- ===== src/Sqlite/Refinement/Steps.antt =====
-- The calls of the database in a transaction of sqlite.ts, one after the other.
use mathlib.Core.Path.{subst}
use identifold.Errors.{ok-injective, Foreign, Thrown, Result, foreign, ok, err}
use identifold.Prelude.{ℕ, ◌≡◌, refl, sym, ap, ◌∙◌, ◌⊎◌, inl, inr, Option, List}
use identifold.Reference.Decimal.{ℤ, pos}
use identifold.Service.Create.Defs.{return, then_do}
use identifold.Sqlite.{record_or_null, get_row, run_with, Got, SqliteStatement, SqliteDatabase}
use identifold.Sqlite.Laws.{Answers, Runs, SqliteLaws}
use identifold.Sqlite.Tables.{
  closed, in_transaction, rolled_back, with_tables, AfterFailure, Tables, Session,
}
use identifold.Storage.Values.{Row, Value}

module _ {W : Type 0} (database : SqliteDatabase W) (view : W → Session) (count : ℕ)
    (before : Tables) where
  -- A rollback leads back to the tables from before the transaction.
  abbrev Undone : W → Type 0
  Undone w = rolled_back (view w) ≡ closed count before

  abbrev pub Failed : {A : Type 0} → Result A × W → Type 0
  Failed p =
      (e : Foreign) × (p.0 ≡ err (foreign e))
      × AfterFailure (closed count before) (rolled_back (view p.1))

  -- What is wanted, unless a call has failed.
  abbrev pub Unless : {A : Type 0} → (Result A × W → Type 0) → Result A × W → Type 0
  Unless Wanted p = Wanted p ⊎ Failed p

  abbrev pub Did : {A : Type 0} → (A → Type 0) → Session → Result A × W → Type 0
  Did {A} Expected s p = (a : A) × (p.0 ≡ ok a) × Expected a × (view p.1 ≡ s)

  pub Undone-in : {t : Tables} (w : W) → view w ≡ in_transaction count before t → Undone w
  unfolding rolled_back
  Undone-in w now = rw now refl

  transaction_undone :
      (t : Tables) → rolled_back (in_transaction count before t) ≡ closed count before
  unfolding rolled_back
  transaction_undone t = refl

  pub Undone-closed : (w : W) → view w ≡ closed count before → Undone w
  unfolding rolled_back
  Undone-closed w start = rw start refl

  pub next :
      {A B : Type 0} {Expected : A → Type 0} {s : Session} (Wanted : Result B × W → Type 0)
      (p : Result A × W) (f : A → W → Result B × W)
      → Unless (Did Expected s) p
      → ((a : A) (v : W) → Expected a → view v ≡ s → Unless Wanted (f a v))
      → Unless Wanted (then_do p f)
  next {A} {B} {Expected} Wanted (ok a, v) f (inl (b, is, expected, now)) rest =
      rest a v (subst Expected (sym (ok-injective is)) expected) now
  next Wanted (err e, v) f (inl (b, is, expected, now)) rest = cc is
  next Wanted (ok a, v) f (inr (e, is, _)) rest = cc is
  next {A} {B} Wanted (err e, v) f (inr (x, is, failed)) rest =
      let thrown : e ≡ foreign x = cc is in inr (x, rw thrown refl, failed)

  abbrev pub Stopped : {A : Type 0} → Thrown → Result A × W → Type 0
  Stopped e p = (p.0 ≡ err e) × Undone p.1

  -- What a specified result means for a transaction that has run.
  abbrev pub Reached : Result (ℕ × Tables) → Result ℤ × W → Type 0
  Reached (ok (n, t)) p = (p.0 ≡ ok (pos n)) × (view p.1 ≡ closed count t)
  Reached (err e) p = Stopped e p

  pub stopped :
      {A B : Type 0} (e : Thrown) (p : Result A × W) (f : A → W → Result B × W)
      → Unless (Stopped e) p
      → Unless (Stopped e) (then_do p f)
  stopped e (ok a, v) f (inl (is, undone)) = cc is
  stopped {A} {B} e (err x, v) f (inl (is, undone)) =
      let thrown : x ≡ e = cc is in inl (rw thrown refl, undone)
  stopped e (ok a, v) f (inr (x, is, _)) = cc is
  stopped {A} {B} e (err y, v) f (inr (x, is, failed)) =
      let thrown : y ≡ foreign x = cc is in inr (x, rw thrown refl, failed)

  -- What SQLite documents of a call, as the end of the call.
  pub ask :
      {A : Type 0} {Expected : A → Type 0} {s s' : Session} (w : W) (p : Result A × W)
      → Undone w
      → s ≡ s'
      → Answers database view w p Expected s
      → Unless (Did Expected s') p
  ask w p undone same_session (inl (a, is, expected, now)) =
      inl (a, is, expected, now ∙ same_session)
  ask w p undone same_session (inr (e, is, failed)) =
      inr (e, is, subst (λ s. AfterFailure s (rolled_back (view p.1))) undone failed)

  module _ (laws : SqliteLaws database view) where
    prepared :
        (statement : SqliteStatement) {s : Session} (w : W)
        → rolled_back s ≡ closed count before
        → view w ≡ s
        → Unless (Did (λ done. Unit) s) (database.prepare statement w)
    prepared statement w undone now = ask w _ (rw now undone) now (laws.prepare_answers statement w)

    -- A query in a session that a rollback leads back.
    pub get_row_in :
        (statement : SqliteStatement) (values : List Value) (expected : Got) {s : Session} (w : W)
        → rolled_back s ≡ closed count before
        → view w ≡ s
        → ((v : W)
            → view v ≡ s
            → Answers database view v
                (database.get statement values v)
                (λ x. x ≡ expected)
                (view v))
        → Unless
            (Did (λ o. o ≡ record_or_null expected) s)
            (get_row database statement (ok values) w)
    get_row_in statement values expected {s} w undone now answers =
        let Wanted : Result (Option Row) × W → Type 0 = Did (λ o. o ≡ record_or_null expected) s in
        next Wanted _ _ (prepared statement w undone now) λ done v _ now_v.
          next Wanted _ _ (ask v _ (rw now_v undone) now_v (answers v now_v))
            λ x u is now_u. inl (record_or_null x, refl, ap record_or_null is, now_u)

    pub get_row_lem :
        (statement : SqliteStatement) (values : List Value) (expected : Got) {t : Tables} (w : W)
        → view w ≡ in_transaction count before t
        → ((v : W)
            → view v ≡ in_transaction count before t
            → Answers database view v
                (database.get statement values v)
                (λ x. x ≡ expected)
                (view v))
        → Unless
            (Did (λ o. o ≡ record_or_null expected) (in_transaction count before t))
            (get_row database statement (ok values) w)
    unfolding rolled_back
    get_row_lem statement values expected w now answers =
        get_row_in statement values expected w refl now answers

    pub run_with_lem :
        (statement : SqliteStatement) (values : List Value) (change : Tables → Tables) {t : Tables}
        (w : W)
        → view w ≡ in_transaction count before t
        → ((v : W) → Runs database view v (database.run statement values v) change)
        → Unless
            (Did (λ changes. Unit) (in_transaction count before (change t)))
            (run_with database statement (ok values) w)
    run_with_lem statement values change {t} w now runs =
        next (Did (λ changes. Unit) (in_transaction count before (change t))) _ _
          (prepared statement w (transaction_undone _) now)
          λ done v _ now_v. ask v _ (Undone-in v now_v) (ap (with_tables change) now_v) (runs v)

    -- Values that cannot be computed end the call before the database has them.
    pub values_fail :
        {A : Type 0} (statement : SqliteStatement) (e : Thrown) {t : Tables} (w : W)
        (f : List Value → W → Result A × W)
        → view w ≡ in_transaction count before t
        → Unless
            (Stopped e)
            (then_do (database.prepare statement w) (λ done w1. then_do (return (err e) w1) f))
    values_fail statement e w f now =
        next (Stopped e) _ _ (prepared statement w (transaction_undone _) now)
          λ done v _ now_v. inl (refl, Undone-in v now_v)
