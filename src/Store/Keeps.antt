-- ===== src/Store/Keeps.antt =====
-- Actions that keep the journals consistent: one rule for each way to build an action.
use loomterm.Prelude.{Option, none, some}
use loomterm.Result.{Error, Result, ok, err}
use loomterm.Result.Run.{
  Action, continue, roll_back, or_not_found, pure, raise, lift, transaction, ◌>>=◌,
}
use loomterm.Store.Tables.{Db}
use loomterm.Store.Journal.{IsConsistent}

-- The state that `m` leaves is consistent, whether it returns or fails.
pub record Keeps {A : Type 0} (m : Action Db A) : Type 0 where
  pub at : (db : Db) → IsConsistent db → IsConsistent (m db).1

pub Keeps-pure : {A : Type 0} (a : A) → Keeps (pure a)
Keeps-pure a = record { at = λ db c. c }

pub Keeps-raise : {A : Type 0} (e : Error) → Keeps (raise {A = A} e)
Keeps-raise e = record { at = λ db c. c }

pub Keeps-lift : {A : Type 0} (r : Result A) → Keeps (lift r)
Keeps-lift r = record { at = λ db c. c }

continue-IsConsistent :
    {A B : Type 0} (r : Result A) (db : Db) (f : A → Action Db B)
    → ((a : A) → Keeps (f a))
    → IsConsistent db
    → IsConsistent (continue r db f).1
continue-IsConsistent (ok a) db f k c = (k a).at db c
continue-IsConsistent (err e) db f k c = c

pub Keeps-bind :
    {A B : Type 0} (m : Action Db A) (f : A → Action Db B)
    → Keeps m
    → ((a : A) → Keeps (f a))
    → Keeps (m >>= f)
Keeps-bind m f km kf = record {
  at = λ db c. continue-IsConsistent (m db).0 (m db).1 f kf (km.at db c);
}

roll_back-IsConsistent :
    {A : Type 0} (r : Result A) (before after : Db)
    → IsConsistent before
    → IsConsistent after
    → IsConsistent (roll_back before r after).1
roll_back-IsConsistent (ok a) before after cb ca = ca
roll_back-IsConsistent (err e) before after cb ca = cb

pub Keeps-transaction : {A : Type 0} (m : Action Db A) → Keeps m → Keeps (transaction m)
Keeps-transaction m km = record {
  at = λ db c. roll_back-IsConsistent (m db).0 db (m db).1 c (km.at db c);
}

or_not_found-IsConsistent :
    {A : Type 0} (e : Error) (o : Option A) (db : Db)
    → IsConsistent db
    → IsConsistent (or_not_found e o db).1
or_not_found-IsConsistent e none db c = c
or_not_found-IsConsistent e (some a) db c = c

pub Keeps-or_not_found :
    {A : Type 0} (e : Error) (query : Db → Option A) → Keeps (λ db. or_not_found e (query db) db)
Keeps-or_not_found e query = record { at = λ db c. or_not_found-IsConsistent e (query db) db c }

pub ruleset keeps_rules = (Keeps-pure, Keeps-raise, Keeps-lift, Keeps-bind, Keeps-transaction)
