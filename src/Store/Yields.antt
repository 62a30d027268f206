-- ===== src/Store/Yields.antt =====
-- What an operation over the store answers with when it succeeds.
use e_palika.Domain.Errors.{Error}
use e_palika.Store.Exec.{Db, Result, ok, err, Exec, continue, relabel, pure, raise, ◌>>=◌, on_error}

module _ {A : Type 0} (P : A → Type 0) where
  abbrev pub Answers : Result A → Type 0
  Answers (ok a) = P a
  Answers (err e) = Unit

  pub record Yields (m : Exec A) : Type 0 where
    pub at : (db : Db) → Answers (m db).0

  pub raise-Yields : (e : Error) → Yields (raise e)
  unfolding raise
  raise-Yields e = record { at = λ db. tt }

  pub pure-Yields : (a : A) → P a → Yields (pure a)
  unfolding pure
  pure-Yields a h = record { at = λ db. h }

  relabel-Answers : (f : Error → Error) (r : Result A) → Answers r → Answers (relabel f r)
  relabel-Answers f (ok a) h = h
  relabel-Answers f (err e) h = tt

  pub on_error-Yields : (f : Error → Error) (m : Exec A) → Yields m → Yields (on_error f m)
  unfolding on_error
  on_error-Yields f m h = record { at = λ db. relabel-Answers f (m db).0 (h.at db) }

  module _ {B : Type 0} where
    continue-Answers :
        (r : Result B) (f : B → Exec A) (db : Db)
        → ((b : B) → Yields (f b))
        → Answers (continue r f db).0
    continue-Answers (ok b) f db h = (h b).at db
    continue-Answers (err e) f db h = tt

    -- Whatever the first operation answers, it is the second that counts.
    pub bind-Yields : (m : Exec B) (f : B → Exec A) → ((b : B) → Yields (f b)) → Yields (m >>= f)
    unfolding ◌>>=◌
    bind-Yields m f h = record { at = λ db. continue-Answers (m db).0 f (m db).1 h }
