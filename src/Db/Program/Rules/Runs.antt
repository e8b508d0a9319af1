-- ===== src/Db/Program/Rules/Runs.antt =====
-- What every run does to the world, also one that fails.
use zatca_integration.Common.{sym, Bool, true, false, if◌then◌else◌}
use mathlib.Core.Path.{subst}
use zatca_integration.Errors.{Failure, Result, ok, err}
use zatca_integration.Db.Tables.{Db}
use zatca_integration.Db.Program.{
  World, Sql, row, no_rows, duplicate, lock_busy, broken, M, return, raise, ◌>>=◌, try, exec,
  expect,
}
use zatca_integration.Db.Program.Rules.Statements.{
  Frame, Frame-refl, Frame-trans, exec_answer, Answered, exec-Answered,
}
use zatca_integration.Db.Program.Rules.Results.{Safe, continue_with, bind-eq-continue_with}

-- A relation between the worlds before and after, which chains.
module _ (R : World → World → Type 0) (R_refl : (w : World) → R w w)
    (R_trans : (u v w : World) → R u v → R v w → R u w) {A : Type 0} where
  pub Safe-return : (a : A) → Safe R (return a)
  Safe-return a = record { at = λ w. R_refl w }

  pub Safe-raise : (e : Failure) → Safe R (raise {A = A} e)
  Safe-raise e = record { at = λ w. R_refl w }

  pub Safe-try : (m : M A) → Safe R m → Safe R (try m)
  Safe-try m h = record { at = λ w. h.at w }

  pub Safe-if : (b : Bool) (m n : M A) → Safe R m → Safe R n → Safe R (if b then m else n)
  Safe-if true m n hm hn = hm
  Safe-if false m n hm hn = hn

  pub Safe-expect : (s : Sql A) → Safe R (expect s)
  Safe-expect (row a) = Safe-return a
  Safe-expect no_rows = record { at = λ w. R_refl w }
  Safe-expect duplicate = record { at = λ w. R_refl w }
  Safe-expect lock_busy = record { at = λ w. R_refl w }
  Safe-expect broken = record { at = λ w. R_refl w }

  continue_with-R :
      {B : Type 0} (u : World) (f : A → M B) (r : Result A × World)
      → R u r.1
      → ((a : A) → Safe R (f a))
      → R u (continue_with f r).1
  continue_with-R u f (ok a, v) h g = R_trans u v (f a v).1 h ((g a).at v)
  continue_with-R u f (err e, v) h g = h

  pub Safe-bind :
      {B : Type 0} (m : M A) (f : A → M B) → Safe R m → ((a : A) → Safe R (f a)) → Safe R (m >>= f)
  Safe-bind m f h g = record {
    at = λ w.
        subst (λ r. R w r.1) (sym (bind-eq-continue_with m f w))
          (continue_with-R w f (m w) (h.at w) g);
  }

  pub Safe-exec :
      (f : Db → Sql A × Db)
      → ((w w' : World) (s : Sql A) → Answered f w s w' → R w w')
      → Safe R (exec f)
  Safe-exec f h = record { at = λ w. h w (exec f w).1 (exec_answer f w) (exec-Answered f w) }

-- The frame of SQL programs.
pub Framed-exec : {A : Type 0} (f : Db → Sql A × Db) → Safe Frame (exec f)
Framed-exec f = Safe-exec Frame Frame-refl Frame-trans f (λ w w' s h. h.frame)
