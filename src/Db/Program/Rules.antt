-- ===== src/Db/Program/Rules.antt =====
-- Rules for programs: what every run does to the world (Safe), and what a run that returns has
-- reached (Yields).
mod Statements
mod Results
mod Runs
mod Tables
pub use zatca_integration.Db.Program.Rules.Statements.{
  Frame, Frame-refl, Frame-trans, Ticked, next_tick-Ticked, Answers, Answers-row, Answers-duplicate,
  Answers-no_rows, exec_answer, query_same, Answered, exec-Answered, ran, refused, waited, vanished,
}
pub use zatca_integration.Db.Program.Rules.Results.{
  OnOk, Yields, Safe, Yields-weaken, Yields-return, Yields-raise, Yields-elim, Yields-if,
  Yields-now, Yields-expect_row, continue_with, bind-eq-continue_with, Yields-bind, Yields-exec,
  Yields-run, IsStable, Yields-transaction,
}
pub use zatca_integration.Db.Program.Rules.Runs.{
  Safe-return, Safe-raise, Safe-try, Safe-if, Safe-expect, Safe-bind, Safe-exec, Framed-exec,
}
pub use zatca_integration.Db.Program.Rules.Tables.{
  OnDb, SafeDb-exec, transaction-K, SafeDb-transaction, Framed-transaction, Safe-Yields, Yields_any,
}
