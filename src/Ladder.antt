-- ===== src/Ladder.antt =====
-- ts-shared/l4-ladder-visualizer/src/lib/eval: the three-valued evaluation of a ladder and the
-- partial evaluation that says which inputs still matter.
pub mod Assignment
pub mod Eval
pub mod Sound
pub mod Verdict
pub mod Complete
pub mod Partial
pub mod Restricted
pub mod Bindings
pub mod Ready
pub mod Analysis
pub mod Correct
pub mod ShortCircuit
pub mod Analyzer
pub mod Override
pub mod Ranking
pub mod Asks
