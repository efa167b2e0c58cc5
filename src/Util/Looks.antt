-- ===== src/Util/Looks.antt =====
-- Looks at one object, one after the other: what `wait_deleted` and `wait_gone` put on the trace.
use topolvm_operator.Base.{ℕ, zero, suc, [], ◌∷◌, ◌++◌}
use topolvm_operator.Env.{Trace, Action}

-- The trace after so many looks.
abbrev pub after_looks : Action → ℕ → Trace → Trace
after_looks look zero t = t
after_looks look (suc k) t = after_looks look k (t ++ look ∷ [])
