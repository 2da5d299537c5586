-- ===== src/Tests/Logs.antt =====
-- Entries of an audit log.
use mini_bpm_engine.Prelude.{◌≡◌, [], ◌∷◌, ◌++◌, arith}
use mini_bpm_engine.Runtime.AuditLog.{push_all}
use mini_bpm_engine.Runtime.AuditLog.Window.{newest, push_all_lem}
use mini_bpm_engine.Tests.Data.{forked}

push_all_lem_example :
    push_all forked ("one" ∷ "two" ∷ [])
    ≡ record forked { audit_log = newest (forked.audit_log ++ "one" ∷ "two" ∷ []) }
push_all_lem_example = push_all_lem forked ("one" ∷ "two" ∷ []) (omega arith)
