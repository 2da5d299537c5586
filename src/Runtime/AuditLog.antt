-- ===== src/Runtime/AuditLog.antt =====
-- The bounded audit log of engine-core/src/runtime/instance.rs, with the bound of constants.rs.
pub mod Window
use mini_bpm_engine.Prelude.{ℕ, ◌-◌, String, List, [], ◌∷◌, ◌++◌, length, drop, ltb, if◌then◌else◌}
use mini_bpm_engine.Runtime.Instance.{ProcessInstance}

abbrev pub max_audit_log_entries : ℕ
max_audit_log_entries = 200

-- `if len > MAX { drain(0..len - MAX) }`.
unfoldable pub drain_overflow : List String → List String
drain_overflow log =
    if ltb max_audit_log_entries (length log)
    then drop (length log - max_audit_log_entries) log
    else log

unfoldable pub push_audit_log : ProcessInstance → String → ProcessInstance
unfolding drain_overflow
push_audit_log inst entry = record inst {
  audit_log = drain_overflow (inst.audit_log ++ entry ∷ []);
}

unfoldable pub append_audit_log : ProcessInstance → List String → ProcessInstance
unfolding drain_overflow
append_audit_log inst entries = record inst {
  audit_log = drain_overflow (inst.audit_log ++ entries);
}

unfoldable pub push_all : ProcessInstance → List String → ProcessInstance
push_all inst [] = inst
push_all inst (entry ∷ entries) = push_all (push_audit_log inst entry) entries
