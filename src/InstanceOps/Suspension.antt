-- ===== src/InstanceOps/Suspension.antt =====
-- What suspending and resuming do, on every branch.
use mini_bpm_engine.Prelude.{
  ℕ, ◌≡◌, ◌⊎◌, inl, inr, refl, sym, subst, Bool, true, false, none, some, get, get-insert_self,
  Option-cases, arith, nat_eq,
}
use mini_bpm_engine.Domain.Error.{ok, err, already_completed, no_such_instance, instance_suspended}
use mini_bpm_engine.Runtime.Instance.{
  InstanceState, completed, completed_with_error, is_suspended, ProcessInstance,
}
use mini_bpm_engine.Runtime.AuditLog.{push_audit_log}
use mini_bpm_engine.Engine.{Engine, HistoryEventType}
use mini_bpm_engine.InstanceOps.{
  check_suspendable, suspended_instance, conclude, suspend_instance, resumed_instance,
  resume_instance,
}

abbrev pub has_ended : InstanceState → Bool
has_ended completed = true
has_ended (completed_with_error error_code) = true
has_ended _ = false

-- The three answers for a state.
pub check-cases :
    (instance_id : ℕ) (s : InstanceState)
    → let r = check_suspendable instance_id s in
      ((has_ended s ≡ true) × (r ≡ err already_completed))
      ⊎ ((is_suspended s ≡ true) × (r ≡ err (instance_suspended instance_id)))
      ⊎ ((has_ended s ≡ false) × (is_suspended s ≡ false) × (r ≡ ok tt))
unfolding check_suspendable
check-cases instance_id s = ground arith

-- Suspending succeeds exactly for an instance that has not ended and is not suspended. It then stores
-- the instance with its state kept inside the suspended one. It is refused with the fitting error for an
-- unknown instance, one that has ended and a suspended one.
pub suspend_instance_lem :
    (e : Engine) (instance_id : ℕ)
    → let r = suspend_instance e instance_id in
      ((get e.instances instance_id ≡ none) × (r ≡ err (no_such_instance instance_id)))
      ⊎ ((inst : ProcessInstance) × (get e.instances instance_id ≡ some inst)
          × (((has_ended inst.state ≡ true) × (r ≡ err already_completed))
              ⊎ ((is_suspended inst.state ≡ true) × (r ≡ err (instance_suspended instance_id)))
              ⊎ ((has_ended inst.state ≡ false)
                  × (is_suspended inst.state ≡ false)
                  × (r
                      ≡ ok (
                          conclude e instance_id
                            (suspended_instance inst)
                            HistoryEventType.instance_suspended)))))
unfolding suspend_instance
suspend_instance_lem e instance_id = elim (Option-cases (get e.instances instance_id)) [
  | inl n ↦ inl (n, rw n refl)
  | inr (inst, s) ↦ inr (
    inst,
    s,
    elim (check-cases instance_id inst.state) [
      | inl (h, c) ↦ inl (h, ground arith)
      | inr (inl (h, c)) ↦ inr (inl (h, ground arith))
      | inr (inr (h, k, c)) ↦ inr (inr (h, k, ground arith))
    ],
  )
]

-- Resuming a suspended instance succeeds and leaves it as it was before, with the same state, but for the
-- two entries in its audit log.
pub resume-suspend_instance :
    (e e' : Engine) (instance_id : ℕ) (inst : ProcessInstance)
    → get e.instances instance_id ≡ some inst
    → suspend_instance e instance_id ≡ ok e'
    → (e'' : Engine) × (resume_instance e' instance_id ≡ ok e'')
      × (get e''.instances instance_id
          ≡ some (push_audit_log (push_audit_log inst "⏸ Instance suspended") "▶ Instance resumed"))
unfolding suspend_instance resume_instance push_audit_log
resume-suspend_instance e e' instance_id inst s h = elim (check-cases instance_id inst.state) [
  | inl (a, c) ↦ absurd (ground arith)
  | inr (inl (a, c)) ↦ absurd (ground arith)
  | inr (inr (a, b, c)) ↦
      let q : e'
          ≡ conclude e instance_id (suspended_instance inst) HistoryEventType.instance_suspended =
        ground arith in
      let held : get e'.instances instance_id ≡ some (suspended_instance inst) =
        subst (λ x. get x.instances instance_id ≡ some (suspended_instance inst)) (sym q)
          (get-insert_self e.instances instance_id (suspended_instance inst)) in
      (
        conclude e' instance_id (resumed_instance (suspended_instance inst) inst.state)
            HistoryEventType.instance_resumed,
        ground arith,
        get-insert_self e'.instances instance_id _,
      )
]
