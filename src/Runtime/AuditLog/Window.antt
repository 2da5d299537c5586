-- ===== src/Runtime/AuditLog/Window.antt =====
-- The audit log keeps a window: the newest entries of all that were pushed.
use mini_bpm_engine.Prelude.{
  ℕ, zero, suc, ◌+◌, ◌-◌, ◌≤◌, String, ◌≡◌, refl, sym, ap, ◌∙◌, List, [], ◌∷◌, ◌++◌, length, drop,
  length-append, length-drop, arith,
}
use mathlib.Core.List.{append_assoc, append-nil}
use mini_bpm_engine.Runtime.Instance.{ProcessInstance}
use mini_bpm_engine.Runtime.AuditLog.{
  max_audit_log_entries, drain_overflow, push_audit_log, push_all,
}

module _ {ℓ} {A : Type ℓ} where
  drop-append : (n : ℕ) (xs ys : List A) → n ≤ length xs → drop n xs ++ ys ≡ drop n (xs ++ ys)
  drop-append zero xs ys h = refl
  drop-append (suc n) [] ys h = absurd (omega arith)
  drop-append (suc n) (x ∷ xs) ys h = drop-append n xs ys (omega arith)

  drop-nil : (n : ℕ) → drop n (let e : List A = [] in e) ≡ []
  drop-nil zero = refl
  drop-nil (suc n) = refl

  drop-drop : (m n : ℕ) (xs : List A) → drop m (drop n xs) ≡ drop (n + m) xs
  drop-drop m zero xs = rw (let e : 0 + m ≡ m = omega arith in e)
  drop-drop m (suc n) [] = drop-nil m ∙ sym (drop-nil (suc n + m))
  drop-drop m (suc n) (x ∷ xs) =
      rw (let e : suc n + m ≡ suc (n + m) = omega arith in e) (drop-drop m n xs)

-- The newest `max_audit_log_entries` entries.
abbrev pub newest : List String → List String
newest log = drop (length log - max_audit_log_entries) log

drain_overflow-newest : (log : List String) → drain_overflow log ≡ newest log
unfolding drain_overflow
drain_overflow-newest log = ground (
  arith,
  λ (h : length log ≤ 200). ap (λ n. drop n log) (let e : length log - 200 ≡ 0 = omega arith in e),
)

newest-append : (a b : List String) → newest (newest a ++ b) ≡ newest (a ++ b)
newest-append a b = rw (drop-append (length a - 200) a b (omega arith)) (
    drop-drop _ (length a - 200) (a ++ b)
    ∙ ap (λ n. drop n (a ++ b))
        (omega (arith, length-drop (length a - 200) (a ++ b), length-append a b)))

length-newest : (log : List String) → length (newest log) ≤ max_audit_log_entries
length-newest log = omega (arith, length-drop (length log - 200) log)

newest_short : (log : List String) → length log ≤ max_audit_log_entries → newest log ≡ log
newest_short log h = ap (λ n. drop n log) (let e : length log - 200 ≡ 0 = omega arith in e)

-- From a log within its bound, any number of pushes leaves the newest `max_audit_log_entries` of the
-- old and the pushed entries, in order, and changes nothing else of the instance.
pub push_all_lem :
    (inst : ProcessInstance) (entries : List String)
    → length inst.audit_log ≤ max_audit_log_entries
    → push_all inst entries ≡ record inst { audit_log = newest (inst.audit_log ++ entries) }
unfolding push_all push_audit_log
push_all_lem inst [] h =
    ap (λ log. record inst { audit_log = log })
      (sym (ap newest (append-nil inst.audit_log) ∙ newest_short inst.audit_log h))
push_all_lem inst (entry ∷ entries) h =
    push_all_lem (push_audit_log inst entry) entries bounded
    ∙ ap (λ log. record inst { audit_log = log })
        (ap (λ log. newest (log ++ entries)) pushed
          ∙ newest-append (inst.audit_log ++ entry ∷ []) entries
          ∙ ap newest (append_assoc inst.audit_log (entry ∷ []) entries))
  where
    pushed : (push_audit_log inst entry).audit_log ≡ newest (inst.audit_log ++ entry ∷ [])
    pushed = drain_overflow-newest (inst.audit_log ++ entry ∷ [])

    bounded : length (push_audit_log inst entry).audit_log ≤ max_audit_log_entries
    bounded = rw pushed (length-newest (inst.audit_log ++ entry ∷ []))
