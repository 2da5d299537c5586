-- ===== src/InstanceOps/Migration/Keys.antt =====
-- The new keys of join barriers and multi-instance progress in a migration.
use mathlib.Core.List.{Memᴰ}
use mini_bpm_engine.Prelude.{
  String, Bool-cases, inl, inr, [], ◌∷◌, Map, values, insert, All, All-of_mem, ◌==◌, string_eq,
}
use mini_bpm_engine.InstanceOps.Migration.{resolve, rekey}

module _ {V : Type 0} (P : V → Type 0) where
  All-insert :
      (m : Map String V) (k : String) (v : V)
      → P v
      → All P (values m)
      → All P (values (insert m k v))
  unfolding insert
  All-insert [] k v p h = (p, tt)
  All-insert ((j, w) ∷ m) k v p h = elim (Bool-cases (j == k)) [
    | inl hit ↦ rw (hit) (p, h.1)
    | inr miss ↦ rw (miss) (h.0, All-insert m k v p h.1)
  ]

  -- A new key brings no new value.
  All-rekey :
      (mapping : Map String String) (done m : Map String V)
      → All P (values done)
      → All P (values m)
      → All P (values (rekey mapping done m))
  All-rekey mapping done [] h k = h
  All-rekey mapping done ((i, v) ∷ m) h k =
      All-rekey mapping (insert done (resolve mapping i) v) m
        (All-insert done (resolve mapping i) v k.0 h) k.1

-- Every value of the second map is one of the first.
abbrev pub HoldsNoOther : {V : Type 0} → (before after : Map String V) → Type 0
HoldsNoOther before after = All (λ v. Memᴰ v (values before)) (values after)

pub rekey-HoldsNoOther :
    {V : Type 0} (mapping : Map String String) (m : Map String V)
    → HoldsNoOther m (rekey mapping [] m)
rekey-HoldsNoOther mapping m =
    All-rekey (λ v. Memᴰ v (values m)) mapping [] m tt (All-of_mem (values m) (λ v k. k))
