-- ===== src/Filing/Deployments.antt =====
-- Deployments and deletions keep what is stored under its own identifier.
use mini_bpm_engine.Prelude.{ℕ, true, false, List, [], ◌∷◌, Bool, nat_eq}
use mini_bpm_engine.Prelude.Int.{ℤ}
use mini_bpm_engine.Prelude.Keyed.{remove-IsKeyed}
use mini_bpm_engine.Domain.Error.{Result}
use mini_bpm_engine.Domain.Definition.{ProcessDefinition, SubProcesses, definition, nil, cons}
use mini_bpm_engine.Engine.{Engine}
use mini_bpm_engine.Run.Keeping.{
  Keeps, Keeps-raise, Keeps-lift, Keeps-reads, Keeps-bind, Keeps-modify, Keeps-for_each,
}
use mini_bpm_engine.InstanceOps.Deletion.{delete_instance}
use mini_bpm_engine.DefinitionOps.{deploy_as, deploy_subs, cascade_over, delete_definition}
use mini_bpm_engine.Filing.{IsFiled, Keeps-effect}
use mini_bpm_engine.Filing.Actions.{without_pending-IsFiled}

mutual
  unfolding deploy_as deploy_subs

  pub deploy_as-IsFiled :
      (def : ProcessDefinition) (own : ℤ) (e : Engine) → IsFiled e → IsFiled (deploy_as def own e)
  deploy_as-IsFiled (definition k i v n f l events subs) own e h = deploy_subs-IsFiled subs _ _ h

  pub deploy_subs-IsFiled :
      (subs : SubProcesses) (version : ℤ) (e : Engine)
      → IsFiled e
      → IsFiled (deploy_subs subs version e)
  deploy_subs-IsFiled nil version e h = h
  deploy_subs-IsFiled (cons sub rest) version e h =
      deploy_subs-IsFiled rest version _ (deploy_as-IsFiled sub version e h)

pub Keeps-delete_instance :
    (deleted : Result (Unit {0})) (instance_id : ℕ)
    → Keeps IsFiled (delete_instance deleted instance_id)
unfolding delete_instance
Keeps-delete_instance deleted instance_id =
    Keeps-bind _ _ (Keeps-bind _ _ (Keeps-reads _) (λ r. Keeps-lift _)) (λ removed_inst.
      Keeps-bind _ _
        (Keeps-modify _
          (λ e h. (remove-IsKeyed (λ i. i.id) e.instances instance_id h.0, h.1, h.2, h.3, h.4)))
        (λ u.
          Keeps-bind _ _ (Keeps-lift deleted)
            (λ u'. Keeps-modify _ (without_pending-IsFiled instance_id))))

Keeps-cascade :
    (deleted : Result (Unit {0})) (cascade : Bool) (instances : List ℕ)
    → Keeps IsFiled (cascade_over deleted cascade instances)
unfolding cascade_over
Keeps-cascade deleted cascade [] = Keeps-lift _
Keeps-cascade deleted false (i ∷ is) = Keeps-raise _
Keeps-cascade deleted true (i ∷ is) = Keeps-for_each (i ∷ is) _ (Keeps-delete_instance deleted)

pub Keeps-delete_definition :
    (deleted : Result (Unit {0})) (definition_key : ℕ) (cascade : Bool)
    → Keeps IsFiled (delete_definition deleted definition_key cascade)
unfolding delete_definition
Keeps-delete_definition deleted definition_key cascade = Keeps-bind _ _ (Keeps-reads _) (λ found.
    Keeps-bind _ _ (Keeps-lift _) (λ u. Keeps-bind _ _ (Keeps-reads _) (λ instances.
      Keeps-bind _ _ (Keeps-cascade deleted cascade instances) (λ u'.
        Keeps-bind _ _ (Keeps-modify _ (λ e h. h))
          (λ v. Keeps-bind _ _ (Keeps-lift deleted) (λ v'. Keeps-effect _))))))
