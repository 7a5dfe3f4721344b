-- ===== src/Write/Atomicity.antt =====
-- The three writes of src/write.rs are atomic actions.
use task_db.Idem
use task_db.Sql.{scope_of, reach_of}
use task_db.Write.Payload.{create_payload, update_payload, delete_payload}
use task_db.Prelude.{codes, ◌++◌, ℕ, ◌==◌, ℤ, Text, Option, none, some, List, ◌∙◌}
use task_db.Status.{Status, ok_or, refuse, task_is_required}
use task_db.Proto.{
  Scope, Idempotency, Task, CreateTaskRequest, CreateTaskResponse, UpdateTaskRequest,
  UpdateTaskResponse, DeleteTaskRequest, DeleteTaskResponse,
}
use task_db.Engine.{Engine}
use task_db.Wire.{Wire, Codec}
use task_db.Txn.{
  SqlResult, done, failed, execute, Rpc, lift, acquire, begin, pure, commit, ◌>>=◌, ◌>>◌,
}
use task_db.Write.Mask.{Field, fields_of}
use task_db.Txn.Atomic.{
  Quiet, committed-execute, Heard-execute, Atomic, Quiet-lift, Quiet-pure, Quiet-execute,
  Quiet-bind, Quiet-if, Atomic-bind, Atomic-of_Quiet, Atomic-commit, Atomic-if, quiet_rules,
  Quiet-raise, Quiet-acquire, Quiet-begin, Quiet-rollback,
}
use task_db.Idem.{
  Presented, Claimed, proceed, replay, replay_claim, claim, record_outcome, after_insert,
  claim_present, record_present, present, is_duplicate, caller_fingerprint,
}
use task_db.Write.{
  answer_replay, refuse_write, update_refusal, delete_refusal, assigned_by_the_module,
}
use task_db.Write.Create.{create, create_claimed, create_or_replay, allocate_number}
use task_db.Write.Delete.{delete, delete_claimed, delete_or_replay}
use task_db.Write.Update.{
  update, update_claimed, update_or_replay, update_found, previous_status, updated,
}

module _ (e : Engine) {T : Type 0} (codec : Codec T) (scope : Scope) where
  Quiet-replay_claim : (key : Text) (p : Presented) → Quiet (replay_claim e codec scope key p)
  unfolding replay_claim
  Quiet-replay_claim key p = search quiet_rules

  Quiet-after_insert :
      (key : Text) (p : Presented) (r : SqlResult (Unit {0}))
      → Quiet (after_insert e codec scope key p r)
  Quiet-after_insert key p (done t) = Quiet-pure proceed
  Quiet-after_insert key p (failed x) =
      Quiet-if (is_duplicate x) _ _ (Quiet-replay_claim key p) (Quiet-lift _)

  pub Quiet-claim :
      (w : Wire) (rpc : Text) (idem : Option Idempotency) (caller : Option (List ℕ))
      (payload : List ℕ)
      → Quiet (claim e codec scope w rpc idem caller payload)
  unfolding claim
  Quiet-claim w rpc idem caller payload =
      elim (present idem) as (λ k. Quiet (claim_present e codec scope w rpc caller payload k)) [
        | none ↦ Quiet-pure proceed
        | some key ↦ record {
          at = λ s.
              (Quiet-after_insert key _ (execute _ s).0).at (execute _ s).1 ∙ committed-execute _ s;
          heard = λ s h.
              (Quiet-after_insert key _ (execute _ s).0).heard (execute _ s).1
                (Heard-execute _ s h);
        }
      ]

  Quiet-record_outcome :
      (idem : Option Idempotency) (t : T) → Quiet (record_outcome e codec scope idem t)
  unfolding record_outcome
  Quiet-record_outcome idem t =
      elim (present idem) as (λ k. Quiet (record_present e codec scope t k)) [
        | none ↦ Quiet-pure tt
        | some key ↦ Quiet-execute _
      ]

Quiet-answer_replay : {T : Type 0} (t : T) → Quiet (answer_replay t)
Quiet-answer_replay t = Quiet-bind _ _ Quiet-rollback (λ u. Quiet-pure t)

Quiet-refuse_write : {T : Type 0} (x : Status) → Quiet (refuse_write {T = T} x)
Quiet-refuse_write x = Quiet-bind _ _ Quiet-rollback (λ u. Quiet-raise x)

-- What every write ends with: its outcome is recorded and committed.
module _ (e : Engine) {T : Type 0} (codec : Codec T) (scope : Scope) where
  Atomic-finish :
      (idem : Option Idempotency) (t : T)
      → Atomic (record_outcome e codec scope idem t >> (commit >> pure t))
  Atomic-finish idem t =
      Atomic-bind _ _ (Quiet-record_outcome e codec scope idem t) (λ u. Atomic-commit t)

module _ (e : Engine) (w : Wire) where
  Atomic-create_claimed :
      (urn : Text) (req : CreateTaskRequest) (scope : Scope) (task : Task)
      → Atomic (create_claimed e w urn req scope task)
  unfolding create_claimed allocate_number
  Atomic-create_claimed urn req scope task =
      Atomic-bind _ _ (Quiet-bind _ _ (Quiet-execute _) (λ u. Quiet-execute _))
        λ number. Atomic-bind _ _ (Quiet-execute _) λ u. Atomic-finish e w.create_response scope _ _

  -- A transaction that takes a claim, and replays it or goes on.
  Atomic-claimed :
      {T : Type 0} (codec : Codec T) (scope : Scope) (rpc : Text) (idem : Option Idempotency)
      (caller : Option (List ℕ)) (payload : List ℕ) (next : Claimed T → Rpc T)
      → ((c : Claimed T) → Atomic (next c))
      → Atomic (acquire >> (begin >> (claim e codec scope w rpc idem caller payload >>= next)))
  Atomic-claimed codec scope rpc idem caller payload next h =
      Atomic-bind acquire _ Quiet-acquire λ u.
        Atomic-bind begin _ Quiet-begin
          λ u. Atomic-bind _ next (Quiet-claim e codec scope w rpc idem caller payload) h

  Atomic-create_or_replay :
      (urn : Text) (req : CreateTaskRequest) (scope : Scope) (task : Task)
      (c : Claimed CreateTaskResponse)
      → Atomic (create_or_replay e w urn req scope task c)
  Atomic-create_or_replay urn req scope task proceed = Atomic-create_claimed urn req scope task
  Atomic-create_or_replay urn req scope task (replay t) = Atomic-of_Quiet _ (Quiet-answer_replay t)

  pub create-Atomic : (uuid : Text) (req : CreateTaskRequest) → Atomic (create e w uuid req)
  unfolding create
  create-Atomic uuid req = Atomic-bind (lift (scope_of req.scope)) _ (Quiet-lift _) λ scope.
      Atomic-bind (lift (ok_or req.task (refuse task_is_required))) _ (Quiet-lift _) λ task.
        Atomic-bind (lift (assigned_by_the_module task.meta)) _ (Quiet-lift _) λ u.
          Atomic-claimed w.create_response scope Idem.create_task req.idempotency none
            (create_payload w req)
            (create_or_replay e w (codes "yadgar:task:" ++ uuid) req scope task)
            (Atomic-create_or_replay (codes "yadgar:task:" ++ uuid) req scope task)

  Atomic-update_found :
      (req : UpdateTaskRequest) (scope : Scope) (task : Task) (fields : List Field) (o : Option ℤ)
      → Atomic (update_found e w req scope task fields o)
  Atomic-update_found req scope task fields none =
      Atomic-of_Quiet _ (Quiet-refuse_write update_refusal)
  Atomic-update_found req scope task fields (some previous) = Atomic-bind _ _ (Quiet-execute _) λ n.
      Atomic-if (n == 0) _ _ (Atomic-of_Quiet _ (Quiet-refuse_write update_refusal))
        (Atomic-finish e w.update_response scope req.idempotency (updated e w req scope previous))

  Atomic-update_or_replay :
      (req : UpdateTaskRequest) (scope : Scope) (task : Task) (fields : List Field)
      (c : Claimed UpdateTaskResponse)
      → Atomic (update_or_replay e w req scope task fields c)
  unfolding update_claimed previous_status
  Atomic-update_or_replay req scope task fields proceed =
      Atomic-bind (previous_status e w (reach_of scope) req) _ (Quiet-execute _)
        λ o. Atomic-update_found req scope task fields o
  Atomic-update_or_replay req scope task fields (replay t) =
      Atomic-of_Quiet _ (Quiet-answer_replay t)

  pub update-Atomic : (req : UpdateTaskRequest) → Atomic (update e w req)
  unfolding update
  update-Atomic req = Atomic-bind (lift (scope_of req.scope)) _ (Quiet-lift _) λ scope.
      Atomic-bind (lift (ok_or req.task (refuse task_is_required))) _ (Quiet-lift _) λ task.
        Atomic-bind (lift (assigned_by_the_module task.meta)) _ (Quiet-lift _) λ u.
          Atomic-bind (lift (fields_of req.update_mask)) _ (Quiet-lift _) λ fields.
            Atomic-bind (lift (caller_fingerprint req.caller_fingerprint)) _ (Quiet-lift _)
              λ caller.
                Atomic-claimed w.update_response scope Idem.update_task req.idempotency caller
                  (update_payload w req) (update_or_replay e w req scope task fields)
                  (Atomic-update_or_replay req scope task fields)

  Atomic-delete_or_replay :
      (now : ℕ) (req : DeleteTaskRequest) (scope : Scope) (c : Claimed DeleteTaskResponse)
      → Atomic (delete_or_replay e w now req scope c)
  unfolding delete_claimed
  Atomic-delete_or_replay now req scope proceed = Atomic-bind _ _ (Quiet-execute _) λ n.
      Atomic-if (n == 0) _ _ (Atomic-of_Quiet _ (Quiet-refuse_write delete_refusal))
        (Atomic-finish e w.delete_response scope req.idempotency (record {}))
  Atomic-delete_or_replay now req scope (replay t) = Atomic-of_Quiet _ (Quiet-answer_replay t)

  pub delete-Atomic : (now : ℕ) (req : DeleteTaskRequest) → Atomic (delete e w now req)
  unfolding delete
  delete-Atomic now req = Atomic-bind (lift (scope_of req.scope)) _ (Quiet-lift _) λ scope.
      Atomic-bind (lift (caller_fingerprint req.caller_fingerprint)) _ (Quiet-lift _) λ caller.
        Atomic-claimed w.delete_response scope Idem.delete_task req.idempotency caller
          (delete_payload w req) (delete_or_replay e w now req scope)
          (Atomic-delete_or_replay now req scope)
