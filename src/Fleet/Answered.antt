-- ===== src/Fleet/Answered.antt =====
-- The answers of HandleFleetCallback (internal/api/handlers_fleet.go), and what they say of the tables.
use admirald.Shared.{
  ℕ, ◌≡◌, ◌≢◌, refl, sym, ◌∙◌, ◌⊎◌, Bool, true, false, ap, if◌then◌else◌, Option, some, String,
  if_both, find-In, eq_iff,
}
use mathlib.Core.Path.{subst}
use admirald.Nodes.Capacity.{Floats}
use admirald.Queue.Publish.{Publisher}
use admirald.Operations.Operation.{Operation, is_operation, get_operation, is_over, null_if_empty}
use admirald.Fleet.State.{TaskResult, Control, Decoders, Catalog}
use admirald.Fleet.Effects.{Cleanup}
use admirald.Fleet.Callback.{
  CallbackAnswer, accepted, is_impostor, verified, record_ports, apply_result,
  handle_fleet_callback,
}
use admirald.Instances.Instance.{CustomerApp}
use admirald.Fleet.Verified.{
  NeedsEvidence, IsShownFor, IsChecked, by_node, shown, unshown, verified-IsChecked,
}
use admirald.Fleet.Outcomes.{
  Outcome, unknown, repeated, rejected, applied, settled_row, fail_fleet_callback_task-same,
  verified-operation_id, apply_result-found, callback_on-Outcome,
}

-- The row of an accepted callback's operation. Its status tells the result that the node reports, but for a
-- success that must be shown by evidence and is not, which is recorded as a failure.
pub data IsSettled (dec : Decoders) (catalog : Catalog) (op : Operation) (res : TaskResult)
    (s : Control) (row : Operation) : Type 0 where
  failed_by_node :
      res.success ≡ false
      → row ≡ record op {
        status = "failed";
        error_message = null_if_empty res.error;
        metadata = row.metadata;
      }
      → IsSettled dec catalog op res s row
  succeeded :
      res.success ≡ true
      → ((app : CustomerApp) → NeedsEvidence op s app → IsShownFor dec catalog op res s app)
      → row ≡ record op {
        status = "succeeded";
        error_message = null_if_empty res.error;
        metadata = row.metadata;
      }
      → IsSettled dec catalog op res s row
  not_shown :
      (app : CustomerApp)
      → res.success ≡ true
      → NeedsEvidence op s app
      → (IsShownFor dec catalog op res s app → ⊥)
      → row ≡ record op {
        status = "failed";
        error_message = row.error_message;
        metadata = row.metadata;
      }
      → IsSettled dec catalog op res s row

-- A callback that is not accepted leaves the instances, the nodes and the backups alone. One that is
-- accepted is for a recorded operation that had not ended, from its node and for its task, where it names
-- them, and settles its row.
pub data IsAnswered (dec : Decoders) (catalog : Catalog) (res : TaskResult) (s : Control)
    : CallbackAnswer × Control → Type 0 where
  not_accepted :
      {answer : CallbackAnswer} {u : Control}
      → answer ≢ accepted
      → u.apps ≡ s.apps
      → u.nodes ≡ s.nodes
      → u.backups ≡ s.backups
      → IsAnswered dec catalog res s (answer, u)
  is_accepted :
      (op row : Operation) {u : Control}
      → get_operation res.operation_id s.operations ≡ some op
      → is_over op.status ≡ false
      → (op.node_id ≡ "") ⊎ (op.node_id ≡ res.node_id)
      → (op.task_id ≡ "") ⊎ (op.task_id ≡ res.task_id)
      → get_operation res.operation_id u.operations ≡ some row
      → IsSettled dec catalog op res s row
      → IsAnswered dec catalog res s (accepted, u)

IsSettled-settled_row :
    (dec : Decoders) (catalog : Catalog) (op : Operation) (res : TaskResult) (s : Control)
    (v : TaskResult)
    → IsChecked dec catalog op res s v
    → IsSettled dec catalog op res s (settled_row dec op v)
IsSettled-settled_row dec catalog op res s v (by_node failure) = failed_by_node failure (
    ap
      (λ b. record op {
        status = if b then "succeeded" else "failed";
        error_message = null_if_empty res.error;
        metadata = (record_ports dec op res).metadata;
      })
      failure)
IsSettled-settled_row dec catalog op res s v (shown success evident) = succeeded success evident (
    ap
      (λ b. record op {
        status = if b then "succeeded" else "failed";
        error_message = null_if_empty res.error;
        metadata = (record_ports dec op res).metadata;
      })
      success)
IsSettled-settled_row dec catalog op res s v (unshown app e success needed missing) =
    not_shown app success needed missing refl

module _ {F : Type 0} (fl : Floats F) (dec : Decoders) (is_blank : String → Bool) (p : Publisher)
    (now : ℕ) (catalog : Catalog) (fresh : Cleanup) where
  outcome-IsAnswered :
      (res : TaskResult) (s : Control) {r : CallbackAnswer × Control}
      → Outcome fl dec is_blank p now catalog fresh res s r
      → IsAnswered dec catalog res s r
  outcome-IsAnswered res s (unknown e same) =
      not_accepted (λ h. cc) same.same_apps same.same_nodes same.same_backups
  outcome-IsAnswered res s (repeated op e over same) =
      not_accepted (λ h. cc) same.same_apps same.same_nodes same.same_backups
  outcome-IsAnswered res s (rejected op reason answer found going other same) =
      not_accepted other same.same_apps same.same_nodes same.same_backups
  outcome-IsAnswered res s (applied op found going from_node for_task) =
      let v = verified dec catalog op res s in
      let same_id : op.id ≡ res.operation_id =
        (eq_iff op.id res.operation_id).0
          (find-In (is_operation res.operation_id) s.operations op found).1 in
      is_accepted op (settled_row dec op v) found going from_node for_task
        (subst
          (λ i.
            get_operation i (apply_result fl dec is_blank p now catalog fresh op v s).operations
            ≡ some (settled_row dec op v))
          same_id
          (apply_result-found fl dec is_blank p now catalog fresh op v s
            (same_id ∙ sym (verified-operation_id dec catalog op res s))
            (subst (λ i. get_operation i s.operations ≡ some op) (sym same_id) found)))
        (IsSettled-settled_row dec catalog op res s v (verified-IsChecked dec catalog op res s))

  -- Every callback is answered so: if it is not accepted, no instance, node or backup changes; if it is, it
  -- came from the node and for the task that its operation names, if it names them, the operation had not
  -- ended, and its row now tells the result. A reported success is recorded as a failure exactly where
  -- the operation is to start, resume or reactivate an instance that is there and needs a restart, and
  -- the report does not verify the images that the operation, or else the application's definition, asks
  -- for.
  pub handle_fleet_callback-IsAnswered :
      (authenticated : Option String) (res : TaskResult) (s : Control)
      → IsAnswered dec catalog res s
          (handle_fleet_callback fl dec is_blank p now catalog fresh authenticated res s)
  unfolding handle_fleet_callback
  handle_fleet_callback-IsAnswered authenticated res s =
      let refused =
        fail_fleet_callback_task-same now res.task_id
          "callback node_id does not match authenticated node" s in
      if_both (IsAnswered dec catalog res s) (is_impostor authenticated res.node_id) _ _
        (not_accepted (λ h. cc) refused.same_apps refused.same_nodes refused.same_backups)
        (outcome-IsAnswered res s (
          callback_on-Outcome fl dec is_blank p now catalog fresh res
            (get_operation res.operation_id s.operations) s refl))
