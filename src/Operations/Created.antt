-- ===== src/Operations/Created.antt =====
-- When CreateMigrationOperation of internal/database/operations.go creates a migration.
use admirald.Shared.{
  ◌≡◌, ◌↔◌, inl, inr, true, false, Option, some, String, List, [], ◌∷◌, ◌++◌, any, arith, eq_iff,
  ◌==◌, find-In, any-hit, ap, none, some_injective, Option-cases,
}
use admirald.Instances.Instance.{CustomerApp, get_customer_app}
use admirald.Operations.Operation.{
  Operation, OperationMetadata, is_operation, create_operation_with_metadata,
}
use admirald.Operations.Migration.{
  migration_created, stands_on, is_active_on, create_migration_on, create_migration_operation,
}

-- What a created migration found, and what it inserted.
pub record IsMigrating (apps : List CustomerApp) (id instance_id source_node_id admin_user : String)
    (metadata : Option OperationMetadata) (t : List Operation) : Type 0 where
  pub app : CustomerApp
  pub listed : get_customer_app instance_id apps ≡ some app
  pub on_source : app.node_id ≡ some source_node_id
  pub runs : app.technical_status ≡ "running"
  pub idle : any (is_active_on instance_id) t ≡ false
  pub fresh : any (is_operation id) t ≡ false

abbrev pub migration_of : String → String → String → String → Option OperationMetadata → Operation
migration_of id instance_id source_node_id admin_user metadata = record {
  id = id;
  instance_id = instance_id;
  node_id = source_node_id;
  task_id = "";
  action = "migrate";
  status = "running";
  error_message = none;
  admin_user = admin_user;
  metadata = metadata;
}

module _ (apps : List CustomerApp) (id instance_id source_node_id admin_user : String)
    (metadata : Option OperationMetadata) (t : List Operation) where
  abbrev row : Operation
  row = migration_of id instance_id source_node_id admin_user metadata

  stands_on-some :
      (node : Option String) → (stands_on source_node_id node ≡ true) ↔ (node ≡ some source_node_id)
  stands_on-some none = ((λ h. cc), (λ h. cc))
  stands_on-some (some n) =
      let same = eq_iff n source_node_id in
      ((λ h. ap (λ x. some x) (same.0 h)), (λ e. same.1 (some_injective n source_node_id e)))

  found_app :
      (app : CustomerApp)
      → get_customer_app instance_id apps ≡ some app
      → any (λ a. a.id == instance_id) apps ≡ true
  found_app app found =
      let (m, hit) = find-In (λ a. a.id == instance_id) apps app found in
      any-hit (λ a. a.id == instance_id) app apps m hit

  migrating :
      (app : CustomerApp) (u : List Operation)
      → get_customer_app instance_id apps ≡ some app
      → create_migration_on apps id instance_id source_node_id admin_user metadata app t
        ≡ migration_created u
      → IsMigrating apps id instance_id source_node_id admin_user metadata t × (u ≡ t ++ row ∷ [])
  unfolding create_migration_on create_operation_with_metadata
  migrating app u found h =
      let stands = stands_on-some app.node_id in
      let status = eq_iff app.technical_status "running" in
      let there = found_app app found in
      (
        record {
          app = app;
          listed = found;
          on_source = stands.0 (ground arith);
          runs = ground arith;
          idle = ground arith;
          fresh = ground arith;
        },
        ground arith,
      )

  made :
      (u : List Operation)
      → IsMigrating apps id instance_id source_node_id admin_user metadata t
      → u ≡ t ++ row ∷ []
      → create_migration_operation apps id instance_id source_node_id admin_user metadata t
        ≡ migration_created u
  unfolding create_migration_operation create_migration_on create_operation_with_metadata
  made u v e =
      let app = v.app in
      let here = (stands_on-some app.node_id).1 v.on_source in
      let status = (eq_iff app.technical_status "running").1 v.runs in
      let there = found_app app v.listed in
      let idle = v.idle in
      let fresh = v.fresh in
      rw
        (
          create_migration_operation, v.listed, create_migration_on, here, status, idle,
          create_operation_with_metadata, fresh, there,
        )
        (ground arith)

  -- A migration is created exactly if the instance exists, runs on the source node and has no operation
  -- under way, and the identifier of the operation is new; the table then has the migration as its last
  -- row, running.
  pub create_migration_operation-IsMigrating :
      (u : List Operation)
      → (create_migration_operation apps id instance_id source_node_id admin_user metadata t
          ≡ migration_created u)
        ↔ (IsMigrating apps id instance_id source_node_id admin_user metadata t
            × (u ≡ t ++ row ∷ []))
  unfolding create_migration_operation
  create_migration_operation-IsMigrating u = (
    λ h. elim (Option-cases (get_customer_app instance_id apps)) [
      | inl gone ↦ absurd (ground arith)
      | inr (app, found) ↦ migrating app u found (ground arith)
    ],
    λ v. made u v.0 v.1,
  )
