-- ===== src/Operations/Tests.antt =====
-- A migration of a running instance.
use admirald.Shared.{◌≡◌, ◌↔◌, refl, inl, false, none, some, [], ◌∷◌}
use admirald.Instances.Instance.{CustomerApp}
use admirald.Operations.Operation.{Operation, create_operation_with_metadata}
use admirald.Operations.Migration.{
  migration_created, create_migration_on, create_migration_operation,
}
use admirald.Operations.Created.{IsMigrating, migration_of, create_migration_operation-IsMigrating}
use admirald.Operations.Active.{Reach, empty, next, migrate, open_migrations_same}

abbrev app : CustomerApp
app = record {
  id = "app-1";
  customer_id = "cust";
  app_definition_name = "wiki";
  tier_name = "small";
  node_id = some "n1";
  commercial_status = "active";
  technical_status = "running";
  tier_snapshot_json = "{}";
  logical_instance_id = "app-1";
  inspect_data = "";
  setup_completed = false;
  need_restarting = false;
}

abbrev migration : Operation
migration = migration_of "op-1" "app-1" "n1" "root" none

create_migration :
    create_migration_operation (app ∷ []) "op-1" "app-1" "n1" "root" none []
    ≡ migration_created (migration ∷ [])
unfolding create_migration_operation create_migration_on create_operation_with_metadata
create_migration = refl

history : Reach (migration ∷ [])
history = next empty (migrate (app ∷ []) "op-1" "app-1" "n1" "root" none create_migration)

open_migrations_same_example : migration ≡ migration
open_migrations_same_example =
    open_migrations_same history migration migration (inl refl) (inl refl) refl refl refl

create_migration_operation-IsMigrating_example :
    (create_migration_operation (app ∷ []) "op-1" "app-1" "n1" "root" none []
      ≡ migration_created (migration ∷ []))
    ↔ (IsMigrating (app ∷ []) "op-1" "app-1" "n1" "root" none []
        × (migration ∷ [] ≡ migration ∷ []))
create_migration_operation-IsMigrating_example =
    create_migration_operation-IsMigrating (app ∷ []) "op-1" "app-1" "n1" "root" none []
      (migration ∷ [])
