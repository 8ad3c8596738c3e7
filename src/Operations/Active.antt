-- ===== src/Operations/Active.antt =====
-- Migrations of an instance exclude each other: a history of the table of operations.
use mathlib.Core.Path.{subst}
use mathlib.Core.List.{map-append}
use admirald.Shared.{
  ◌≡◌, ◌≢◌, ◌⊎◌, refl, sym, ◌∙◌, inl, inr, Bool, true, false, ◌&&◌, Option, String, List, [], ◌∷◌,
  ◌++◌, map, any, arith, eq_iff, ◌==◌, In, Distinct, Distinct-append_one, In-append_one, row_of_key,
  none, update_where, update_where_origin, map-update_where, ok,
}
use admirald.Instances.Instance.{CustomerApp}
use admirald.Operations.Operation.{
  Operation, OperationMetadata, is_operation, is_over, is_under_way, create_operation_with_metadata,
  update_operation_metadata, update_operation_task_id, update_operation,
  mark_operation_queued_if_pending_dispatch,
}
use admirald.Operations.Created.{create_migration_operation-IsMigrating, migration_of}
use admirald.Operations.Migration.{migration_created, is_active_on, create_migration_operation}

-- One statement on the table. Only `create_migration_operation` inserts an operation with the action
-- "migrate", and the code only sets statuses at which an operation has ended.
pub data Step (t : List Operation) : List Operation → Type 0 where
  create :
      (apps : List CustomerApp) (id instance_id node_id action status admin_user : String)
      (metadata : Option OperationMetadata) {u : List Operation}
      → action ≢ "migrate"
      → create_operation_with_metadata apps id instance_id node_id action status admin_user metadata
          t
        ≡ ok u
      → Step t u
  migrate :
      (apps : List CustomerApp) (id instance_id source_node_id admin_user : String)
      (metadata : Option OperationMetadata) {u : List Operation}
      → create_migration_operation apps id instance_id source_node_id admin_user metadata t
        ≡ migration_created u
      → Step t u
  describe :
      (id : String) (metadata : Option OperationMetadata)
      → Step t (update_operation_metadata id metadata t)
  assign : (id task_id : String) → Step t (update_operation_task_id id task_id t)
  queue : (id : String) → Step t (mark_operation_queued_if_pending_dispatch id t)
  settle :
      (id status error_msg : String)
      → is_over status ≡ true
      → Step t (update_operation id status error_msg t)

pub data Reach : List Operation → Type 0 where
  empty : Reach []
  next : {t u : List Operation} → Reach t → Step t u → Reach u

-- A migration that has not ended.
abbrev pub is_open_migration : Operation → Bool
is_open_migration o = (o.action == "migrate") && is_under_way o.status

-- The open migrations of an instance are one row.
pub record IsSingle (t : List Operation) : Type 0 where
  pub ids_distinct : Distinct (map (λ o. o.id) t)
  pub single :
      (a b : Operation)
      → In a t
      → In b t
      → is_open_migration a ≡ true
      → is_open_migration b ≡ true
      → a.instance_id ≡ b.instance_id
      → a.id ≡ b.id

-- An update that opens no migration.
IsSingle-update_where :
    (p : Operation → Bool) (f : Operation → Operation) (t : List Operation)
    → ((x : Operation) → (f x).id ≡ x.id)
    → ((x : Operation) → (f x).instance_id ≡ x.instance_id)
    → ((x : Operation) → p x ≡ true → is_open_migration (f x) ≡ true → is_open_migration x ≡ true)
    → IsSingle t
    → IsSingle (update_where p f t)
IsSingle-update_where p f t same_id same_instance opens s = record {
  ids_distinct = rw (map-update_where (λ o. o.id) p f same_id t) s.ids_distinct;
  single = λ a b ma mb oa ob e.
      let (x, mx, ix, jx, ox) = before a ma oa in
      let (y, my, iy, jy, oy) = before b mb ob in
      ix ∙ s.single x y mx my ox oy (sym jx ∙ e ∙ jy) ∙ sym iy;
}
  where
    before :
        (a : Operation)
        → In a (update_where p f t)
        → is_open_migration a ≡ true
        → (x : Operation) × In x t
          × (a.id ≡ x.id)
          × (a.instance_id ≡ x.instance_id)
          × (is_open_migration x ≡ true)
    before a m o =
        let (x, mx, from) = update_where_origin p f a t m in
        elim from [
          | inl e ↦ (x, mx, rw e refl, rw e refl, rw (← e) o)
          | inr (hit, e) ↦
              (x, mx, rw e (same_id x), rw e (same_instance x), opens x hit (rw (← e) o))
        ]

not_any-In :
    (p : Operation → Bool) (a : Operation) (t : List Operation)
    → any p t ≡ false
    → In a t
    → p a ≡ false
not_any-In p a [] h m = absurd m
not_any-In p a (x ∷ xs) h (inl e) = rw e (ground arith)
not_any-In p a (x ∷ xs) h (inr m) = not_any-In p a xs (ground arith) m

id_not_In :
    (id : String) (t : List Operation)
    → any (is_operation id) t ≡ false
    → In id (map (λ o. o.id) t)
    → ⊥
id_not_In id [] h m = m
id_not_In id (x ∷ xs) h (inl e) = ground (arith, eq_iff x.id id)
id_not_In id (x ∷ xs) h (inr m) = id_not_In id xs (ground arith) m

-- An insert of a row with a new ID, where an open migration meets none of its instance.
IsSingle-append :
    (o : Operation) (t : List Operation)
    → any (is_operation o.id) t ≡ false
    → (is_open_migration o ≡ true → any (is_active_on o.instance_id) t ≡ false)
    → IsSingle t
    → IsSingle (t ++ o ∷ [])
IsSingle-append o t fresh alone s = record {
  ids_distinct =
      rw (map-append (λ x. x.id) t (o ∷ []))
        (Distinct-append_one o.id (map (λ x. x.id) t) (id_not_In o.id t fresh) s.ids_distinct);
  single = λ a b ma mb oa ob e. elim (In-append_one a o t ma) [
    | inl m ↦ elim (In-append_one b o t mb) [
      | inl n ↦ s.single a b m n oa ob e
      | inr eb ↦
          absurd (excluded a m oa (subst (λ x. is_open_migration x ≡ true) eb ob) (e ∙ rw eb refl))
    ]
    | inr ea ↦ elim (In-append_one b o t mb) [
      | inl n ↦
          absurd
            (excluded b n ob (subst (λ x. is_open_migration x ≡ true) ea oa) (sym e ∙ rw ea refl))
      | inr eb ↦ rw (ea, eb) refl
    ]
  ];
}
  where
    excluded :
        (x : Operation)
        → In x t
        → is_open_migration x ≡ true
        → is_open_migration o ≡ true
        → x.instance_id ≡ o.instance_id
        → ⊥
    excluded x m ox oo e =
        let idle = not_any-In (is_active_on o.instance_id) x t (alone oo) m in
        ground (arith, eq_iff x.instance_id o.instance_id)

-- A status at which an operation has ended is none of one under way.
over_cases :
    (status : String)
    → is_over status ≡ true
    → (status ≡ "succeeded") ⊎ ((status ≡ "failed") ⊎ (status ≡ "cancelled"))
over_cases status h =
    let a = eq_iff status "succeeded" in
    let b = eq_iff status "failed" in let c = eq_iff status "cancelled" in ground arith

pub over_not_under_way : (status : String) → is_over status ≡ true → is_under_way status ≡ false
over_not_under_way status h = elim (over_cases status h) [
  | inl e ↦ subst (λ x. is_under_way x ≡ false) (sym e) refl
  | inr (inl e) ↦ subst (λ x. is_under_way x ≡ false) (sym e) refl
  | inr (inr e) ↦ subst (λ x. is_under_way x ≡ false) (sym e) refl
]

create-IsSingle :
    (apps : List CustomerApp) (id instance_id node_id action status admin_user : String)
    (metadata : Option OperationMetadata) (t u : List Operation)
    → action ≢ "migrate"
    → create_operation_with_metadata apps id instance_id node_id action status admin_user metadata t
      ≡ ok u
    → IsSingle t
    → IsSingle u
unfolding create_operation_with_metadata
create-IsSingle apps id instance_id node_id action status admin_user metadata t u other h s =
    let o : Operation = record {
      id = id;
      instance_id = instance_id;
      node_id = node_id;
      task_id = "";
      action = action;
      status = status;
      error_message = none;
      admin_user = admin_user;
      metadata = metadata;
    } in
    let same : t ++ o ∷ [] ≡ u = ground arith in
    let fresh : any (is_operation id) t ≡ false = ground arith in
    let no_migration : action == "migrate" ≡ false = ground (arith, eq_iff action "migrate") in
    subst IsSingle same (IsSingle-append o t fresh (λ shown. absurd (ground arith)) s)

-- Every statement keeps the open migrations of an instance one row.
pub Step-IsSingle : {t u : List Operation} → Step t u → IsSingle t → IsSingle u
unfolding update_operation_metadata update_operation_task_id update_operation
    mark_operation_queued_if_pending_dispatch
Step-IsSingle {t} {u} (create apps id instance_id node_id action status admin_user metadata other h)
      s =
    create-IsSingle apps id instance_id node_id action status admin_user metadata t u other h s
Step-IsSingle {t} {u} (migrate apps id instance_id source_node_id admin_user metadata h) s =
    let (v, same) =
      (create_migration_operation-IsMigrating apps id instance_id source_node_id admin_user metadata
          t u).0
        h in
    let o = migration_of id instance_id source_node_id admin_user metadata in
    subst IsSingle (sym same) (IsSingle-append o t v.fresh (λ _. v.idle) s)
Step-IsSingle {t} (describe id metadata) s =
    IsSingle-update_where _ _ t (λ x. refl) (λ x. refl) (λ x hit o. o) s
Step-IsSingle {t} (assign id task_id) s =
    IsSingle-update_where _ _ t (λ x. refl) (λ x. refl) (λ x hit o. o) s
Step-IsSingle {t} (queue id) s =
    IsSingle-update_where _ _ t (λ x. refl) (λ x. refl) (λ x hit o. ground arith) s
Step-IsSingle {t} (settle id status error_msg over) s =
    IsSingle-update_where _ _ t (λ x. refl) (λ x. refl)
      (λ x hit o. let ended = over_not_under_way status over in absurd (ground arith)) s

Reach-IsSingle : {t : List Operation} → Reach t → IsSingle t
Reach-IsSingle empty = record { ids_distinct = tt; single = λ a b ma mb oa ob e. absurd ma }
Reach-IsSingle (next r s) = Step-IsSingle s (Reach-IsSingle r)

-- Whatever statements the table has seen, two migrations of an instance that have not ended are the same
-- operation.
pub open_migrations_same :
    {t : List Operation}
    → Reach t
    → (a b : Operation) → In a t
    → In b t
    → is_open_migration a ≡ true
    → is_open_migration b ≡ true
    → a.instance_id ≡ b.instance_id
    → a ≡ b
open_migrations_same {t} r a b ma mb oa ob e =
    let s = Reach-IsSingle r in
    row_of_key (λ o. o.id) a b t s.ids_distinct ma mb (s.single a b ma mb oa ob e)
