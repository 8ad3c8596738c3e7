-- ===== src/Fleet/Verified.antt =====
-- When HandleFleetCallback (internal/api/handlers_fleet.go) takes over a reported success, and when it turns
-- it into a failure for the lack of evidence.
use mathlib.Core.Path.{subst}
use admirald.Shared.{
  ◌≡◌, refl, sym, ◌∙◌, ◌⊎◌, ◌↔◌, inl, inr, Bool, true, false, ◌&&◌, Option, none, some,
  some_injective, Bool-cases, eq_iff, arith, Error, Result, ok, err,
}
use admirald.Instances.Instance.{CustomerApp, get_customer_app}
use admirald.Operations.Operation.{Operation}
use admirald.Fleet.State.{TaskResult, Control, Decoders, Catalog}
use admirald.Fleet.Evidence.{
  IsVerified, validate_restart_image_evidence, validate_restart_image_evidence-IsVerified,
}
use admirald.Fleet.Enqueue.{starts}
use admirald.Fleet.Callback.{verified, unless_refused, restarting_of, definition_name, asked_images}

-- A result must be shown by evidence: the operation starts an application, and the instance is there and
-- needs a restart.
pub record NeedsEvidence (op : Operation) (s : Control) (app : CustomerApp) : Type 0 where
  pub starting :
      (op.action ≡ "start_app") ⊎ (op.action ≡ "resume_app") ⊎ (op.action ≡ "reactivate_app")
  pub found : get_customer_app op.instance_id s.apps ≡ some app
  pub restarting : app.need_restarting ≡ true

module _ (dec : Decoders) (catalog : Catalog) (op : Operation) (res : TaskResult)
    (s : Control) where
  -- The report verifies the images that the operation, or else the application's definition, asks for.
  abbrev pub IsShownFor : CustomerApp → Type 0
  IsShownFor app =
      IsVerified (dec.images_of res.metadata) (asked_images op.metadata) app.app_definition_name
        (catalog.services_of app.app_definition_name)

  -- The result that is recorded.
  pub data IsChecked : TaskResult → Type 0 where
    by_node : res.success ≡ false → IsChecked res
    shown :
        res.success ≡ true
        → ((app : CustomerApp) → NeedsEvidence op s app → IsShownFor app)
        → IsChecked res
    unshown :
        (app : CustomerApp) (e : Error)
        → res.success ≡ true
        → NeedsEvidence op s app
        → (IsShownFor app → ⊥)
        → IsChecked (record res { success = false; error = dec.error_text e })

  starts_iff :
      (starts op.action ≡ true)
      ↔ ((op.action ≡ "start_app") ⊎ (op.action ≡ "resume_app") ⊎ (op.action ≡ "reactivate_app"))
  starts_iff =
      let a = eq_iff op.action "start_app" in
      let b = eq_iff op.action "resume_app" in
      let c = eq_iff op.action "reactivate_app" in ground arith

  judged :
      (app : CustomerApp)
      → res.success ≡ true
      → NeedsEvidence op s app
      → (r : Result (Unit {0}))
      → validate_restart_image_evidence
          (some true)
          (dec.images_of res.metadata)
          (asked_images op.metadata)
          app.app_definition_name
          (catalog.services_of app.app_definition_name)
        ≡ r
      → IsChecked (unless_refused dec res r)
  judged app success needed (ok tt) e = shown success (λ other n.
      let same : app ≡ other = some_injective app other (sym needed.found ∙ n.found) in
      subst IsShownFor same ((validate_restart_image_evidence-IsVerified _ _ _ _).0 e))
  judged app success needed (err x) e =
      unshown app x success needed
        (λ v. let fine = sym e ∙ (validate_restart_image_evidence-IsVerified _ _ _ _).1 v in cc)

  by_flag :
      (app : CustomerApp) (flag : Bool)
      → res.success ≡ true
      → starts op.action ≡ true
      → get_customer_app op.instance_id s.apps ≡ some app
      → app.need_restarting ≡ flag
      → IsChecked (
          unless_refused dec res (
            validate_restart_image_evidence
              (some flag)
              (dec.images_of res.metadata)
              (asked_images op.metadata)
              app.app_definition_name
              (catalog.services_of app.app_definition_name)))
  unfolding validate_restart_image_evidence
  by_flag app false success starting found idle = shown success (λ other n.
      let same : app ≡ other = some_injective app other (sym found ∙ n.found) in
      let busy = subst (λ (x : CustomerApp). x.need_restarting ≡ true) (sym same) n.restarting in
      absurd (let x = sym idle ∙ busy in cc))
  by_flag app true success starting found restarting =
      judged app success
        (record { starting = starts_iff.0 starting; found = found; restarting = restarting }) _ refl

  by_instance :
      (found : Option CustomerApp)
      → res.success ≡ true
      → starts op.action ≡ true
      → get_customer_app op.instance_id s.apps ≡ found
      → IsChecked (
          unless_refused dec res (
            validate_restart_image_evidence
              (restarting_of found)
              (dec.images_of res.metadata)
              (asked_images op.metadata)
              (definition_name found)
              (catalog.services_of (definition_name found))))
  unfolding validate_restart_image_evidence
  by_instance none success starting gone =
      shown success (λ app n. absurd (let x = sym gone ∙ n.found in cc))
  by_instance (some app) success starting found = by_flag app _ success starting found refl

  as_reported : res.success && starts op.action ≡ false → verified dec catalog op res s ≡ res
  unfolding verified
  as_reported h = rw (verified, h) refl

  -- Whatever is recorded is checked so.
  pub verified-IsChecked : IsChecked (verified dec catalog op res s)
  unfolding verified
  verified-IsChecked = elim (Bool-cases (res.success && starts op.action)) [
    | inl both ↦
        rw (verified, both)
          (by_instance (get_customer_app op.instance_id s.apps) (ground arith) (ground arith) refl)
    | inr skipped ↦ subst IsChecked (sym (as_reported skipped)) (elim (Bool-cases res.success) [
      | inr failure ↦ by_node failure
      | inl success ↦
          shown success
            (λ app n. let starting = starts_iff.1 n.starting in absurd (ground (arith, skipped)))
    ])
  ]
