-- ===== src/Resume/Plan.antt =====
-- resume.go: what to run for a session, from its plan and template or from its recorded entry.
use sandboxd_teleport.Prelude.{
  ℕ, String, true, false, Option, none, some, List, [], ◌∷◌, str_eq, ◌==◌, if◌then◌else◌,
  no_resolver, no_template, no_image, Result, ok, err,
}
use sandboxd_teleport.Api.{SessionEntry}
use sandboxd_teleport.Valkey.{Valkey}
use sandboxd_teleport.Resume.Types.{TemplateSpec, SessionPlan, BindSpec, World}

abbrev pub or_text : String → String → String
or_text a b = if str_eq a "" then b else a

abbrev pub or_number : ℕ → ℕ → ℕ
or_number a b = if a == 0 then b else a

abbrev pub or_list {ℓ} : {A : Type ℓ} → List A → List A → List A
or_list [] ys = ys
or_list (x ∷ xs) ys = x ∷ xs

-- Resolve the plan and its template into what to run. A template's image replaces the plan's; the
-- rest of the template fills what the plan leaves empty.
unfoldable pub merge_template : SessionPlan → TemplateSpec → BindSpec
merge_template plan tmpl = record {
  restore = false;
  image = tmpl.image;
  cmd = or_list plan.cmd tmpl.cmd;
  env = or_list plan.env tmpl.env;
  ports = or_list plan.ports tmpl.ports;
  health = tmpl.health;
  snapshot = "";
  iam_role = or_text plan.iam_role tmpl.iam_role;
  runtime = "";
  engine_version = "";
  egress = or_number plan.egress tmpl.egress;
  ingress = or_number plan.ingress tmpl.ingress;
  idle_timeout = tmpl.idle_timeout;
  checkpoint_interval = tmpl.checkpoint_interval;
  seed = none;
}

-- Without a template: the plan as it is.
unfoldable pub inline_spec : SessionPlan → BindSpec
inline_spec plan = record {
  restore = false;
  image = plan.image;
  cmd = plan.cmd;
  env = plan.env;
  ports = plan.ports;
  health = none;
  snapshot = "";
  iam_role = plan.iam_role;
  runtime = "";
  engine_version = "";
  egress = plan.egress;
  ingress = plan.ingress;
  idle_timeout = 0;
  checkpoint_interval = 0;
  seed = none;
}

abbrev pub found_template : SessionPlan → Option TemplateSpec → Result BindSpec
found_template plan none = err no_template
found_template plan (some tmpl) = ok (merge_template plan tmpl)

-- The per-session idle timeout wins, and there must be an image.
unfoldable pub finish_spec : SessionPlan → BindSpec → Result BindSpec
finish_spec plan b =
    if str_eq b.image ""
    then err no_image
    else ok (record b { idle_timeout = or_number plan.idle_timeout_override b.idle_timeout })

unfoldable pub finish : SessionPlan → Result BindSpec → Result BindSpec
unfolding finish_spec
finish plan (ok b) = finish_spec plan b
finish plan (err x) = err x

unfoldable pub resolve : (k : Valkey) → World k → SessionPlan → Result BindSpec
unfolding merge_template inline_spec finish
resolve k w plan =
    if str_eq plan.app_name ""
    then (if str_eq plan.template_name ""
        then finish plan (ok (inline_spec plan))
        else finish plan (found_template plan (w.lookup plan.template_name)))
    else elim w.app_lookup [
      | none ↦ err no_resolver
      | some find ↦ finish plan (found_template plan (find plan.app_name))
    ]

-- What a recorded session restores from.
unfoldable pub restore_spec : SessionEntry → BindSpec
restore_spec cur = record {
  restore = true;
  image = cur.image;
  cmd = [];
  env = [];
  ports = cur.ports;
  health = cur.health;
  snapshot = cur.snapshot;
  iam_role = cur.iam_role;
  runtime = cur.runtime;
  engine_version = cur.engine_version;
  egress = cur.egress;
  ingress = cur.ingress;
  idle_timeout = cur.idle_timeout;
  checkpoint_interval = cur.checkpoint_interval;
  seed = some cur;
}
