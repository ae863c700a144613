-- ===== src/Controllers/Plans.antt =====
-- resume_glue.go: what the workflows are told of the custom resources: the plan of a session, which is
-- made when the session has none, its workload's template, and its idle and checkpoint policies. An
-- error of a plan is `no_plan`.
pub mod Admitted
use sandboxd_teleport.Prelude.{
  ℕ, String, Bool, true, false, not, ◌&&◌, ◌||◌, Option, none, some, List, [], ◌∷◌, str_eq, ltb,
  ◌==◌, if◌then◌else◌, Error, no_plan, Result, ok, err,
}
use sandboxd_teleport.Api.{Health}
use sandboxd_teleport.Cluster.{
  Objects, Answers, Write, done, conflict, gone, failed, Session, CrHealth, Workload, Catalog,
  operator, port_copies,
}
use sandboxd_teleport.Resume.Types.{TemplateSpec, SessionPlan}
use sandboxd_teleport.Controllers.Forks.{no_status}

-- The health of a template, with its idle timeout.
unfoldable pub health_of : Option CrHealth → ℕ → Option Health
health_of none idle = none
health_of (some h) idle = some (record {
  restart_policy = h.restart_policy;
  probe = h.probe;
  probe_port = h.probe_port;
  probe_path = h.probe_path;
  idle_timeout_sec = idle;
})

-- toTemplateSpec; templateSpecFromCRD and appSpecFromCRD apply it to the workload of their resource.
unfoldable pub to_template_spec : Workload → TemplateSpec
unfolding health_of port_copies
to_template_spec t = record {
  image = t.image;
  cmd = t.cmd;
  env = t.env;
  ports = port_copies t.ports;
  health = health_of t.health t.idle_timeout;
  iam_role = elim t.iam [ none ↦ "" | some role ↦ role ];
  egress = elim t.network [ none ↦ 0 | some (egress, ingress) ↦ egress ];
  ingress = elim t.network [ none ↦ 0 | some (egress, ingress) ↦ ingress ];
  idle_timeout = t.idle_timeout;
  checkpoint_interval = t.checkpoint_interval;
}

-- IdlePolicy with the checkpoint interval: sessionConfigPolicy.
pub record ConfigPolicy : Type 0 where
  pub idle_timeout : ℕ
  pub idle_action : String
  pub checkpoint_interval : ℕ

abbrev pub no_policy : ConfigPolicy
no_policy = record { idle_timeout = 0; idle_action = ""; checkpoint_interval = 0 }

abbrev pub policy_of : Workload → ConfigPolicy
policy_of t = record {
  idle_timeout = t.idle_timeout;
  idle_action = t.idle_action;
  checkpoint_interval = t.checkpoint_interval;
}

-- The Session that planFor makes from the hints of the broker.
unfoldable pub lazy_session : String → String → String → Session
lazy_session subject pool app = record {
  generation = 0;
  created_by = operator;
  fork_set = "";
  fork_base = "";
  finalizer = false;
  deleting = false;
  pool_ref = some pool;
  app_ref = if str_eq app "" then none else some app;
  image = "";
  cmd = [];
  env = [];
  ports = [];
  subject = subject;
  iam = none;
  idle_timeout = 0;
  idle_action = "";
  suspend_request = "";
  status = no_status;
}

-- The plan before its workload is resolved.
unfoldable pub plan_of : Session → SessionPlan
unfolding port_copies
plan_of s = record {
  pool = elim s.pool_ref [ none ↦ "" | some pool ↦ pool ];
  template_name = "";
  app_name = "";
  image = "";
  cmd = s.cmd;
  env = s.env;
  ports = port_copies s.ports;
  iam_role = elim s.iam [ none ↦ "" | some role ↦ role ];
  egress = 0;
  ingress = 0;
  idle_timeout_override = s.idle_timeout;
}

module _ (c : Catalog) where
  -- poolTemplate: the template's name and its workload.
  unfoldable pub pool_template : String → Option (String × Workload)
  pool_template pool = elim (c.pools pool) [
    | none ↦ none
    | some name ↦ elim (c.templates name) [ none ↦ none | some t ↦ some (name, t) ]
  ]

  -- poolIsGeneric; `none` for an error.
  unfoldable pub pool_is_generic : String → Option Bool
  pool_is_generic pool = elim (pool_template pool) [
    | none ↦ none
    | some (name, t) ↦ some (str_eq t.image "")
  ]

  -- resolveWorkloadSource, case by case.
  unfoldable pub resolve_image : String → Option String → SessionPlan → Result SessionPlan
  resolve_image image pool_ref plan = elim pool_ref [
    | none ↦ ok (record plan { image = image })
    | some pool ↦ elim (pool_is_generic pool) [
      | none ↦ err no_plan
      | some generic ↦ if generic then ok (record plan { image = image }) else err no_plan
    ]
  ]

  unfoldable pub resolve_app : String → Option String → SessionPlan → Result SessionPlan
  resolve_app app pool_ref plan = elim pool_ref [
    | none ↦ err no_plan
    | some pool ↦ elim (pool_is_generic pool) [
      | none ↦ err no_plan
      | some generic ↦ if generic then ok (record plan { app_name = app }) else err no_plan
    ]
  ]

  unfoldable pub resolve_pool : Option String → SessionPlan → Result SessionPlan
  resolve_pool pool_ref plan = elim pool_ref [
    | none ↦ err no_plan
    | some pool ↦ elim (pool_template pool) [
      | none ↦ err no_plan
      | some (name, t) ↦
          if str_eq t.image "" then err no_plan else ok (record plan { template_name = name })
    ]
  ]

  unfoldable pub resolve_workload_source : Session → SessionPlan → Result SessionPlan
  unfolding resolve_image resolve_app resolve_pool
  resolve_workload_source s plan =
      if not (str_eq s.image "") then resolve_image s.image s.pool_ref plan else elim s.app_ref [
        | some app ↦ resolve_app app s.pool_ref plan
        | none ↦ resolve_pool s.pool_ref plan
      ]

  -- configPolicyForSession; `none` for an error.
  unfoldable pub config_policy_for_session : Session → Option ConfigPolicy
  unfolding pool_template
  config_policy_for_session s = if not (str_eq s.image "") then some no_policy else elim s.app_ref [
    | some app ↦ elim (c.apps app) [ none ↦ none | some t ↦ some (policy_of t) ]
    | none ↦ elim s.pool_ref [
      | none ↦ some no_policy
      | some pool ↦ elim (pool_template pool) [ none ↦ none | some (name, t) ↦ some (policy_of t) ]
    ]
  ]

  -- applyLifecycleOverride, of the timeout and of the action.
  unfoldable pub apply_lifecycle_override : Session → ConfigPolicy → ConfigPolicy
  apply_lifecycle_override s p = record p {
    idle_timeout = if ltb 0 s.idle_timeout then s.idle_timeout else p.idle_timeout;
    idle_action = if str_eq s.idle_action "" then p.idle_action else s.idle_action;
  }

  module _ (o : Objects Session) (a : Answers) where
    -- BuildSuspender's policyFor: the idle policy, where an unresolved template is none.
    unfoldable pub idle_policy_for : o.Map → String → Option ConfigPolicy
    unfolding config_policy_for_session apply_lifecycle_override
    idle_policy_for m sid = if not (a.reads sid) then none else elim (o.get m sid) [
      | none ↦ none
      | some s ↦ some (
          apply_lifecycle_override s
            (elim (config_policy_for_session s) [ none ↦ no_policy | some p ↦ p ]))
    ]

    -- BuildCheckpointer's policyFor: the interval.
    unfoldable pub checkpoint_policy_for : o.Map → String → Option ℕ
    unfolding config_policy_for_session
    checkpoint_policy_for m sid = if not (a.reads sid) then none else elim (o.get m sid) [
      | none ↦ none
      | some s ↦ elim (config_policy_for_session s) [
        | none ↦ none
        | some p ↦ some p.checkpoint_interval
      ]
    ]

    -- A plan needs a pool.
    abbrev pub checked : Result SessionPlan → Result SessionPlan
    checked (err x) = err x
    checked (ok plan) = if str_eq plan.pool "" then err no_plan else ok plan

    -- The plan of a Session that is there.
    unfoldable pub plan_session : Session → Result SessionPlan
    unfolding resolve_workload_source plan_of
    plan_session s = checked (resolve_workload_source s (plan_of s))

    -- planFor. AlreadyExists is `conflict` here.
    unfoldable pub plan_for : String → String → String → String → o.Map → Result SessionPlan × o.Map
    unfolding plan_session lazy_session
    plan_for sid subject pool app m =
        let s = lazy_session subject pool app in
        if not (a.reads sid) then (err no_plan, m) else elim (o.get m sid) [
          | some found ↦ (plan_session found, m)
          | none ↦ if str_eq pool "" then (err no_plan, m) else elim (a.create sid) [
            | done ↦ (plan_session s, o.put m sid s)
            | conflict ↦ (plan_session s, m)
            | gone ↦ (err no_plan, m)
            | failed ↦ (err no_plan, m)
          ]
        ]
