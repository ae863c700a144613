-- ===== src/Controllers/Pools/Deployed.antt =====
-- The Deployment that a pass over a WarmPool leaves.
use sandboxd_teleport.Prelude.{ℕ, String, true, ◌⊎◌, ◌≡◌, none, some}
use sandboxd_teleport.Cluster.{Objects, Answers, done}
use sandboxd_teleport.Valkey.{Valkey}
use sandboxd_teleport.Assign.Table.{Table}
use sandboxd_teleport.Controllers.Pools.{
  Pool, Template, Deployment, PoolWorld, eff_replicas, desired_deployment, deployment_name,
}

module _ (od : Objects Deployment) (op : Objects String) (da pa : Answers) (k : Valkey)
    (w : PoolWorld) where
  -- The pod template is the wanted one as the API server stores it, or is equal to the wanted one.
  abbrev pub HasTemplate : Deployment → Deployment → Type 0
  HasTemplate d dep =
      (d.template ≡ w.stored dep.template) ⊎ (w.equal d.template dep.template ≡ true)

  -- How many replicas a Deployment asks for.
  abbrev pub wanted : Deployment → ℕ
  wanted d = elim d.replicas [ none ↦ 1 | some n ↦ n ]

  abbrev pub Matches : Pool → Deployment → od.Map → Type 0
  Matches pool dep m =
      (d : Deployment) × (od.get m (deployment_name od op da pa k w pool) ≡ some d)
      × (wanted d ≡ wanted dep)
      × HasTemplate d dep

  abbrev pub Answered : Pool → Type 0
  Answered pool =
      (da.reads (deployment_name od op da pa k w pool) ≡ true)
      × (da.create (deployment_name od op da pa k w pool) ≡ done)
      × (da.update (deployment_name od op da pa k w pool) ≡ done)

  -- The two Deployments ask for the same replicas of the same pod template.
  abbrev pub StillAsks : Pool → Deployment → od.Map → Type 0
  StillAsks pool d n =
      (e : Deployment) × (od.get n (deployment_name od op da pa k w pool) ≡ some e)
      × (wanted e ≡ wanted d)
      × (e.template ≡ d.template)

  abbrev pub SameDeployment : Pool → od.Map → od.Map → Type 0
  SameDeployment pool m n =
      (d : Deployment) × (od.get m (deployment_name od op da pa k w pool) ≡ some d)
      × StillAsks pool d n

  abbrev pub target : Pool → Template → Table k → Deployment
  target pool tmpl t = desired_deployment w.config pool tmpl (eff_replicas od op da pa k w pool t)
