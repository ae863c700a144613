-- ===== src/Controllers/Plans/Admitted.antt =====
-- The plans that are admitted, and what the resume workflow makes of them.
use sandboxd_teleport.Prelude.{
  String, true, false, not, ◌≡◌, ◌∙◌, refl, sym, subst, inl, inr, Option, none, some, arith, str_eq,
  eq_iff, Option-cases, Bool-cases, if_case, Error, no_plan, Result, ok, err,
}
use mathlib.Core.Option
use sandboxd_teleport.Cluster.{Objects, Answers, Session, Workload, Catalog}
use sandboxd_teleport.Valkey.{Valkey}
use sandboxd_teleport.Resume.Types.{SessionPlan, BindSpec, World}
use sandboxd_teleport.Resume.Plan.{
  resolve, merge_template, inline_spec, finish_spec, finish, or_number,
}
use sandboxd_teleport.Controllers.Plans.{
  to_template_spec, plan_of, pool_template, pool_is_generic, resolve_image, resolve_app,
  resolve_pool, resolve_workload_source, plan_session, checked,
}

module _ (c : Catalog) (o : Objects Session) (a : Answers) (k : Valkey) (w : World k) where
  -- The lookups of the workflow are those of the catalog, and no template has an empty name.
  abbrev pub Linked : Type 0
  Linked =
      ((name : String) → w.lookup name ≡ Option.map to_template_spec (c.templates name))
      × (c.templates "" ≡ none)

  -- A plan that can be carried out on its pool: with an image or a template of its own it resolves to
  -- an image, and the template of its pool names an image exactly where the plan runs that template.
  abbrev pub Sound : SessionPlan → Type 0
  Sound p =
      (str_eq p.pool "" ≡ false)
      × (str_eq p.app_name "" ≡ true
          → (b : BindSpec) × (resolve k w p ≡ ok b) × (str_eq b.image "" ≡ false))
      × ((name : String) × (t : Workload) × (pool_template c p.pool ≡ some (name, t))
          × (str_eq t.image "" ≡ str_eq p.template_name ""))

  abbrev pub SoundIfOk : Result SessionPlan → Type 0
  SoundIfOk r = (p : SessionPlan) → r ≡ ok p → Sound p

  ok_case : (p : SessionPlan) → Sound p → SoundIfOk (ok p)
  ok_case p s q h = subst (λ x. Sound x) (ground (arith, h)) s

  err_case : (x : Error) → SoundIfOk (err x)
  err_case x q h = absurd (ground (arith, h))

  inline_resolves :
      (p : SessionPlan)
      → p.template_name ≡ ""
      → str_eq p.image "" ≡ false
      → str_eq p.app_name "" ≡ true
      → (b : BindSpec) × (resolve k w p ≡ ok b) × (str_eq b.image "" ≡ false)
  unfolding resolve inline_spec finish finish_spec
  inline_resolves p no_template image no_app = (
    record (inline_spec p) { idle_timeout = or_number p.idle_timeout_override 0 },
    rw (no_app, no_template, image) refl,
    image,
  )

  has_name :
      c.templates "" ≡ none
      → (name : String) (t : Workload) → c.templates name ≡ some t
      → str_eq name "" ≡ false
  has_name nameless name t found = elim (Bool-cases (str_eq name "")) [
    | inr other ↦ other
    | inl same ↦
        let empty : name ≡ "" = ground (arith, eq_iff name "", same) in
        let clash : c.templates "" ≡ some t = subst (λ z. c.templates z ≡ some t) empty found in
        absurd (ground (arith, clash, nameless))
  ]

  template_resolves :
      (p : SessionPlan) (t : Workload)
      → Linked
      → c.templates p.template_name ≡ some t
      → str_eq t.image "" ≡ false
      → str_eq p.app_name "" ≡ true
      → (b : BindSpec) × (resolve k w p ≡ ok b) × (str_eq b.image "" ≡ false)
  unfolding resolve merge_template finish finish_spec to_template_spec
  template_resolves p t linked found image no_app = (
    record (merge_template p (to_template_spec t)) {
      idle_timeout = or_number p.idle_timeout_override t.idle_timeout;
    },
    rw (no_app, has_name linked.1 p.template_name t found, linked.0 p.template_name, found, image)
        refl,
    image,
  )

  -- The plan of a session that names a pool, for each source of its workload.
  app_plan :
      (p : SessionPlan) (pool : String)
      → Linked
      → p.pool ≡ pool
      → p.template_name ≡ ""
      → str_eq p.pool "" ≡ false
      → ((str_eq p.app_name "" ≡ true → str_eq p.image "" ≡ false))
      → (name : String) (t : Workload) → pool_template c pool ≡ some (name, t)
      → str_eq t.image "" ≡ true
      → Sound p
  app_plan p pool linked same no_template named image name t found generic = (
    named,
    (λ no_app. inline_resolves p no_template (image no_app) no_app),
    (name, t, rw same found, rw no_template generic),
  )

  abbrev pub SoundIfChecked : Result SessionPlan → Type 0
  SoundIfChecked r = SoundIfOk (checked c o a r)

  check_ok : (p : SessionPlan) → (str_eq p.pool "" ≡ false → Sound p) → SoundIfChecked (ok p)
  check_ok p f =
      if_case SoundIfOk (str_eq p.pool "") _ _ (λ _. err_case no_plan)
        (λ named. ok_case p (f named))

  not_generic : (pool : String) → pool_template c pool ≡ none → pool_is_generic c pool ≡ none
  unfolding pool_is_generic
  not_generic pool missing = rw (missing, pool_is_generic) refl

  is_generic :
      (pool name : String) (t : Workload)
      → pool_template c pool ≡ some (name, t)
      → pool_is_generic c pool ≡ some (str_eq t.image "")
  unfolding pool_is_generic
  is_generic pool name t found = rw (found, pool_is_generic) refl

  -- A plan whose workload is open, of a session with this pool.
  abbrev pub Open : Option String → SessionPlan → Type 0
  Open ref p =
      (p.pool ≡ (elim ref [ none ↦ "" | some pool ↦ pool ]))
      × (p.template_name ≡ "")
      × (p.app_name ≡ "")

  resolve_image-SoundIfChecked :
      (image : String) (ref : Option String) (p : SessionPlan)
      → Linked
      → Open ref p
      → str_eq image "" ≡ false
      → SoundIfChecked (resolve_image c image ref p)
  unfolding resolve_image
  resolve_image-SoundIfChecked image none p linked (at, no_template, no_app) has =
      check_ok _ (λ named. absurd (ground (arith, eq_iff p.pool "", at, named)))
  resolve_image-SoundIfChecked image (some pool) p linked (at, no_template, no_app) has =
      elim (Option-cases (pool_template c pool)) [
        | inl missing ↦ rw (not_generic pool missing, resolve_image) (err_case no_plan)
        | inr ((name, t), found) ↦
            rw (is_generic pool name t found, resolve_image)
              (if_case SoundIfChecked (str_eq t.image "") _ _
                (λ generic. check_ok _ (λ named.
                  app_plan _ pool linked at no_template named (λ _. has) name t found generic))
                (λ _. err_case no_plan))
      ]

  resolve_app-SoundIfChecked :
      (app : String) (ref : Option String) (p : SessionPlan)
      → Linked
      → Open ref p
      → str_eq app "" ≡ false
      → SoundIfChecked (resolve_app c app ref p)
  unfolding resolve_app
  resolve_app-SoundIfChecked app none p linked (at, no_template, no_app) has = err_case no_plan
  resolve_app-SoundIfChecked app (some pool) p linked (at, no_template, no_app) has =
      elim (Option-cases (pool_template c pool)) [
        | inl missing ↦ rw (not_generic pool missing, resolve_app) (err_case no_plan)
        | inr ((name, t), found) ↦
            rw (is_generic pool name t found, resolve_app)
              (if_case SoundIfChecked (str_eq t.image "") _ _
                (λ generic. check_ok _ (λ named.
                  app_plan _ pool linked at no_template named
                    (λ none_there. absurd (ground (arith, has, none_there))) name t found generic))
                (λ _. err_case no_plan))
      ]

  stored :
      (pool name : String) (t : Workload)
      → pool_template c pool ≡ some (name, t)
      → c.templates name ≡ some t
  unfolding pool_template
  stored pool name t = elim (Option-cases (c.pools pool)) [
    | inl missing ↦ rw (missing, pool_template) (λ h. absurd (ground (arith, h)))
    | inr (x, found) ↦ elim (Option-cases (c.templates x)) [
      | inl lost ↦ rw (found, lost, pool_template) (λ h. absurd (ground (arith, h)))
      | inr (u, there) ↦ rw (found, there, pool_template) (λ h. ground (arith, h, there))
    ]
  ]

  resolve_pool-SoundIfChecked :
      (ref : Option String) (p : SessionPlan)
      → Linked
      → Open ref p
      → SoundIfChecked (resolve_pool c ref p)
  unfolding resolve_pool
  resolve_pool-SoundIfChecked none p linked (at, no_template, no_app) = err_case no_plan
  resolve_pool-SoundIfChecked (some pool) p linked (at, no_template, no_app) =
      elim (Option-cases (pool_template c pool)) [
        | inl missing ↦ rw (missing, resolve_pool) (err_case no_plan)
        | inr ((name, t), found) ↦
            rw (found, resolve_pool)
              (if_case SoundIfChecked (str_eq t.image "") _ _ (λ _. err_case no_plan)
                (λ dedicated. check_ok _ (λ named. (
                  named,
                  (λ no_app.
                      template_resolves _ t linked (stored pool name t found) dedicated no_app),
                  (
                    name,
                    t,
                    rw (at, found) refl,
                    dedicated ∙ sym (has_name linked.1 name t (stored pool name t found)),
                  ),
                ))))
      ]

  -- Take a Session whose appRef, if it has one, is not empty, and a catalog in which no template has an
  -- empty name. A plan that is made of it has a pool, and the pool's template is there. It names an
  -- image, a dedicated pool, exactly where the plan runs the pool's template, so an inline image or an
  -- application runs on a generic pool only. A plan without an application always resolves, in a
  -- workflow with the catalog's lookups, and to an image.
  pub plan_session-SoundIfOk :
      (s : Session)
      → Linked
      → ((app : String) → s.app_ref ≡ some app → str_eq app "" ≡ false)
      → SoundIfOk (plan_session c o a s)
  unfolding plan_session resolve_workload_source plan_of
  plan_session-SoundIfOk s linked named =
      if_case SoundIfChecked (not (str_eq s.image "")) _ _
        (λ has.
          resolve_image-SoundIfChecked s.image s.pool_ref (plan_of s) linked (refl, refl, refl)
            (ground (arith, has)))
        (λ _. elim (Option-cases s.app_ref) [
          | inl no_app ↦
              rw no_app
                (resolve_pool-SoundIfChecked s.pool_ref (plan_of s) linked (refl, refl, refl))
          | inr (app, found) ↦ rw found (
              resolve_app-SoundIfChecked app s.pool_ref (plan_of s) linked (refl, refl, refl)
                (named app found))
        ])
