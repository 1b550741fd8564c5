-- ===== src/HostPorts/Free.antt =====
-- When `hostPortConflicts` reports nothing (src/modules/host-port/host-port-conflicts.ts).
use aoox_api.Prelude.{
  ℕ, ◌≡◌, refl, sym, ap, ◌∙◌, Bool, true, false, not, ◌&&◌, ◌||◌, Option, none, some, List, [], ◌∷◌,
  ◌++◌, length, length-append, every, arith, ◌==◌, Text, codes, includes, Bool-cases, inl, inr,
}
use aoox_api.EnvText.Validate.{set_add}
use aoox_api.HostPorts.{
  AppRow, DbRow, StackRow, Container, ConflictData, Options, is_excluded, wants, container_name,
  add_port, add_apps, add_dbs, add_services, add_stacks, add_bound, add_containers,
  host_port_conflicts,
}

-- Nothing was added.
abbrev pub nothing : List Text → Bool
nothing xs = length xs == 0

nothing-append : (xs : List Text) (y : Text) → nothing (xs ++ (y ∷ [])) ≡ false
nothing-append xs y = ground (arith, length-append xs (y ∷ []))

nothing-set_add : (xs : List Text) (y : Text) → nothing (set_add xs y) ≡ false
unfolding includes
nothing-set_add [] y = ground arith
nothing-set_add (x ∷ xs) y = ground (arith, nothing-append (x ∷ xs) y)

and_false : (a : Bool) → (a && false) ≡ false
and_false a = ground arith

and_true : (a : Bool) → (a && true) ≡ a
and_true a = ground arith

and_assoc : (a b c : Bool) → ((a && b) && c) ≡ (a && (b && c))
and_assoc a b c = ground arith

module _ (ports : List ℕ) where
  nothing-add_port :
      (taken : List Text) (port : ℕ) (kind name : Text)
      → nothing (add_port ports taken port kind name) ≡ (nothing taken && not (wants ports port))
  unfolding add_port
  nothing-add_port taken port kind name = elim (Bool-cases (wants ports port)) [
    | inl e ↦ rw e (nothing-set_add taken _ ∙ sym (and_false (nothing taken)))
    | inr e ↦ rw e (sym (and_true (nothing taken)))
  ]

module _ (ports : List ℕ) (options : Options) where
  abbrev pub app_is_free : AppRow → Bool
  app_is_free a = is_excluded a.id options.exclude_application_id || not (wants ports a.host_port)

  abbrev pub db_is_free : DbRow → Bool
  db_is_free d = not (wants ports d.host_port)

  abbrev pub stack_is_free : StackRow → Bool
  stack_is_free s =
      is_excluded s.id options.exclude_compose_app_id
      || every (λ p. not (wants ports p)) s.service_ports

  abbrev pub bound_is_free : Option ℕ → Bool
  bound_is_free none = true
  bound_is_free (some p) = p == 0 || not (wants ports p)

  abbrev pub container_is_free : Container → Bool
  container_is_free c = options.is_own_container c || every bound_is_free c.ports

  nothing-add_apps :
      (taken : List Text) (apps : List AppRow)
      → nothing (add_apps ports options taken apps) ≡ (nothing taken && every app_is_free apps)
  unfolding add_apps
  nothing-add_apps taken [] = ground arith
  nothing-add_apps taken (a ∷ apps) =
      let one = nothing-add_port ports taken a.host_port (codes "application") a.app_name in
      elim (Bool-cases (is_excluded a.id options.exclude_application_id)) [
        | inl e ↦ rw e (nothing-add_apps taken apps)
        | inr e ↦ rw e (
            nothing-add_apps (add_port ports taken a.host_port (codes "application") a.app_name)
              apps
            ∙ ap (λ b. b && every app_is_free apps) one
            ∙ and_assoc (nothing taken) _ _)
      ]

  nothing-add_dbs :
      (kind : Text) (taken : List Text) (dbs : List DbRow)
      → nothing (add_dbs ports options kind taken dbs) ≡ (nothing taken && every db_is_free dbs)
  unfolding add_dbs
  nothing-add_dbs kind taken [] = ground arith
  nothing-add_dbs kind taken (d ∷ dbs) =
      nothing-add_dbs kind (add_port ports taken d.host_port kind d.name) dbs
      ∙ ap (λ b. b && every db_is_free dbs) (nothing-add_port ports taken d.host_port kind d.name)
      ∙ and_assoc (nothing taken) _ _

  nothing-add_services :
      (name : Text) (taken : List Text) (ps : List ℕ)
      → nothing (add_services ports options name taken ps)
        ≡ (nothing taken && every (λ p. not (wants ports p)) ps)
  unfolding add_services
  nothing-add_services name taken [] = ground arith
  nothing-add_services name taken (p ∷ ps) =
      nothing-add_services name (add_port ports taken p (codes "stack") name) ps
      ∙ ap (λ b. b && every (λ p. not (wants ports p)) ps)
          (nothing-add_port ports taken p (codes "stack") name)
      ∙ and_assoc (nothing taken) _ _

  nothing-add_stacks :
      (taken : List Text) (stacks : List StackRow)
      → nothing (add_stacks ports options taken stacks)
        ≡ (nothing taken && every stack_is_free stacks)
  unfolding add_stacks
  nothing-add_stacks taken [] = ground arith
  nothing-add_stacks taken (s ∷ stacks) =
      elim (Bool-cases (is_excluded s.id options.exclude_compose_app_id)) [
        | inl e ↦ rw e (nothing-add_stacks taken stacks)
        | inr e ↦ rw e (
            nothing-add_stacks (add_services ports options s.name taken s.service_ports) stacks
            ∙ ap (λ b. b && every stack_is_free stacks)
                (nothing-add_services s.name taken s.service_ports)
            ∙ and_assoc (nothing taken) _ _)
      ]

  nothing-add_bound :
      (name : Text) (taken : List Text) (ps : List (Option ℕ))
      → nothing (add_bound ports options name taken ps) ≡ (nothing taken && every bound_is_free ps)
  unfolding add_bound
  nothing-add_bound name taken [] = ground arith
  nothing-add_bound name taken (none ∷ ps) = nothing-add_bound name taken ps
  nothing-add_bound name taken (some p ∷ ps) = elim (Bool-cases (p == 0)) [
    | inl e ↦ rw e (nothing-add_bound name taken ps)
    | inr e ↦ rw e (
        nothing-add_bound name (add_port ports taken p (codes "container") name) ps
        ∙ ap (λ b. b && every bound_is_free ps)
            (nothing-add_port ports taken p (codes "container") name)
        ∙ and_assoc (nothing taken) _ _)
  ]

  nothing-add_containers :
      (taken : List Text) (cs : List Container)
      → nothing (add_containers ports options taken cs)
        ≡ (nothing taken && every container_is_free cs)
  unfolding add_containers
  nothing-add_containers taken [] = ground arith
  nothing-add_containers taken (c ∷ cs) = elim (Bool-cases (options.is_own_container c)) [
    | inl e ↦ rw e (nothing-add_containers taken cs)
    | inr e ↦ rw e (
        nothing-add_containers (add_bound ports options (container_name c) taken c.ports) cs
        ∙ ap (λ b. b && every container_is_free cs)
            (nothing-add_bound (container_name c) taken c.ports)
        ∙ and_assoc (nothing taken) _ _)
  ]

chain :
    (a b c d f p q r s t : Bool)
    → a ≡ p
    → b ≡ (a && q)
    → c ≡ (b && r)
    → d ≡ (c && s)
    → f ≡ (d && t)
    → f ≡ (p && (q && (r && (s && t))))
chain a b c d f p q r s t h i j k l = ground arith

-- `hostPortConflicts` reports nothing exactly if no port is asked for, or if none of the ports is that
-- of an application or a stack which is not excluded, of a database or its companion, or is bound on
-- the host by a container that is not the caller's own.
pub host_port_conflicts-nothing :
    (ports : List ℕ) (rows : ConflictData) (options : Options)
    → nothing (host_port_conflicts ports rows options) ≡ (
        length ports == 0
        || (every (app_is_free ports options) rows.apps
            && (every (db_is_free ports options) rows.dbs
                && (every (db_is_free ports options) rows.companions
                    && (every (stack_is_free ports options) rows.stacks
                        && every (container_is_free ports options) rows.containers)))))
unfolding host_port_conflicts
host_port_conflicts-nothing ports rows options = elim (Bool-cases (length ports == 0)) [
  | inl e ↦ rw e refl
  | inr e ↦
      let apps = add_apps ports options [] rows.apps in
      let dbs = add_dbs ports options (codes "database") apps rows.dbs in
      let companions = add_dbs ports options (codes "admin database") dbs rows.companions in
      let stacks = add_stacks ports options companions rows.stacks in
      let a = nothing-add_apps ports options [] rows.apps in
      let b = nothing-add_dbs ports options (codes "database") apps rows.dbs in
      let c = nothing-add_dbs ports options (codes "admin database") dbs rows.companions in
      let d = nothing-add_stacks ports options companions rows.stacks in
      let f = nothing-add_containers ports options stacks rows.containers in
      rw e (chain _ _ _ _ _ _ _ _ _ _ a b c d f)
]
