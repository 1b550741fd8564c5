-- ===== src/Resolver/Precedence.antt =====
-- What a container gets (`resolve` of src/modules/application/env-resolver.service.ts).
use aoox_api.Prelude.{
  ℕ, ◌+◌, ◌-◌, ◌≡◌, ◌⊎◌, inl, inr, refl, sym, ap, ◌∙◌, subst, true, false, Option, some, is_some,
  some-injective, List, [], ◌∷◌, ◌++◌, arith, includes, All, Text, text_eq, text_eq_iff, take, drop,
  length, map_get, Bool-cases, none,
}
use aoox_api.Resolver.{
  Input, EnvMap, Outcome, Problem, resolved, refused, Reference, Scope, FieldName, vars, secret,
  databases, absent, known, no_variable, no_secret, no_database, DatabaseField, fields_value,
  merge_layers, or_refuse, value_of, expand_from, expand_entry, expand_rest, expand_all,
  expand_fetched, fetch_secrets, merged, literal, resolve,
}
use aoox_api.Resolver.Merging.{raw_value, merged-raw_value, literal-is_from_source, is_from_source}

expand_rest-resolved :
    (key : Text) (rest : Outcome EnvMap) (o : Outcome Text) (env : EnvMap)
    → expand_rest key rest o ≡ resolved env
    → (value : Text) × (others : EnvMap) × o ≡ resolved value
      × rest ≡ resolved others
      × (key, value) ∷ others ≡ env
expand_rest-resolved key rest (refused p) env h = absurd (cc)
expand_rest-resolved key (refused p) (resolved v) env h = absurd (cc)
expand_rest-resolved key (resolved others) (resolved v) env h = (v, others, refl, refl, cc)

-- An entry that is there has its expanded value.
expand_all-some :
    (i : Input) (f : Option EnvMap) (m env : EnvMap) (key v : Text)
    → expand_all i f m ≡ resolved env
    → map_get key m ≡ some v
    → (t : Text) × expand_entry i f key v ≡ resolved t × map_get key env ≡ some t
unfolding expand_all map_get
expand_all-some i f [] env key v h there = absurd (cc)
expand_all-some i f ((k, w) ∷ m) env key v h there =
    let (t, others, mine, rest, is_env) =
      expand_rest-resolved k (expand_all i f m) (expand_entry i f k w) env h in
    elim (Bool-cases (text_eq k key)) [
      | inl same ↦
          let is_key = (text_eq_iff k key).0 same in
          let is_value : w ≡ v = some-injective w v (rw (same, map_get) at there) in
          (
            t,
            subst (λ x. expand_entry i f x v ≡ resolved t) is_key
                (subst (λ x. expand_entry i f k x ≡ resolved t) is_value mine),
            subst (λ x. map_get key x ≡ some t) is_env (simp same refl),
          )
      | inr other ↦
          let (u, expanded, got) =
            expand_all-some i f m others key v rest (rw (other, map_get) at there) in
          (u, expanded, subst (λ x. map_get key x ≡ some u) is_env (simp other got))
    ]

expand_all-is_some :
    (i : Input) (f : Option EnvMap) (m env : EnvMap) (key : Text)
    → expand_all i f m ≡ resolved env
    → is_some (map_get key env) ≡ is_some (map_get key m)
unfolding expand_all map_get
expand_all-is_some i f [] env key h =
    let e : [] ≡ env = cc in subst (λ x. is_some (map_get key x) ≡ false) e refl
expand_all-is_some i f ((k, w) ∷ m) env key h =
    let (t, others, mine, rest, is_env) =
      expand_rest-resolved k (expand_all i f m) (expand_entry i f k w) env h in
    let ih = expand_all-is_some i f m others key rest in
    subst (λ x. is_some (map_get key x) ≡ is_some (map_get key ((k, w) ∷ m))) is_env
      (ground (arith, ih))

expand_fetched-resolved :
    (i : Input) (f : Option EnvMap) (env : EnvMap)
    → fetch_secrets i ≡ resolved f
    → resolve i ≡ resolved env
    → expand_all i f (merged i f) ≡ resolved env
unfolding resolve
expand_fetched-resolved i f env fetched h = sym (ap (expand_fetched i) fetched) ∙ h

expand_entry-plain :
    (i : Input) (f : Option EnvMap) (key v : Text)
    → (is_from_source i f key ≡ true) ⊎ (i.references v ≡ [])
    → expand_entry i f key v ≡ resolved v
unfolding expand_entry expand_from
expand_entry-plain i f key v (inl fixed) = simp (literal-is_from_source i f key ∙ fixed) refl
expand_entry-plain i f key v (inr plain) = elim (Bool-cases (includes (literal i f) key)) [
  | inl fixed ↦ simp fixed refl
  | inr free ↦ simp (free, plain) refl
]

-- Where the environment resolves, a container gets exactly the variables that a layer, the secret
-- source or the application defines.
pub resolve-is_some :
    (i : Input) (f : Option EnvMap) (env : EnvMap) (key : Text)
    → fetch_secrets i ≡ resolved f
    → resolve i ≡ resolved env
    → is_some (map_get key env) ≡ is_some (raw_value i f key)
resolve-is_some i f env key fetched h =
    expand_all-is_some i f (merged i f) env key (expand_fetched-resolved i f env fetched h)
    ∙ ap is_some (merged-raw_value i f key)

-- Where the environment resolves, a variable has the application's own value, else the one of the
-- secret source, else that of the last layer with its name, unchanged if the value is the source's or has no references.
pub resolve-raw_value :
    (i : Input) (f : Option EnvMap) (env : EnvMap) (key v : Text)
    → fetch_secrets i ≡ resolved f
    → resolve i ≡ resolved env
    → raw_value i f key ≡ some v
    → (is_from_source i f key ≡ true) ⊎ (i.references v ≡ [])
    → map_get key env ≡ some v
resolve-raw_value i f env key v fetched h there plain =
    let (t, expanded, got) =
      expand_all-some i f (merged i f) env key v (expand_fetched-resolved i f env fetched h)
        (merged-raw_value i f key ∙ there) in
    let same = expand_entry-plain i f key v plain in cc

Outcome-cases :
    {A : Type 0} (o : Outcome A) → ((p : Problem) × o ≡ refused p) ⊎ ((a : A) × o ≡ resolved a)
Outcome-cases (refused p) = inl (p, refl)
Outcome-cases (resolved a) = inr (a, refl)

-- What a reference names is there: a variable of the layers, a secret that the source answered with,
-- or a field of a database of the project. Where nothing was fetched,
-- a secret is only one of an active source.
unfoldable pub IsKnown : Input → Option EnvMap → Reference → Scope → FieldName → Type 0
IsKnown i f r vars absent = is_some (map_get r.name (merge_layers i.layers [])) ≡ true
IsKnown i none r secret absent = i.source_active ≡ true
IsKnown i (some m) r secret absent = (i.source_active ≡ true) × (is_some (map_get r.name m) ≡ true)
IsKnown i f r databases (known field) = is_some (i.find_database r.name) ≡ true
IsKnown i f r _ _ = ⊥

or_refuse-is_some :
    (p : Problem) (o : Option Text) (t : Text) → or_refuse p o ≡ resolved t → is_some o ≡ true
or_refuse-is_some p none t h = absurd (cc)
or_refuse-is_some p (some v) t h = refl

fields_value-is_some :
    (p : Problem) (r : Reference) (field : DatabaseField) (t : Text)
    (o : Option (Option Text → DatabaseField → Text))
    → fields_value p r field o ≡ resolved t
    → is_some o ≡ true
fields_value-is_some p r field t none h = absurd (cc)
fields_value-is_some p r field t (some fields) h = refl

value_of-IsKnown :
    (i : Input) (f : Option EnvMap) (key : Text) (r : Reference) (s : Scope) (n : FieldName)
    (t : Text)
    → value_of i f key r s n ≡ resolved t
    → IsKnown i f r s n
unfolding IsKnown
value_of-IsKnown i f key r vars absent t h =
    or_refuse-is_some (no_variable key r) (map_get r.name (merge_layers i.layers [])) t h
value_of-IsKnown i none key r secret absent t h = ground (arith, h)
value_of-IsKnown i (some m) key r secret absent t h = elim (Bool-cases i.source_active) [
  | inl on ↦ (on, or_refuse-is_some (no_secret key r) (map_get r.name m) t (simp on at h))
  | inr off ↦ absurd (cc (simp off at h))
]
value_of-IsKnown i f key r databases (known field) t h =
    fields_value-is_some (no_database key r) r field t (i.find_database r.name) h
value_of-IsKnown i f key r _ _ t h = absurd (cc)

expand_from-IsKnown :
    (i : Input) (f : Option EnvMap) (key value : Text) (rs : List Reference) (last : ℕ)
    (text t : Text)
    → expand_from i f key value rs last text ≡ resolved t
    → All (λ r. IsKnown i f r r.scope r.field) rs
unfolding expand_from
expand_from-IsKnown i f key value [] last text t h = tt
expand_from-IsKnown i f key value (r ∷ rs) last text t h =
    elim (Outcome-cases (value_of i f key r r.scope r.field)) [
      | inl (p, fails) ↦ absurd (cc (rw (fails, expand_from) at h))
      | inr (u, found) ↦ (
        value_of-IsKnown i f key r r.scope r.field u found,
        expand_from-IsKnown i f key value rs (r.index + length r.whole)
            (text ++ take (r.index - last) (drop last value) ++ u) t (rw (found, expand_from) at h),
      )
    ]

expand_entry-IsKnown :
    (i : Input) (f : Option EnvMap) (key v t : Text)
    → includes (literal i f) key ≡ false
    → expand_entry i f key v ≡ resolved t
    → All (λ r. IsKnown i f r r.scope r.field) (i.references v)
unfolding expand_entry
expand_entry-IsKnown i f key v t free h =
    expand_from-IsKnown i f key v (i.references v) 0 [] t (simp free at h)

-- Where the environment resolves, every reference in a value that counts and that is not the secret
-- source's names what is there: a variable of the layers, a secret of the active source or a database
-- of the project with one of its fields. Where nothing was fetched, as for a lenient caller whose source
-- was not reached, it says of a secret only that the source is active.
pub resolve-IsKnown :
    (i : Input) (f : Option EnvMap) (env : EnvMap) (key v : Text)
    → fetch_secrets i ≡ resolved f
    → resolve i ≡ resolved env
    → raw_value i f key ≡ some v
    → is_from_source i f key ≡ false
    → All (λ r. IsKnown i f r r.scope r.field) (i.references v)
resolve-IsKnown i f env key v fetched h there free =
    let (t, expanded, got) =
      expand_all-some i f (merged i f) env key v (expand_fetched-resolved i f env fetched h)
        (merged-raw_value i f key ∙ there) in
    expand_entry-IsKnown i f key v t (literal-is_from_source i f key ∙ free) expanded
