-- ===== src/EnvText/Compared.antt =====
-- What the lists of `compareEnvTexts` and `summarizeChange` hold
-- (src/modules/variable-set/env-text.ts).
use aoox_api.Prelude.{
  ◌≡◌, refl, sym, ap, ◌∙◌, inl, inr, Bool, true, false, not, ◌&&◌, ◌||◌, Option, none, some, List,
  [], ◌∷◌, length, ◌==◌, arith, if◌then◌else◌, Text, text_eq, text_eq_iff, includes, map_get,
  map_set, map_from, map_get-map_set, Bool-cases, Option-cases,
}
use aoox_api.EnvText.{EnvMap, env_map, parse_env_lines}
use aoox_api.EnvText.Objects.{LiveFlags}
use aoox_api.EnvText.Compare.{
  has, holds, same_value, names_with, summarize_change, is_empty_summary, compare_env_texts,
}

-- No key is there twice.
abbrev AreDistinct : EnvMap → Type 0
AreDistinct [] = Unit
AreDistinct ((k, v) ∷ m) = (map_get k m ≡ none) × AreDistinct m

text_eq_sym : (j k : Text) → text_eq j k ≡ false → text_eq k j ≡ false
text_eq_sym j k h = ground (arith, text_eq_iff j k, text_eq_iff k j)

map_set-AreDistinct : (k v : Text) (m : EnvMap) → AreDistinct m → AreDistinct (map_set k v m)
unfolding map_set map_get
map_set-AreDistinct k v [] h = (refl, tt)
map_set-AreDistinct k v ((j, w) ∷ m) (h, hs) = elim (Bool-cases (text_eq j k)) [
  | inl e ↦ rw e (h, hs)
  | inr e ↦ rw e (
    map_get-map_set j k v m ∙ ap (λ b. if b then some v else map_get j m) (text_eq_sym j k e) ∙ h,
    map_set-AreDistinct k v m hs,
  )
]

map_from-AreDistinct :
    (m : EnvMap) (es : List (Text × Text)) → AreDistinct m → AreDistinct (map_from m es)
unfolding map_from
map_from-AreDistinct m [] h = h
map_from-AreDistinct m ((k, v) ∷ es) h =
    map_from-AreDistinct (map_set k v m) es (map_set-AreDistinct k v m h)

env_map-AreDistinct : (text : Text) → AreDistinct (env_map text)
unfolding env_map
env_map-AreDistinct text = map_from-AreDistinct [] (parse_env_lines text) tt

-- Whether the entry of a name has the test, if there is one.
abbrev entry_test : (Text × Text → Bool) → Text → Option Text → Bool
entry_test p k none = false
entry_test p k (some v) = p (k, v)

includes-names_with-cons :
    (p : Text × Text → Bool) (k : Text) (e : Text × Text) (m : EnvMap)
    → includes (names_with p (e ∷ m)) k ≡ ((p e && text_eq e.0 k) || includes (names_with p m) k)
unfolding includes
includes-names_with-cons p k e m = elim (Bool-cases (p e)) [ inl f ↦ rw f refl | inr f ↦ rw f refl ]

and_or : (a b c : Bool) → a ≡ b → c ≡ false → ((a && true) || c) ≡ b
and_or a b c h k = ground arith

and_false : (a b : Bool) → ((a && false) || b) ≡ b
and_false a b = ground arith

includes-names_with :
    (p : Text × Text → Bool) (k : Text) (m : EnvMap)
    → AreDistinct m
    → includes (names_with p m) k ≡ entry_test p k (map_get k m)
unfolding includes map_get
includes-names_with p k [] h = refl
includes-names_with p k ((j, v) ∷ m) (h, hs) =
    includes-names_with-cons p k (j, v) m ∙ elim (Bool-cases (text_eq j k)) [
      | inr e ↦ rw e (and_false (p (j, v)) _ ∙ includes-names_with p k m hs)
      | inl e ↦
          let eq = (text_eq_iff j k).0 e in
          rw e (
            and_or (p (j, v)) (p (k, v)) _ (ap (λ i. p (i, v)) eq) (
              includes-names_with p k m hs
              ∙ ap (entry_test p k) (ap (λ i. map_get i m) (sym eq) ∙ h)))
    ]

-- The kinds of difference between what two texts say of a name.
abbrev pub is_alone : Option Text → Option Text → Bool
is_alone (some v) none = true
is_alone _ _ = false

abbrev pub is_same : Option Text → Option Text → Bool
is_same (some v) (some w) = text_eq w v
is_same _ _ = false

abbrev pub is_different : Option Text → Option Text → Bool
is_different (some v) (some w) = not (text_eq w v)
is_different _ _ = false

-- The tests of the loops, at an entry of `a` and the other map `m`.
module _ (m : EnvMap) (k : Text) where
  alone_test : (o : Option Text) → entry_test (λ e. not (has m e.0)) k o ≡ is_alone o (map_get k m)
  alone_test none = refl
  alone_test (some v) = elim (Option-cases (map_get k m)) [
    | inl e ↦ rw e refl
    | inr (w, e) ↦ rw e refl
  ]

  same_test :
      (o : Option Text) → entry_test (λ e. has m e.0 && holds m e) k o ≡ is_same o (map_get k m)
  unfolding holds same_value
  same_test none = refl
  same_test (some v) = elim (Option-cases (map_get k m)) [
    | inl e ↦ rw e refl
    | inr (w, e) ↦ rw e refl
  ]

  different_test :
      (o : Option Text)
      → entry_test (λ e. has m e.0 && not (holds m e)) k o ≡ is_different o (map_get k m)
  unfolding holds same_value
  different_test none = refl
  different_test (some v) = elim (Option-cases (map_get k m)) [
    | inl e ↦ rw e refl
    | inr (w, e) ↦ rw e refl
  ]

module _ (text : Text) (m : EnvMap) (k : Text) where
  names_alone :
      includes (names_with (λ e. not (has m e.0)) (env_map text)) k
      ≡ is_alone (map_get k (env_map text)) (map_get k m)
  names_alone =
      includes-names_with _ k (env_map text) (env_map-AreDistinct text)
      ∙ alone_test m k (map_get k (env_map text))

  names_same :
      includes (names_with (λ e. has m e.0 && holds m e) (env_map text)) k
      ≡ is_same (map_get k (env_map text)) (map_get k m)
  names_same =
      includes-names_with _ k (env_map text) (env_map-AreDistinct text)
      ∙ same_test m k (map_get k (env_map text))

  names_different :
      includes (names_with (λ e. has m e.0 && not (holds m e)) (env_map text)) k
      ≡ is_different (map_get k (env_map text)) (map_get k m)
  names_different =
      includes-names_with _ k (env_map text) (env_map-AreDistinct text)
      ∙ different_test m k (map_get k (env_map text))

-- For all texts and each name, the lists of `compareEnvTexts` hold the name exactly as the values say
-- that the texts give it: in one of them only, in both with the same value, or with different ones.
pub compare_env_texts-includes :
    (from to k : Text)
    → (includes (compare_env_texts from to).only_in_from k
        ≡ is_alone (map_get k (env_map from)) (map_get k (env_map to)))
      × (includes (compare_env_texts from to).only_in_to k
          ≡ is_alone (map_get k (env_map to)) (map_get k (env_map from)))
      × (includes (compare_env_texts from to).same k
          ≡ is_same (map_get k (env_map from)) (map_get k (env_map to)))
      × (includes (compare_env_texts from to).different k
          ≡ is_different (map_get k (env_map from)) (map_get k (env_map to)))
unfolding compare_env_texts
compare_env_texts-includes from to k = (
  names_alone from (env_map to) k,
  names_alone to (env_map from) k,
  names_same from (env_map to) k,
  names_different from (env_map to) k,
)

no_names : (xs : List Text) (k : Text) → (length xs == 0) ≡ true → includes xs k ≡ false
unfolding includes
no_names [] k h = refl
no_names (x ∷ xs) k h = ground arith

no_difference :
    (o p : Option Text)
    → is_alone o p ≡ false
    → is_alone p o ≡ false
    → is_different o p ≡ false
    → o ≡ p
no_difference none none h i j = refl
no_difference none (some w) h i j = cc
no_difference (some v) none h i j = cc
no_difference (some v) (some w) h i j = ap some (sym ((text_eq_iff w v).0 (ground arith)))

-- If the summary of a change is empty, then every name has the same value in both texts, or none.
pub summarize_change-empty :
    (old_text new_text : Text) (old_flags new_flags : LiveFlags)
    → is_empty_summary (summarize_change old_text new_text old_flags new_flags) ≡ true
    → (k : Text) → map_get k (env_map new_text) ≡ map_get k (env_map old_text)
unfolding summarize_change is_empty_summary
summarize_change-empty old_text new_text old_flags new_flags h k =
    no_difference (map_get k (env_map new_text)) (map_get k (env_map old_text))
      (sym (names_alone new_text (env_map old_text) k) ∙ no_names _ k (ground arith))
      (sym (names_alone old_text (env_map new_text) k) ∙ no_names _ k (ground arith))
      (sym (names_different new_text (env_map old_text) k) ∙ no_names _ k (ground arith))
