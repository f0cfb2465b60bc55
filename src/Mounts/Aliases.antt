-- ===== src/Mounts/Aliases.antt =====
-- The aliases of the recipes that `ApplyAuth` leaves (session/internal/auth.go).
use tacklr.Base.{
  ◌≡◌, refl, Bool, Bool-cases, inl, inr, false, not, ◌&&◌, ◌||◌, List, [], ◌∷◌, Bytes, is_empty,
  text_eq, text_eq_iff, any, keep, arith,
}
use tacklr.Mounts.{
  Binding, AuthContext, alias_of, MountRecipe, recipe_from_binding, drop_recipe, upsert, bind_all,
  apply_auth,
}

abbrev pub has_alias : Bytes → List MountRecipe → Bool
has_alias a rs = any (λ r. text_eq r.alias a) rs

-- No two recipes have one alias.
abbrev pub Distinct : List MountRecipe → Type 0
Distinct [] = Unit {0}
Distinct (r ∷ rs) = (has_alias r.alias rs ≡ false) × Distinct rs

has_alias-upsert :
    (rec : MountRecipe) (a : Bytes) (rs : List MountRecipe)
    → has_alias a (upsert rec rs) ≡ (text_eq rec.alias a || has_alias a rs)
unfolding upsert
has_alias-upsert rec a [] = refl
has_alias-upsert rec a (r ∷ rs) = ground (
  arith,
  text_eq_iff r.alias rec.alias,
  text_eq_iff r.alias a,
  text_eq_iff rec.alias a,
  has_alias-upsert rec a rs,
)

upsert-Distinct :
    (rec : MountRecipe) (rs : List MountRecipe) → Distinct rs → Distinct (upsert rec rs)
unfolding upsert
upsert-Distinct rec [] d = (refl, tt)
upsert-Distinct rec (r ∷ rs) d = ground (
  arith,
  text_eq_iff r.alias rec.alias,
  text_eq_iff rec.alias r.alias,
  has_alias-upsert rec r.alias rs,
  upsert-Distinct rec rs d.1,
)

bind_all-Distinct :
    (bs : List Binding) (rs : List MountRecipe) → Distinct rs → Distinct (bind_all bs rs)
unfolding bind_all
bind_all-Distinct [] rs d = d
bind_all-Distinct (b ∷ bs) rs d =
    bind_all-Distinct bs _
      (ground (arith, upsert-Distinct (recipe_from_binding b (alias_of b)) rs d))

has_alias-bind_all :
    (bs : List Binding) (a : Bytes) (rs : List MountRecipe)
    → has_alias a (bind_all bs rs)
      ≡ (any (λ b. not (is_empty (alias_of b)) && text_eq (alias_of b) a) bs || has_alias a rs)
unfolding bind_all recipe_from_binding
has_alias-bind_all [] a rs = refl
has_alias-bind_all (b ∷ bs) a rs = elim (Bool-cases (is_empty (alias_of b))) [
  | inl unnamed ↦ rw unnamed (has_alias-bind_all bs a rs)
  | inr named ↦ rw named (
      ground (
        arith,
        has_alias-bind_all bs a (upsert (recipe_from_binding b (alias_of b)) rs),
        has_alias-upsert (recipe_from_binding b (alias_of b)) a rs,
      ))
]

module _ (p : MountRecipe → Bool) where
  has_alias-keep :
      (a : Bytes) (rs : List MountRecipe) → has_alias a rs ≡ false → has_alias a (keep p rs) ≡ false
  has_alias-keep a [] h = refl
  has_alias-keep a (r ∷ rs) h = ground (arith, has_alias-keep a rs)

  keep-Distinct : (rs : List MountRecipe) → Distinct rs → Distinct (keep p rs)
  keep-Distinct [] d = tt
  keep-Distinct (r ∷ rs) d = ground (arith, has_alias-keep r.alias rs, keep-Distinct rs d.1)

-- A recipe per alias stays so under any credentials, and the aliases after them are those of the
-- recipes that were not dropped, and of the bindings that have one.
pub apply_auth-Distinct :
    (recipes : List MountRecipe) (auth : AuthContext)
    → Distinct recipes
    → Distinct (apply_auth recipes auth)
      × ((a : Bytes)
          → has_alias a (apply_auth recipes auth) ≡ (
              any (λ b. not (is_empty (alias_of b)) && text_eq (alias_of b) a) auth.bindings
              || has_alias a (keep (λ r. not (drop_recipe r auth.drop)) recipes)))
unfolding apply_auth
apply_auth-Distinct recipes auth d = (
  bind_all-Distinct auth.bindings _ (keep-Distinct (λ r. not (drop_recipe r auth.drop)) recipes d),
  λ a. has_alias-bind_all auth.bindings a _,
)
