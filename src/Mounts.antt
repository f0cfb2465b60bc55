-- ===== src/Mounts.antt =====
-- The mounts that a session remembers, and the credentials that a work item brings
-- (session/internal/auth.go, session/types.go, vfs/mount/mount.go). The time at which a credential
-- expires is its text. A list that is nil or empty is [].
pub mod Aliases
pub mod Turns
mod Tests
use tacklr.Base.{
  Bool, true, false, ◌||◌, Option, none, some, List, [], ◌∷◌, ◌++◌, Bytes, codes, is_empty, text_eq,
  trim_space, Dict, lookup, insert, any, keep, drop, not, ◌==◌, if◌then◌else◌,
}
use tacklr.Failure.{Result, ok, err, wrap, invalid_binding}

-- `mount.Credential`
pub record Credential : Type 0 where
  pub token : Bytes
  pub expires_at : Bytes

-- `mount.Binding`
pub record Binding : Type 0 where
  pub provider : Bytes
  pub point : Bytes
  pub auth : Credential
  pub params : Dict Bytes
  pub writable : Bool

-- `AuthContext`
pub record AuthContext : Type 0 where
  pub bindings : List Binding
  pub drop : List Bytes

abbrev pub no_auth : AuthContext
no_auth = record { bindings = []; drop = [] }

-- `MountRecipe`
pub record MountRecipe : Type 0 where
  pub provider : Bytes
  pub alias : Bytes
  pub params : Dict Bytes
  pub source_ids : List Bytes
  pub writable : Bool

abbrev source_param_keys : List Bytes
source_param_keys = codes "folderId" ∷ codes "itemId" ∷ codes "driveId" ∷ codes "siteId" ∷ []

-- Go's `params[k]`: "" when the key is missing.
value_of : Option Bytes → Bytes
value_of none = []
value_of (some v) = v

-- A path between its slashes.
split_path : Bytes → Bytes → List Bytes
split_path seg [] = seg ∷ []
split_path seg (c ∷ cs) =
    if c == b'/' then seg ∷ split_path [] cs else split_path (seg ++ c ∷ []) cs

-- `path.Clean` of a rooted path, on its segments; `back` are those kept, the last first.
clean_segments : List Bytes → List Bytes → List Bytes
clean_segments back [] = back
clean_segments back (seg ∷ segs) =
    if is_empty seg || text_eq seg (codes ".")
    then clean_segments back segs
    else if text_eq seg (codes "..")
    then clean_segments (drop 1 back) segs
    else clean_segments (seg ∷ back) segs

join_back : List Bytes → Bytes → Bytes
join_back [] acc = acc
join_back (seg ∷ segs) [] = join_back segs seg
join_back (seg ∷ segs) (c ∷ acc) = join_back segs (seg ++ b'/' ∷ c ∷ acc)

-- An absolute point, clean and without its leading "/".
point_alias : Bytes → Bytes
unfolding split_path clean_segments join_back
point_alias [] = []
point_alias (c ∷ cs) = if c == b'/' then join_back (clean_segments [] (split_path [] cs)) [] else []

-- `Binding.Alias`
unfoldable pub alias_of : Binding → Bytes
unfolding point_alias value_of
alias_of b =
    let name = trim_space (value_of (lookup (codes "name") b.params)) in
    if is_empty name then point_alias (trim_space b.point) else name

-- `ValidAlias`
unfoldable pub valid_alias : Bytes → Result (Unit {0})
valid_alias alias =
    if is_empty alias
    then err (wrap (codes "a name or an absolute one-segment point is required") invalid_binding)
    else if text_eq alias (codes ".")
        || text_eq alias (codes "..")
        || any (λ c. c == b'/' || c == b'\\' || c == 0) alias
    then err (wrap (codes "alias must be one path segment") invalid_binding)
    else if text_eq alias (codes "work")
        || text_eq alias (codes "skills")
        || text_eq alias (codes "workspace")
    then err (wrap (codes "alias is reserved") invalid_binding)
    else ok tt

-- `Binding.Validate`
unfoldable pub validate : Binding → Result (Unit {0})
validate b =
    if is_empty (trim_space b.provider)
    then err (wrap (codes "provider required") invalid_binding)
    else if is_empty (trim_space b.auth.token)
    then err (wrap (codes "access token required") invalid_binding)
    else valid_alias (alias_of b)

source_ids_of : List Bytes → Dict Bytes → List Bytes
source_ids_of [] params = []
source_ids_of (k ∷ ks) params =
    let v = trim_space (value_of (lookup k params)) in
    let rest = source_ids_of ks params in if is_empty v then rest else (k ++ b':' ∷ v) ∷ rest

-- `sourceIDs`
source_ids : Dict Bytes → List Bytes
unfolding source_ids_of value_of
source_ids params = source_ids_of source_param_keys params

-- The loop of `mergeSourceIDs`; `seen` are the ids before.
merge_from : List Bytes → List Bytes → List Bytes
merge_from seen [] = []
merge_from seen (id ∷ ids) =
    let rest = merge_from (id ∷ seen) ids in if any (text_eq id) seen then rest else id ∷ rest

-- `mergeSourceIDs`
merge_source_ids : List Bytes → List Bytes → List Bytes
unfolding merge_from
merge_source_ids a b = merge_from [] (a ++ b)

-- `recipeFromBinding`
recipe_from_binding : Binding → Bytes → MountRecipe
unfolding source_ids
recipe_from_binding b alias =
    let params = insert (codes "name") alias b.params in
    record {
      provider = b.provider;
      alias = alias;
      params = params;
      source_ids = source_ids params;
      writable = b.writable;
    }

-- `dropRecipe`
unfoldable pub drop_recipe : MountRecipe → List Bytes → Bool
drop_recipe r drop =
    any (λ d. text_eq r.alias (trim_space d) || text_eq r.provider (trim_space d)) drop

-- The inner loop of `ApplyAuth`: replaces the first recipe of the alias, or adds one.
upsert : MountRecipe → List MountRecipe → List MountRecipe
unfolding merge_source_ids
upsert rec [] = rec ∷ []
upsert rec (r ∷ rs) =
    if text_eq r.alias rec.alias
    then record rec { source_ids = merge_source_ids r.source_ids rec.source_ids } ∷ rs
    else r ∷ upsert rec rs

bind_all : List Binding → List MountRecipe → List MountRecipe
unfolding upsert recipe_from_binding
bind_all [] out = out
bind_all (b ∷ bs) out =
    let alias = alias_of b in
    bind_all bs (if is_empty alias then out else upsert (recipe_from_binding b alias) out)

-- `ApplyAuth`
unfoldable pub apply_auth : List MountRecipe → AuthContext → List MountRecipe
unfolding bind_all drop_recipe
apply_auth recipes auth = bind_all auth.bindings (keep (λ r. not (drop_recipe r auth.drop)) recipes)
