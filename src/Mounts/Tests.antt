-- ===== src/Mounts/Tests.antt =====
-- Credentials on a small list of mounts.
use tacklr.Base.{
  ◌≡◌, refl, true, false, not, ◌&&◌, ◌||◌, [], ◌∷◌, Bytes, codes, is_empty, text_eq, any, keep,
  trim_space, insert, lookup,
}
use tacklr.Mounts.{
  recipe_from_binding, point_alias, value_of, clean_segments, Binding, AuthContext, MountRecipe,
  alias_of, drop_recipe, apply_auth,
}
use tacklr.Mounts.Turns.{mounted}
use tacklr.Mounts.Aliases.{has_alias, Distinct, apply_auth-Distinct}

abbrev drive : MountRecipe
drive = record {
  provider = codes "gdrive";
  alias = codes "docs";
  params = [];
  source_ids = [];
  writable = true;
}

abbrev bucket : MountRecipe
bucket = record {
  provider = codes "s3";
  alias = codes "logs";
  params = [];
  source_ids = [];
  writable = false;
}

-- The bucket is dropped, and a new binding takes the alias of the drive.
abbrev rebound : AuthContext
rebound = record {
  bindings =
      record {
        provider = codes "gdrive";
        point = codes " /old/../docs/ ";
        auth = record { token = codes "t"; expires_at = [] };
        params = [];
        writable = false;
      }
      ∷ [];
  drop = codes "logs" ∷ [];
}

apply_auth-Distinct_example :
    Distinct (apply_auth (drive ∷ (bucket ∷ [])) rebound)
    × ((a : Bytes)
        → has_alias a (apply_auth (drive ∷ (bucket ∷ [])) rebound) ≡ (
            any (λ b. not (is_empty (alias_of b)) && text_eq (alias_of b) a) rebound.bindings
            || has_alias a (keep (λ r. not (drop_recipe r rebound.drop)) (drive ∷ (bucket ∷ [])))))
unfolding text_eq
apply_auth-Distinct_example = apply_auth-Distinct (drive ∷ (bucket ∷ [])) rebound (refl, (refl, tt))

abbrev spaced : Binding
spaced = record {
  provider = codes "gdrive";
  point = codes "/docs /";
  auth = record { token = codes "t"; expires_at = [] };
  params = [];
  writable = false;
}

-- A point with a space at a segment's end is remembered with it, and mounted without.
spaced_alias :
    (alias_of spaced ≡ codes "docs ")
    × (alias_of (mounted (recipe_from_binding spaced (alias_of spaced)) spaced.auth) ≡ codes "docs")
unfolding alias_of trim_space value_of point_alias recipe_from_binding insert lookup text_eq
    clean_segments
spaced_alias = (refl, refl)
