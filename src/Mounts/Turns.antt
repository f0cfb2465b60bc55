-- ===== src/Mounts/Turns.antt =====
-- The mounts of one turn: the remembered recipes with the credentials that the work item brings
-- (BindingsForTurn and tokenIndex of session/internal/auth.go).
use tacklr.Base.{
  ◌≡◌, refl, ap, inl, inr, false, Option, Option-cases, none, some, is_some, List, [], ◌∷◌, map,
  Bytes, codes, is_empty, text_eq_refl, All, subst, trim_space, Dict, lookup, insert, lookup-insert,
  keep, arith, if◌then◌else◌,
}
use tacklr.Mounts.{Credential, Binding, AuthContext, MountRecipe, alias_of, value_of}

-- `tokenIndex`: the credentials by provider and by alias, a later binding's over an earlier one's.
pub record TokenIndex : Type 0 where
  pub by_provider : Dict Credential
  pub by_alias : Dict Credential

index_token : Binding → TokenIndex → TokenIndex
index_token b index =
    let alias = alias_of b in
    if is_empty (trim_space b.auth.token) then index else record {
      by_provider =
          if is_empty b.provider
          then index.by_provider
          else insert b.provider b.auth index.by_provider;
      by_alias = if is_empty alias then index.by_alias else insert alias b.auth index.by_alias;
    }

index_from : List Binding → TokenIndex → TokenIndex
unfolding index_token
index_from [] index = index
index_from (b ∷ bs) index = index_from bs (index_token b index)

unfoldable pub token_index : AuthContext → TokenIndex
unfolding index_from
token_index auth = index_from auth.bindings (record { by_provider = []; by_alias = [] })

-- The credential of a recipe: its alias's, else its provider's.
abbrev pub credential_of : TokenIndex → MountRecipe → Option Credential
credential_of index r = elim (lookup r.alias index.by_alias) [
  | some cred ↦ some cred
  | none ↦ lookup r.provider index.by_provider
]

abbrev pub mounted : MountRecipe → Credential → Binding
mounted r cred = record {
  provider = r.provider;
  point = codes "/workspace";
  auth = cred;
  params = insert (codes "name") r.alias r.params;
  writable = r.writable;
}

bindings_from : TokenIndex → List MountRecipe → List Binding
bindings_from index [] = []
bindings_from index (r ∷ rs) =
    let rest = bindings_from index rs in
    elim (credential_of index r) [ none ↦ rest | some cred ↦ mounted r cred ∷ rest ]

-- `BindingsForTurn`
unfoldable pub bindings_for_turn : List MountRecipe → AuthContext → List Binding
unfolding bindings_from token_index
bindings_for_turn recipes auth = bindings_from (token_index auth) recipes

-- A recipe's alias has no white space around it and is not empty.
abbrev pub Named : MountRecipe → Type 0
Named r = (trim_space r.alias ≡ r.alias) × (is_empty r.alias ≡ false)

mounted-alias :
    (r : MountRecipe) (cred : Credential) → Named r → alias_of (mounted r cred) ≡ r.alias
unfolding alias_of value_of
mounted-alias r cred (trimmed, named) =
    rw
      (
        lookup-insert (codes "name") (codes "name") r.alias r.params,
        text_eq_refl (codes "name"),
        trimmed,
        named,
      )
      refl

abbrev pub HasToken : Credential → Type 0
HasToken cred = is_empty (trim_space cred.token) ≡ false

abbrev AllTokens : Option Credential → Type 0
AllTokens none = Unit
AllTokens (some cred) = HasToken cred

abbrev GoodIndex : TokenIndex → Type 0
GoodIndex index =
    (k : Bytes) → AllTokens (lookup k index.by_provider) × AllTokens (lookup k index.by_alias)

index_token-GoodIndex :
    (b : Binding) (index : TokenIndex) → GoodIndex index → GoodIndex (index_token b index)
unfolding index_token
index_token-GoodIndex b index good k = ground (
  arith,
  good k,
  lookup-insert b.provider k b.auth index.by_provider,
  lookup-insert (alias_of b) k b.auth index.by_alias,
)

index_from-GoodIndex :
    (bs : List Binding) (index : TokenIndex) → GoodIndex index → GoodIndex (index_from bs index)
unfolding index_from
index_from-GoodIndex [] index good = good
index_from-GoodIndex (b ∷ bs) index good =
    index_from-GoodIndex bs (index_token b index) (index_token-GoodIndex b index good)

token_index-GoodIndex : (auth : AuthContext) → GoodIndex (token_index auth)
unfolding token_index lookup
token_index-GoodIndex auth = index_from-GoodIndex auth.bindings _ λ k. (tt, tt)

abbrev pub Mounted : TokenIndex → List MountRecipe → List Binding → Type 0
Mounted index rs bs =
    (map alias_of bs
      ≡ map (λ (r : MountRecipe). r.alias) (keep (λ r. is_some (credential_of index r)) rs))
    × All (λ (b : Binding). HasToken b.auth) bs

credential_of-AllTokens :
    (index : TokenIndex) (r : MountRecipe) → GoodIndex index → AllTokens (credential_of index r)
credential_of-AllTokens index r good = ground (arith, good r.alias, good r.provider)

bindings_from-Mounted :
    (index : TokenIndex) (rs : List MountRecipe)
    → GoodIndex index
    → All Named rs
    → Mounted index rs (bindings_from index rs)
unfolding bindings_from
bindings_from-Mounted index [] good named = (refl, tt)
bindings_from-Mounted index (r ∷ rs) good named =
    let rest = bindings_from-Mounted index rs good named.1 in
    elim (Option-cases (credential_of index r)) [
      | inl absent ↦ rw (absent, bindings_from) rest
      | inr (cred, found) ↦
          let token : HasToken cred =
            subst AllTokens found (credential_of-AllTokens index r good) in
          rw (found, bindings_from)
            (rw (mounted-alias r cred named.0) (ap (◌∷◌ r.alias) rest.0), (token, rest.1))
    ]

-- Where each recipe's alias is a name with no white space around it, a turn mounts the recipes
-- whose alias or provider has a credential, in their order and each under its alias, and every
-- mount has a token.
pub bindings_for_turn-Mounted :
    (recipes : List MountRecipe) (auth : AuthContext)
    → All Named recipes
    → Mounted (token_index auth) recipes (bindings_for_turn recipes auth)
unfolding bindings_for_turn
bindings_for_turn-Mounted recipes auth named =
    bindings_from-Mounted (token_index auth) recipes (token_index-GoodIndex auth) named
