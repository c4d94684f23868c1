-- ===== src/Cli/Ambiguous.antt =====
-- A name that two definitions have, as "rs": the COSI runtime gives a type whose name has several capitals
-- these as an alias.
use tailscale_os.Base.{◌≡◌, refl, true, Bool, Option, none, some, List, [], ◌∷◌, ◌++◌, String, join}
use tailscale_os.Cli.{
  Definition, replies, fails, Server, is_named, matched, choose, resolve_resource_kind,
  get_resources,
}
use tailscale_os.Cli.Matched.{matched-named}
use tailscale_os.Cli.Definitions.{DefinitionSpec, filled, route_definition, resolver_definition}

abbrev ambiguous : String → String
ambiguous t = join (join "resource type " t) " is ambiguous"

module _ (equal_fold : String → String → Bool) (t : String) where
  choose_many :
      (namespace : String) (as' bs cs : List Definition) (d e : Definition)
      → choose equal_fold namespace t (as' ++ (d ∷ (bs ++ (e ∷ cs)))) ≡ fails (ambiguous t)
  choose_many namespace [] [] cs d e = refl
  choose_many namespace [] (b ∷ bs) cs d e = refl
  choose_many namespace (a ∷ []) bs cs d e = refl
  choose_many namespace (a ∷ b ∷ as') bs cs d e = refl

  -- If two of the definitions of a server have a name, a `get` by it prints nothing and fails, whatever
  -- the others are.
  pub get_ambiguous :
      {R T : Type 0} (marshal : R → Option T) (s : Server R) (namespace id : String)
      (xs ys zs : List Definition) (d e : Definition)
      → s.dial_err ≡ none
      → s.definitions ≡ replies (xs ++ (d ∷ (ys ++ (e ∷ zs))))
      → is_named equal_fold t d ≡ true
      → is_named equal_fold t e ≡ true
      → get_resources marshal equal_fold s namespace t id ≡ ([], some (ambiguous t))
  unfolding get_resources resolve_resource_kind
  get_ambiguous marshal s namespace id xs ys zs d e dialled known first second =
      let many = matched-named equal_fold t xs d (ys ++ (e ∷ zs)) first in
      let more = matched-named equal_fold t ys e zs second in
      rw
        (
          dialled,
          known,
          many,
          more,
          choose_many namespace (matched equal_fold t xs) (matched equal_fold t ys)
              (matched equal_fold t zs) d e,
        )
        refl

-- If the runtime gives "rs" to both the specs of routes and those of resolvers, `get rs` finds neither.
pub get_rs_ambiguous :
    {R T : Type 0} (marshal : R → Option T) (equal_fold : String → String → Bool)
    (id_of : String → String) (all_aliases : DefinitionSpec → List String) (s : Server R)
    (namespace id : String) (xs ys zs : List Definition)
    → s.dial_err ≡ none
    → s.definitions
      ≡ replies (
          xs
          ++ (filled id_of all_aliases resolver_definition
              ∷ (ys ++ (filled id_of all_aliases route_definition ∷ zs))))
    → is_named equal_fold "rs" (filled id_of all_aliases resolver_definition) ≡ true
    → is_named equal_fold "rs" (filled id_of all_aliases route_definition) ≡ true
    → get_resources marshal equal_fold s namespace "rs" id ≡ ([], some (ambiguous "rs"))
get_rs_ambiguous marshal equal_fold id_of all_aliases s namespace id xs ys zs dialled known a b =
    get_ambiguous equal_fold "rs" marshal s namespace id xs ys zs _ _ dialled known a b
