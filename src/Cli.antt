-- ===== src/Cli.antt =====
-- cmd/tsosctl/cmd/tsos/get.go and output: `tsosctl get`, which finds the kind of a resource by its name and
-- prints resources. The server is a parameter.
pub mod Matched
pub mod Printed
pub mod Definitions
pub mod Ambiguous
mod Tests
use tailscale_os.Base.{
  ℕ, Bool, true, false, not, ◌&&◌, ◌||◌, Option, none, some, List, [], ◌∷◌, ◌++◌, String, join,
  str_eq, map, if◌then◌else◌,
}

-- What the code reads of `meta.ResourceDefinition`.
pub record Definition : Type 0 where
  pub id : String
  pub aliases : List String
  pub resource_type : String
  pub default_namespace : String

-- A reply of the server.
pub data Reply (A : Type 0) : Type 0 where
  replies : A → Reply A
  fails : String → Reply A

-- The server: the definitions, the resources of a namespace and a type, and one of them by its
-- identifier.
pub record Server (R : Type 0) : Type 0 where
  pub dial_err : Option String
  pub definitions : Reply (List Definition)
  pub list : String → String → Reply (List R)
  pub get : String → String → String → Reply R

-- `equal_fold` is `strings.EqualFold`.
module _ (equal_fold : String → String → Bool) where
  abbrev any_fold : List String → String → Bool
  any_fold [] t = false
  any_fold (a ∷ as') t = equal_fold a t || any_fold as' t

  abbrev pub is_named : String → Definition → Bool
  is_named t d = equal_fold d.id t || any_fold d.aliases t

  -- The loop of `resolveResourceKind`.
  unfoldable pub matched : String → List Definition → List Definition
  matched t [] = []
  matched t (d ∷ ds) = let rest = matched t ds in if is_named t d then d ∷ rest else rest

  abbrev pub choose : String → String → List Definition → Reply (String × Definition)
  choose namespace t [] = fails (join (join "resource " t) " is not registered")
  choose namespace t (d ∷ []) =
      replies (if str_eq namespace "" then d.default_namespace else namespace, d)
  choose namespace t (d ∷ e ∷ ds) = fails (join (join "resource type " t) " is ambiguous")

  -- `resolveResourceKind`: the namespace after it, and the definition.
  unfoldable pub resolve_resource_kind :
      String → String → Reply (List Definition) → Reply (String × Definition)
  unfolding matched
  resolve_resource_kind namespace t (fails e) = fails e
  resolve_resource_kind namespace t (replies ds) = choose namespace t (matched t ds)

-- What is written to the standard output.
pub data Chunk (T : Type 0) : Type 0 where
  dashes : Chunk T
  document : T → Chunk T

abbrev pub written : {T : Type 0} → Option T → Bool → List (Chunk T) × Bool
written none need_dashes = ([], need_dashes)
written (some t) need_dashes =
    (if need_dashes then dashes ∷ document t ∷ [] else document t ∷ [], true)

module _ {R T : Type 0} (marshal : R → Option T) where
  -- `WriteResource` of `YAML`, whose state is `needDashes`. Nothing is written if the resource is not
  -- marshalled.
  unfoldable pub write_resource : R → Bool → List (Chunk T) × Bool
  write_resource r need_dashes = written (marshal r) need_dashes

  -- The loop of `listResources`, which drops the errors of the writer.
  unfoldable pub write_all : List R → Bool → List (Chunk T)
  unfolding write_resource
  write_all [] need_dashes = []
  write_all (r ∷ rs) need_dashes =
      let w : List (Chunk T) × Bool = write_resource r need_dashes in w.0 ++ write_all rs w.1

  abbrev pub print_list : Reply (List R) → List (Chunk T) × Option String
  print_list (fails e) = ([], some e)
  print_list (replies rs) = (write_all rs false, none)

  abbrev pub print_one : Reply R → List (Chunk T) × Option String
  print_one (fails e) = ([], some e)
  print_one (replies r) = (write_all (r ∷ []) false, none)

  -- `listResources`
  unfoldable pub list_resources :
      Server R → String → Definition → String → List (Chunk T) × Option String
  unfolding write_all
  list_resources s namespace d id =
      if str_eq id ""
      then print_list (s.list namespace d.resource_type)
      else print_one (s.get namespace d.resource_type id)

  abbrev pub list_resolved :
      Server R → String → Reply (String × Definition) → List (Chunk T) × Option String
  list_resolved s id (fails e) = ([], some e)
  list_resolved s id (replies (namespace, d)) = list_resources s namespace d id

  -- `getResources` after `NewClient`: the output and the error of the command. An identifier that is left
  -- out is empty.
  unfoldable pub get_resources :
      (String → String → Bool)
      → Server R
      → String
      → String
      → String
      → List (Chunk T) × Option String
  unfolding list_resources resolve_resource_kind
  get_resources equal_fold s namespace t id = elim (s.dial_err) [
    | some e ↦ ([], some e)
    | none ↦ list_resolved s id (resolve_resource_kind equal_fold namespace t s.definitions)
  ]
