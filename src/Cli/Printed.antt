-- ===== src/Cli/Printed.antt =====
-- What `tsosctl get` prints can be read back.
use tailscale_os.Base.{
  ◌≡◌, refl, ap, All, Bool, true, false, Option, none, some, List, [], ◌∷◌, ◌++◌, String, str_eq,
  if◌then◌else◌,
}
use tailscale_os.Cli.{
  is_named, Definition, replies, Server, resolve_resource_kind, Chunk, dashes, document, written,
  write_resource, write_all, list_resources, get_resources,
}
use tailscale_os.Cli.Matched.{matched_one}

module _ {T : Type 0} where
  abbrev close_document : List T → List (List T)
  close_document [] = []
  close_document (t ∷ ts) = (t ∷ ts) ∷ []

  -- A reader of the output: what stands between the dashes, where `seen` is what it has read since.
  abbrev read_from : List T → List (Chunk T) → List (List T)
  read_from seen [] = close_document seen
  read_from seen (dashes ∷ cs) = seen ∷ read_from [] cs
  read_from seen (document t ∷ cs) = read_from (seen ++ (t ∷ [])) cs

  abbrev pub read_back : List (Chunk T) → List (List T)
  read_back cs = read_from [] cs

module _ {R T : Type 0} (marshal : R → Option T) where
  abbrev alone : Option T → List (List T) → List (List T)
  alone none rest = rest
  alone (some t) rest = (t ∷ []) ∷ rest

  -- Each resource that is marshalled, as a document of its own.
  abbrev pub documents : List R → List (List T)
  documents [] = []
  documents (r ∷ rs) = alone (marshal r) (documents rs)

  read-write_more :
      (rs : List R) (t : T)
      → read_from (t ∷ []) (write_all marshal rs true) ≡ (t ∷ []) ∷ documents rs
  unfolding write_all write_resource
  read-write_more [] t = refl
  read-write_more (r ∷ rs) t = more (marshal r) (λ u. read-write_more rs u)
    where
      more :
          (o : Option T)
          → ((u : T) → read_from (u ∷ []) (write_all marshal rs true) ≡ (u ∷ []) ∷ documents rs)
          → let w : List (Chunk T) × Bool = written o true in
            read_from (t ∷ []) (w.0 ++ write_all marshal rs w.1) ≡ (t ∷ []) ∷ alone o (documents rs)
      more none later = later t
      more (some u) later = ap (λ l. (t ∷ []) ∷ l) (later u)

  read-write_all : (rs : List R) → read_back (write_all marshal rs false) ≡ documents rs
  unfolding write_all write_resource
  read-write_all [] = refl
  read-write_all (r ∷ rs) = first (marshal r) (read-write_all rs)
    where
      first :
          (o : Option T)
          → read_back (write_all marshal rs false) ≡ documents rs
          → let w : List (Chunk T) × Bool = written o false in
            read_back (w.0 ++ write_all marshal rs w.1) ≡ alone o (documents rs)
      first none later = later
      first (some u) later = read-write_more rs u

  -- If the server answers and exactly one of its definitions has the name, as its identifier or as an
  -- alias, the output of a list reads back as one document for each resource that is marshalled, in order;
  -- and the command succeeds, also where some are not marshalled.
  pub read-get_resources :
      (equal_fold : String → String → Bool) (s : Server R) (namespace t : String)
      (before : List Definition) (d : Definition) (after : List Definition) (rs : List R)
      → s.dial_err ≡ none
      → s.definitions ≡ replies (before ++ (d ∷ after))
      → All (λ e. is_named equal_fold t e ≡ false) before
      → is_named equal_fold t d ≡ true
      → All (λ e. is_named equal_fold t e ≡ false) after
      → s.list (if str_eq namespace "" then d.default_namespace else namespace) d.resource_type
        ≡ replies rs
      → let r = get_resources marshal equal_fold s namespace t "" in
        (read_back r.0 ≡ documents rs) × (r.1 ≡ none)
  unfolding get_resources resolve_resource_kind list_resources
  read-get_resources equal_fold s namespace t before d after rs dialled known a named b answers =
      let one = matched_one equal_fold t before d after a named b in
      rw (dialled, known, one, answers) (read-write_all rs, refl)
