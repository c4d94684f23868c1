-- ===== src/Network/Pass/Guarded.antt =====
-- A controller does nothing for a resource that could go away unseen.
use tailscale_os.Base.{
  succeeds, ◌≡◌, refl, ap, Bool, true, false, not, ◌&&◌, ◌||◌, Option, none, some, List, [], ◌∷◌,
  ◌++◌, String, str_eq, eq_refl, arith, Bool-cases, inl, inr,
}
use tailscale_os.Network.{Phase, Done, then_do}
use tailscale_os.Network.Pass.{
  Item, PassErrors, Call, finalizes, does, is_live, add_finalizers, listed, then_calls, sync_all,
  pass,
}

module _ {O : Type 0} where
  abbrev pub does_any : List (Call O) → Bool
  does_any [] = false
  does_any (finalizes id ∷ cs) = does_any cs
  does_any (does o ∷ cs) = true

  abbrev pub is_finalized : String → List (Call O) → Bool
  is_finalized id [] = false
  is_finalized id (finalizes j ∷ cs) = str_eq id j || is_finalized id cs
  is_finalized id (does o ∷ cs) = is_finalized id cs

  -- The calls before the first one that is not for a finalizer.
  abbrev pub leading : List (Call O) → List (Call O)
  leading [] = []
  leading (finalizes id ∷ cs) = finalizes id ∷ leading cs
  leading (does o ∷ cs) = []

  leading-append :
      (cs ds : List (Call O)) → does_any cs ≡ false → leading (cs ++ ds) ≡ cs ++ leading ds
  leading-append [] ds h = refl
  leading-append (finalizes id ∷ cs) ds h = ap (λ l. finalizes id ∷ l) (leading-append cs ds h)
  leading-append (does o ∷ cs) ds h = cc

module _ {S O : Type 0} where
  -- Whether each running resource has its finalizer after some calls.
  abbrev pub all_finalized : List (Item S) → List (Call O) → Bool
  all_finalized [] cs = true
  all_finalized (i ∷ is) cs = (not (is_live i.phase) || is_finalized i.id cs) && all_finalized is cs

  all_finalized-cons :
      (id : String) (items : List (Item S)) (cs : List (Call O))
      → all_finalized items cs ≡ true
      → all_finalized items (finalizes id ∷ cs) ≡ true
  all_finalized-cons id [] cs h = refl
  all_finalized-cons id (i ∷ is) cs h = ground (arith, h, all_finalized-cons id is cs)

  -- What holds of the first loop.
  record Finalizing (items : List (Item S)) (r : Done (Call O)) : Type 0 where
    does_none : does_any r.0 ≡ false
    guards : (cs : List (Call O)) → succeeds r.1 ≡ true → all_finalized items (r.0 ++ cs) ≡ true

  live-Finalizing :
      (i : Item S) (is : List (Item S)) (o : Option String) (r : Done (Call O))
      → Finalizing is r
      → Finalizing (i ∷ is) (then_do (finalizes i.id) o "error adding finalizer: " r)
  live-Finalizing i is none r h = record {
    does_none = h.does_none;
    guards = λ cs e.
        ground (arith, eq_refl i.id, all_finalized-cons i.id is (r.0 ++ cs) (h.guards cs e));
  }
  live-Finalizing i is (some x) r h = record { does_none = refl; guards = λ cs e. cc }

  gone-Finalizing :
      (i : Item S) (is : List (Item S)) (r : Done (Call O))
      → is_live i.phase ≡ false
      → Finalizing is r
      → Finalizing (i ∷ is) r
  gone-Finalizing i is r gone h = record {
    does_none = h.does_none;
    guards = λ cs e. ground (arith, gone, h.guards cs e);
  }

  add_finalizers-Finalizing :
      (e : PassErrors) (items : List (Item S)) → Finalizing items (add_finalizers e items)
  unfolding add_finalizers
  add_finalizers-Finalizing e [] = record { does_none = refl; guards = λ cs q. refl }
  add_finalizers-Finalizing e (i ∷ is) =
      let h = add_finalizers-Finalizing e is in
      elim (Bool-cases (is_live i.phase)) [
        | inl live ↦ rw live (live-Finalizing i is (e.finalizer_err i.id) (add_finalizers e is) h)
        | inr gone ↦ rw gone (gone-Finalizing i is (add_finalizers e is) gone h)
      ]

  abbrev Guarded : List (Item S) → List (Call O) → Type 0
  Guarded items cs = (not (does_any cs) || all_finalized items cs) ≡ true

  then_calls-Guarded :
      (items : List (Item S)) (r rest : Done (Call O))
      → Finalizing items r
      → Guarded items (then_calls r rest).0
  then_calls-Guarded items (cs, none) rest h = ground (arith, h.guards rest.0 refl)
  then_calls-Guarded items (cs, some x) rest h = ground (arith, h.does_none)

  listed-Guarded :
      (items : List (Item S)) (o : Option String) (what : String) (r : Done (Call O))
      → Guarded items r.0
      → Guarded items (listed o what r).0
  listed-Guarded items none what r h = h
  listed-Guarded items (some e) what r h = refl

  -- A pass that asks for anything but finalizers asks for one on each running resource.
  pub pass_finalizes :
      (e : PassErrors) (sync : Phase → S → Done O) (items : List (Item S))
      → (not (does_any (pass e sync items).0) || all_finalized items (pass e sync items).0) ≡ true
  unfolding pass
  pass_finalizes e sync items =
      let rest : Done (Call O) =
        listed e.links_err "error listing links: "
          (listed e.kernel_err "error listing what the kernel has: " (sync_all sync items)) in
      listed-Guarded items e.list_err "error listing source network resources: "
        (then_calls (add_finalizers e items) rest)
        (then_calls-Guarded items (add_finalizers e items) rest (add_finalizers-Finalizing e items))

  abbrev Ordered : List (Item S) → List (Call O) → Type 0
  Ordered items cs = (not (does_any cs) || all_finalized items (leading cs)) ≡ true

  then_calls-Ordered :
      (items : List (Item S)) (r rest : Done (Call O))
      → Finalizing items r
      → Ordered items (then_calls r rest).0
  then_calls-Ordered items (cs, none) rest h =
      ground (arith, leading-append cs rest.0 h.does_none, h.guards (leading rest.0) refl)
  then_calls-Ordered items (cs, some x) rest h = ground (arith, h.does_none)

  listed-Ordered :
      (items : List (Item S)) (o : Option String) (what : String) (r : Done (Call O))
      → Ordered items r.0
      → Ordered items (listed o what r).0
  listed-Ordered items none what r h = h
  listed-Ordered items (some e) what r h = refl

  -- Whatever fails, before a pass asks for anything but finalizers it has asked for one on each running
  -- resource: they are among the calls that come before the first other one.
  pub pass_guards :
      (e : PassErrors) (sync : Phase → S → Done O) (items : List (Item S))
      → (not (does_any (pass e sync items).0)
          || all_finalized items (leading (pass e sync items).0))
        ≡ true
  unfolding pass
  pass_guards e sync items =
      let rest : Done (Call O) =
        listed e.links_err "error listing links: "
          (listed e.kernel_err "error listing what the kernel has: " (sync_all sync items)) in
      listed-Ordered items e.list_err "error listing source network resources: "
        (then_calls (add_finalizers e items) rest)
        (then_calls-Ordered items (add_finalizers e items) rest (add_finalizers-Finalizing e items))
