-- ===== src/Link/Sources/Loads.antt =====
-- What doLoadSource of internal/link/node.go finds after doStoreSource and doDeleteSource.
use xbase.Prelude.{
  ℕ, ◌≡◌, inl, inr, refl, sym, ap, ◌∙◌, Bool, true, false, Option, none, some, List, [], ◌∷◌, arith,
  ◌==◌, ◌&&◌, if◌then◌else◌, Bool-cases,
}
use xbase.Dict.{lookup, insert, delete, lookup-insert, lookup-delete}
use xbase.Link.Sources.{
  NodeBinding, NodeLinker, or_none, binding_of, do_load_source, do_store_source, drop_source,
  delete_bound, delete_from, do_delete_source,
}

binding_of-lookup :
    (o : Option (List (ℕ × NodeBinding))) (name : ℕ) → lookup name (or_none o) ≡ binding_of o name
unfolding lookup
binding_of-lookup none name = refl
binding_of-lookup (some sources) name = refl

module _ (l : NodeLinker) (uid u n : ℕ) where
  -- The entry of a user after its map is written or removed.
  load-insert :
      (m : List (ℕ × NodeBinding))
      → binding_of (lookup u (insert uid m l.sources)) n
        ≡ (if uid == u then lookup n m else binding_of (lookup u l.sources) n)
  load-insert m = elim (Bool-cases (uid == u)) [
    | inl e ↦
        ap (λ o. binding_of o n)
          (lookup-insert uid u m l.sources ∙ ap (λ b. if b then some m else lookup u l.sources) e)
        ∙ rw e refl
    | inr e ↦
        ap (λ o. binding_of o n)
          (lookup-insert uid u m l.sources ∙ ap (λ b. if b then some m else lookup u l.sources) e)
        ∙ rw e refl
  ]

  load-delete :
      binding_of (lookup u (delete uid l.sources)) n
      ≡ (if uid == u then none else binding_of (lookup u l.sources) n)
  load-delete = elim (Bool-cases (uid == u)) [
    | inl e ↦
        ap (λ o. binding_of o n)
          (lookup-delete uid u l.sources ∙ ap (λ b. if b then none else lookup u l.sources) e)
        ∙ rw e refl
    | inr e ↦
        ap (λ o. binding_of o n)
          (lookup-delete uid u l.sources ∙ ap (λ b. if b then none else lookup u l.sources) e)
        ∙ rw e refl
  ]

  same_user :
      (uid == u) ≡ true → binding_of (lookup uid l.sources) n ≡ binding_of (lookup u l.sources) n
  same_user e = ap (λ k. binding_of (lookup k l.sources) n) (ground (arith, e))

-- A binding that is stored is found under its user and its name, and any other entry is as it was.
pub do_store_source-load :
    (ins_id : ℕ) (l : NodeLinker) (uid name : ℕ) (binding : NodeBinding) (u n : ℕ)
    → do_load_source (do_store_source ins_id l uid name binding) u n
      ≡ (if uid == u && name == n then some binding else do_load_source l u n)
unfolding do_load_source do_store_source
do_store_source-load ins_id l uid name binding u n =
    let m = or_none (lookup uid l.sources) in
    load-insert l uid u n (insert name binding m)
    ∙ ground (
      arith,
      lookup-insert name n binding m,
      binding_of-lookup (lookup uid l.sources) n,
      same_user l uid u n,
    )

abbrev pub is_to : ℕ → Option NodeBinding → Bool
is_to nid none = false
is_to nid (some binding) = binding.nid == nid

module _ (ins_id : ℕ) (l : NodeLinker) (uid name nid u n : ℕ) where
  module _ (sources : List (ℕ × NodeBinding)) (there : lookup uid l.sources ≡ some sources) where
    here : (uid == u) ≡ true → binding_of (lookup u l.sources) n ≡ lookup n sources
    here e = sym (same_user l uid u n e) ∙ ap (λ o. binding_of o n) there

    insert-load :
        binding_of (lookup u (insert uid (delete name sources) l.sources)) n
        ≡ (if uid == u && name == n then none else binding_of (lookup u l.sources) n)
    insert-load =
        load-insert l uid u n (delete name sources)
        ∙ ground (arith, lookup-delete name n sources, here)

  drop_source-load :
      (sources : List (ℕ × NodeBinding)) (old : NodeBinding)
      → lookup uid l.sources ≡ some sources
      → lookup name sources ≡ some old
      → binding_of (lookup u (drop_source l uid name sources).sources) n
        ≡ (if uid == u && name == n then none else binding_of (lookup u l.sources) n)
  unfolding lookup
  drop_source-load [] old t b = insert-load [] t
  drop_source-load ((k, v) ∷ []) old t b =
      load-delete l uid u n ∙ ground (arith, here ((k, v) ∷ []) t, b)
  drop_source-load (first ∷ second ∷ rest) old t b = insert-load (first ∷ second ∷ rest) t

  delete_bound-load :
      (sources : List (ℕ × NodeBinding)) (o : Option NodeBinding)
      → lookup uid l.sources ≡ some sources
      → lookup name sources ≡ o
      → binding_of (lookup u (delete_bound ins_id l uid name nid sources o).sources) n
        ≡ (if uid == u && name == n && is_to nid o then none else binding_of (lookup u l.sources) n)
  delete_bound-load sources none t b = ground arith
  delete_bound-load sources (some old) t b = elim (Bool-cases (old.nid == nid)) [
    | inl e ↦ rw e (drop_source-load sources old t b ∙ ground arith)
    | inr e ↦ rw e (ground arith)
  ]

  delete_from-load :
      (o : Option (List (ℕ × NodeBinding)))
      → lookup uid l.sources ≡ o
      → binding_of (lookup u (delete_from ins_id l uid name nid o).sources) n ≡ (
          if uid == u && name == n && is_to nid (binding_of o name)
          then none
          else binding_of (lookup u l.sources) n)
  delete_from-load none t = ground arith
  delete_from-load (some sources) t = delete_bound-load sources (lookup name sources) t refl

-- A binding is removed if it is to the given node; any other entry is as it was.
pub do_delete_source-load :
    (ins_id : ℕ) (l : NodeLinker) (uid name nid u n : ℕ)
    → do_load_source (do_delete_source ins_id l uid name nid) u n ≡ (
        if uid == u && name == n && is_to nid (do_load_source l uid name)
        then none
        else do_load_source l u n)
unfolding do_load_source do_delete_source
do_delete_source-load ins_id l uid name nid u n =
    delete_from-load ins_id l uid name nid u n (lookup uid l.sources) refl
