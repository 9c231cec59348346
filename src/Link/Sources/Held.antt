-- ===== src/Link/Sources/Held.antt =====
-- The calls of the handlers of internal/link/node.go, counted against the bindings to the node itself.
use xbase.Prelude.{
  ℕ, ◌+◌, ◌≡◌, inl, inr, refl, sym, ap, subst, ◌∙◌, false, Option, none, some, List, [], ◌∷◌, arith,
  ◌==◌, if◌then◌else◌, Bool-cases,
}
use xbase.Dict.{lookup, insert, delete, lookup-insert, lookup-delete}
use xbase.Link.Sources.{
  NodeBinding, NodeLinker, new_node_linker, or_none, wait_done, called, count_calls, binding_of,
  do_store_source, drop_source, delete_bound, delete_from, do_delete_source, UserEvent, bind_node,
  unbind_node, other_event, on_event, watch_user_locate,
}
use xbase.Link.Sources.Keys.{
  Once, insert-Once, delete-Once, sum_of, size_at, sum_of-insert, sum_of-delete,
}

abbrev pub own : ℕ → NodeBinding → ℕ
own ins_id binding = if ins_id == binding.nid then 1 else 0

-- How many bindings of a map, and of all maps, are to the node itself.
abbrev pub held_of : ℕ → List (ℕ × NodeBinding) → ℕ
held_of ins_id = sum_of (own ins_id)

abbrev pub held : ℕ → List (ℕ × List (ℕ × NodeBinding)) → ℕ
held ins_id = sum_of (held_of ins_id)

abbrev AllOnce : List (ℕ × List (ℕ × NodeBinding)) → Type 0
AllOnce sources = (uid : ℕ) → Once (or_none (lookup uid sources))

pub record Counted (ins_id : ℕ) (l : NodeLinker) : Type 0 where
  pub users : Once l.sources
  pub names : AllOnce l.sources
  pub balance : l.waits ≡ l.dones + held ins_id l.sources

or_none-held :
    (ins_id : ℕ) (o : Option (List (ℕ × NodeBinding)))
    → size_at (held_of ins_id) o ≡ held_of ins_id (or_none o)
or_none-held ins_id none = refl
or_none-held ins_id (some sources) = refl

binding_of-lookup :
    (o : Option (List (ℕ × NodeBinding))) (name : ℕ) → binding_of o name ≡ lookup name (or_none o)
unfolding lookup
binding_of-lookup none name = refl
binding_of-lookup (some sources) name = refl

-- The calls after a binding is put in the place of another.
called-balance :
    (ins_id : ℕ) (binding : NodeBinding) (o : Option NodeBinding) (w d h h' : ℕ)
    → w ≡ d + h
    → h' + size_at (own ins_id) o ≡ h + own ins_id binding
    → called (wait_done ins_id binding o).0 w ≡ called (wait_done ins_id binding o).1 d + h'
called-balance ins_id binding none w d h h' e f = ground (arith, e, f)
called-balance ins_id binding (some old) w d h h' e f = ground (arith, e, f)

insert-AllOnce :
    (sources : List (ℕ × List (ℕ × NodeBinding))) (uid : ℕ) (m : List (ℕ × NodeBinding))
    → Once m
    → AllOnce sources
    → AllOnce (insert uid m sources)
insert-AllOnce sources uid m o all k = elim (Bool-cases (uid == k)) [
  | inl e ↦
      subst (λ r. Once (or_none r))
        (sym (lookup-insert uid k m sources ∙ ap (λ b. if b then some m else lookup k sources) e)) o
  | inr e ↦
      subst (λ r. Once (or_none r))
        (sym (lookup-insert uid k m sources ∙ ap (λ b. if b then some m else lookup k sources) e))
        (all k)
]

delete-AllOnce :
    (sources : List (ℕ × List (ℕ × NodeBinding))) (uid : ℕ)
    → AllOnce sources
    → AllOnce (delete uid sources)
delete-AllOnce sources uid all k = elim (Bool-cases (uid == k)) [
  | inl e ↦
      subst (λ r. Once (or_none r))
        (sym (lookup-delete uid k sources ∙ ap (λ b. if b then none else lookup k sources) e)) tt
  | inr e ↦
      subst (λ r. Once (or_none r))
        (sym (lookup-delete uid k sources ∙ ap (λ b. if b then none else lookup k sources) e))
        (all k)
]

module _ (ins_id : ℕ) (l : NodeLinker) (counted : Counted ins_id l) (uid : ℕ) where
  do_store_source-Counted :
      (name : ℕ) (binding : NodeBinding)
      → Counted ins_id (do_store_source ins_id l uid name binding)
  unfolding do_store_source
  do_store_source-Counted name binding =
      let o = lookup uid l.sources in
      let m = or_none o in
      let new = insert name binding m in
      record {
        users = insert-Once uid new l.sources counted.users;
        names =
            insert-AllOnce l.sources uid new (insert-Once name binding m (counted.names uid))
              counted.names;
        balance =
            called-balance ins_id binding (binding_of o name) l.waits l.dones
              (held ins_id l.sources) (held ins_id (insert uid new l.sources)) counted.balance
              (omega (
                arith,
                sum_of-insert (held_of ins_id) uid new l.sources,
                sum_of-insert (own ins_id) name binding m,
                or_none-held ins_id o,
                ap (size_at (own ins_id)) (binding_of-lookup o name),
              ));
      }

  module _ (sources : List (ℕ × NodeBinding)) (there : lookup uid l.sources ≡ some sources)
      (name : ℕ) (old : NodeBinding) (bound : lookup name sources ≡ some old) where
    once : Once sources
    once = subst (λ o. Once (or_none o)) there (counted.names uid)

    -- What a removal leaves: each key once, and one binding less.
    abbrev Dropped : List (ℕ × List (ℕ × NodeBinding)) → Type 0
    Dropped left =
        Once left × AllOnce left × (held ins_id left + own ins_id old ≡ held ins_id l.sources)

    delete-Dropped : held_of ins_id sources ≡ own ins_id old → Dropped (delete uid l.sources)
    delete-Dropped e = (
      delete-Once uid l.sources counted.users,
      delete-AllOnce l.sources uid counted.names,
      omega (
        arith,
        e,
        sum_of-delete (held_of ins_id) uid l.sources counted.users,
        ap (size_at (held_of ins_id)) there,
      ),
    )

    insert-Dropped : Dropped (insert uid (delete name sources) l.sources)
    insert-Dropped = (
      insert-Once uid (delete name sources) l.sources counted.users,
      insert-AllOnce l.sources uid (delete name sources) (delete-Once name sources once)
          counted.names,
      omega (
        arith,
        sum_of-insert (held_of ins_id) uid (delete name sources) l.sources,
        ap (size_at (held_of ins_id)) there,
        sum_of-delete (own ins_id) name sources once,
        ap (size_at (own ins_id)) bound,
      ),
    )

    Dropped-Counted :
        (left : List (ℕ × List (ℕ × NodeBinding)))
        → Dropped left
        → Counted ins_id (count_calls (record l { sources = left }) (false, old.nid == ins_id))
    Dropped-Counted left (users, names, e) = record {
      users = users;
      names = names;
      balance = ground (arith, counted.balance, e);
    }

  only-held :
      (name : ℕ) (only : ℕ × NodeBinding) (old : NodeBinding)
      → lookup name (only ∷ []) ≡ some old
      → held_of ins_id (only ∷ []) ≡ own ins_id old
  unfolding lookup
  only-held name (k, v) old e = elim (Bool-cases (k == name)) [
    | inl q ↦
        omega (arith, ap (size_at (own ins_id)) (sym (ap (λ b. if b then some v else none) q) ∙ e))
    | inr q ↦ absurd (ground (arith, e, q))
  ]

  drop_source-Counted :
      (sources : List (ℕ × NodeBinding)) (name : ℕ) (old : NodeBinding)
      → lookup uid l.sources ≡ some sources
      → lookup name sources ≡ some old
      → Counted ins_id (count_calls (drop_source l uid name sources) (false, old.nid == ins_id))
  drop_source-Counted [] name old t b =
      Dropped-Counted [] t name old b _ (insert-Dropped [] t name old b)
  drop_source-Counted (only ∷ []) name old t b =
      Dropped-Counted (only ∷ []) t name old b (delete uid l.sources)
        (delete-Dropped (only ∷ []) t name old b (only-held name only old b))
  drop_source-Counted (first ∷ second ∷ rest) name old t b =
      Dropped-Counted (first ∷ second ∷ rest) t name old b _
        (insert-Dropped (first ∷ second ∷ rest) t name old b)

  delete_bound-Counted :
      (sources : List (ℕ × NodeBinding)) (name nid : ℕ) (o : Option NodeBinding)
      → lookup uid l.sources ≡ some sources
      → lookup name sources ≡ o
      → Counted ins_id (delete_bound ins_id l uid name nid sources o)
  delete_bound-Counted sources name nid none t b = counted
  delete_bound-Counted sources name nid (some old) t b = elim (Bool-cases (old.nid == nid)) [
    | inl e ↦ rw e (drop_source-Counted sources name old t b)
    | inr e ↦ rw e counted
  ]

  delete_from-Counted :
      (name nid : ℕ) (o : Option (List (ℕ × NodeBinding)))
      → lookup uid l.sources ≡ o
      → Counted ins_id (delete_from ins_id l uid name nid o)
  delete_from-Counted name nid none t = counted
  delete_from-Counted name nid (some sources) t =
      delete_bound-Counted sources name nid (lookup name sources) t refl

  do_delete_source-Counted :
      (name nid : ℕ) → Counted ins_id (do_delete_source ins_id l uid name nid)
  unfolding do_delete_source
  do_delete_source-Counted name nid = delete_from-Counted name nid (lookup uid l.sources) refl

on_event-Counted :
    (ins_id : ℕ) (l : NodeLinker) (event : UserEvent)
    → Counted ins_id l
    → Counted ins_id (on_event ins_id l event)
on_event-Counted ins_id l (bind_node uid name binding) c =
    do_store_source-Counted ins_id l c uid name binding
on_event-Counted ins_id l (unbind_node uid name nid) c =
    do_delete_source-Counted ins_id l c uid name nid
on_event-Counted ins_id l other_event c = c

watch_user_locate-keeps :
    (ins_id : ℕ) (l : NodeLinker) (events : List UserEvent)
    → Counted ins_id l
    → Counted ins_id (watch_user_locate ins_id l events)
unfolding watch_user_locate
watch_user_locate-keeps ins_id l [] c = c
watch_user_locate-keeps ins_id l (event ∷ events) c =
    watch_user_locate-keeps ins_id (on_event ins_id l event) events
      (on_event-Counted ins_id l event c)

-- After any events on a new linker, the maps have each key once, and the wait handler was called as often
-- as the done handler and once more for each binding to the node itself that the maps hold.
pub watch_user_locate-Counted :
    (ins_id : ℕ) (events : List UserEvent)
    → Counted ins_id (watch_user_locate ins_id new_node_linker events)
unfolding lookup
watch_user_locate-Counted ins_id events =
    watch_user_locate-keeps ins_id new_node_linker events
      (record { users = tt; names = λ uid. tt; balance = omega arith })
