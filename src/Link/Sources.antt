-- ===== src/Link/Sources.antt =====
-- The sources of internal/link/node.go: of each user and each name of a group, the node that the user is
-- bound to, with what doStoreSource, doDeleteSource and doLoadSource do, each a step under the lock. The
-- handlers are set, and `waits` and `dones` count their calls. A group's name, a node's id and the metadata
-- are coded by numbers; `maps.Clone` copies the metadata, which no one changes.
pub mod Keys
pub mod Held
pub mod Loads
use xbase.Prelude.{
  ℕ, zero, suc, ◌+◌, Bool, true, false, Option, none, some, List, [], ◌∷◌, ◌==◌, if◌then◌else◌,
}
use xbase.Dict.{lookup, insert, delete}

pub record NodeBinding : Type 0 where
  pub nid : ℕ
  pub metadata : ℕ

pub record NodeLinker : Type 0 where
  pub sources : List (ℕ × List (ℕ × NodeBinding))
  pub waits : ℕ
  pub dones : ℕ

abbrev pub new_node_linker : NodeLinker
new_node_linker = record { sources = []; waits = 0; dones = 0 }

abbrev pub or_none : Option (List (ℕ × NodeBinding)) → List (ℕ × NodeBinding)
or_none none = []
or_none (some sources) = sources

-- `sources[name] = binding`, in a new map where the user has none.
abbrev pub put_source : NodeLinker → ℕ → ℕ → NodeBinding → NodeLinker
put_source l uid name binding = record l {
  sources = insert uid (insert name binding (or_none (lookup uid l.sources))) l.sources;
}

-- Whether to wait and whether one is done: by the binding that was there.
abbrev pub wait_done : ℕ → NodeBinding → Option NodeBinding → Bool × Bool
wait_done ins_id binding none = (ins_id == binding.nid, false)
wait_done ins_id binding (some old) =
    if old.nid == binding.nid
    then (false, false)
    else if ins_id == old.nid
    then (false, true)
    else if ins_id == binding.nid
    then (true, false)
    else (false, false)

abbrev pub called : Bool → ℕ → ℕ
called true n = n + 1
called false n = n

abbrev pub count_calls : NodeLinker → Bool × Bool → NodeLinker
count_calls l (wait, done) = record l { waits = called wait l.waits; dones = called done l.dones }

-- The binding of a name in the user's map, if the user has one.
abbrev pub binding_of : Option (List (ℕ × NodeBinding)) → ℕ → Option NodeBinding
binding_of none name = none
binding_of (some sources) name = lookup name sources

unfoldable pub do_load_source : NodeLinker → ℕ → ℕ → Option NodeBinding
do_load_source l uid name = binding_of (lookup uid l.sources) name

unfoldable pub do_store_source : ℕ → NodeLinker → ℕ → ℕ → NodeBinding → NodeLinker
do_store_source ins_id l uid name binding =
    count_calls (put_source l uid name binding)
      (wait_done ins_id binding (binding_of (lookup uid l.sources) name))

-- `if len(sources) == 1 { delete(l.sources, uid) } else { delete(sources, name) }`
abbrev pub drop_source : NodeLinker → ℕ → ℕ → List (ℕ × NodeBinding) → NodeLinker
drop_source l uid name (only ∷ []) = record l { sources = delete uid l.sources }
drop_source l uid name sources = record l { sources = insert uid (delete name sources) l.sources }

abbrev pub delete_bound :
    ℕ → NodeLinker → ℕ → ℕ → ℕ → List (ℕ × NodeBinding) → Option NodeBinding → NodeLinker
delete_bound ins_id l uid name nid sources none = l
delete_bound ins_id l uid name nid sources (some old) =
    if old.nid == nid
    then count_calls (drop_source l uid name sources) (false, old.nid == ins_id)
    else l

abbrev pub delete_from : ℕ → NodeLinker → ℕ → ℕ → ℕ → Option (List (ℕ × NodeBinding)) → NodeLinker
delete_from ins_id l uid name nid none = l
delete_from ins_id l uid name nid (some sources) =
    delete_bound ins_id l uid name nid sources (lookup name sources)

unfoldable pub do_delete_source : ℕ → NodeLinker → ℕ → ℕ → ℕ → NodeLinker
do_delete_source ins_id l uid name nid = delete_from ins_id l uid name nid (lookup uid l.sources)

-- The events of WatchUserLocate, one after another; an event of another type is left out.
pub data UserEvent : Type 0 where
  bind_node : ℕ → ℕ → NodeBinding → UserEvent
  unbind_node : ℕ → ℕ → ℕ → UserEvent
  other_event : UserEvent

abbrev pub on_event : ℕ → NodeLinker → UserEvent → NodeLinker
on_event ins_id l (bind_node uid name binding) = do_store_source ins_id l uid name binding
on_event ins_id l (unbind_node uid name nid) = do_delete_source ins_id l uid name nid
on_event ins_id l other_event = l

unfoldable pub watch_user_locate : ℕ → NodeLinker → List UserEvent → NodeLinker
unfolding do_store_source do_delete_source
watch_user_locate ins_id l [] = l
watch_user_locate ins_id l (event ∷ events) =
    watch_user_locate ins_id (on_event ins_id l event) events
