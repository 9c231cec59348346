-- ===== src/Buffer/Nocopy.antt =====
-- core/buffer/nocopy_buffer.go and core/buffer/nocopy_node.go: a chain of blocks, some of them
-- chains themselves. The doubly linked list of nodes is the list of nodes from `head` on.
pub mod Laws
pub mod Contents
use xbase.Prelude.{
  ℕ, zero, suc, ◌+◌, Option, none, some, List, [], ◌∷◌, ◌++◌, Bool, true, false, length, ltb,
}
use xbase.Prelude.Int.{ℤ, pos, negsuc, ◌-ℤ◌, ltb_ℤ}

-- A node is a NocopyNode over the bytes of a `[]byte`, a `*Bytes` or a `*Writer`, or a NocopyBuffer
-- with its `num`, its `len` (`none` is -1) and its nodes.
mutual
  pub data Node : Type 0 where
    block : List ℕ → Node
    sub : ℕ → Option ℕ → Nodes → Node

  pub data Nodes : Type 0 where
    end : Nodes
    link : Node → Nodes → Nodes

pub record NocopyBuffer : Type 0 where
  pub num : ℕ
  pub len : Option ℕ
  pub nodes : Nodes

pub data Whence : Type 0 where
  head tail : Whence

-- The `switch b.num` of Bytes: nothing, the head alone, or all.
abbrev pub bytes_by_num : ℕ → List ℕ → List ℕ → List ℕ
bytes_by_num zero first all = []
bytes_by_num (suc zero) first all = first
bytes_by_num (suc (suc n)) first all = all

unfoldable mutual
  pub node_bytes : Node → List ℕ
  node_bytes (block bs) = bs
  node_bytes (sub num len ns) = bytes_by_num num (head_bytes ns) (nodes_bytes ns)

  pub head_bytes : Nodes → List ℕ
  head_bytes end = []
  head_bytes (link n ns) = node_bytes n

  pub nodes_bytes : Nodes → List ℕ
  nodes_bytes end = []
  nodes_bytes (link n ns) = node_bytes n ++ nodes_bytes ns

unfoldable pub buffer_bytes : NocopyBuffer → List ℕ
unfolding node_bytes
buffer_bytes b = node_bytes (sub b.num b.len b.nodes)

-- Len: the cached length, or the sum over the nodes.
abbrev pub len_by_cache : Option ℕ → ℕ → ℕ
len_by_cache (some n) size = n
len_by_cache none size = size

unfoldable mutual
  pub node_len : Node → ℕ
  node_len (block bs) = length bs
  node_len (sub num len ns) = len_by_cache len (nodes_len ns)

  pub nodes_len : Nodes → ℕ
  nodes_len end = 0
  nodes_len (link n ns) = node_len n + nodes_len ns

-- What Len leaves behind: it stores the length, and so do the buffers that it asks.
unfoldable mutual
  pub node_measured : Node → Node
  node_measured (block bs) = block bs
  node_measured (sub num (some n) ns) = sub num (some n) ns
  node_measured (sub num none ns) = sub num (some (nodes_len ns)) (nodes_measured ns)

  pub nodes_measured : Nodes → Nodes
  nodes_measured end = end
  nodes_measured (link n ns) = link (node_measured n) (nodes_measured ns)

unfoldable pub buffer_len : NocopyBuffer → ℕ × NocopyBuffer
unfolding node_len node_measured
buffer_len b = elim b.len [
  | some n ↦ (n, b)
  | none ↦ (
    nodes_len b.nodes,
    record b { len = some (nodes_len b.nodes); nodes = nodes_measured b.nodes },
  )
]

unfoldable pub nodes_append : Nodes → Node → Nodes
nodes_append end n = link n end
nodes_append (link m ns) n = link m (nodes_append ns n)

-- How many nodes a mount counts.
abbrev pub node_num : Node → ℕ
node_num (block bs) = 1
node_num (sub num len ns) = num

unfoldable pub add_to_head : NocopyBuffer → Node → NocopyBuffer
add_to_head b n = record { num = b.num + node_num n; len = none; nodes = link n b.nodes }

unfoldable pub add_to_tail : NocopyBuffer → Node → NocopyBuffer
unfolding nodes_append
add_to_tail b n = record { num = b.num + node_num n; len = none; nodes = nodes_append b.nodes n }

unfoldable pub mount : NocopyBuffer → Node → Whence → NocopyBuffer
unfolding add_to_head add_to_tail
mount b n head = add_to_head b n
mount b n tail = add_to_tail b n

unfoldable pub mount_all : NocopyBuffer → List Node → NocopyBuffer
unfolding mount
mount_all b [] = b
mount_all b (n ∷ ns) = mount_all (mount b n tail) ns

abbrev pub empty_buffer : NocopyBuffer
empty_buffer = record { num = 0; len = none; nodes = end }

unfoldable pub new_nocopy_buffer : List Node → NocopyBuffer
unfolding mount_all
new_nocopy_buffer blocks = mount_all empty_buffer blocks

-- Visit: the callback sees each NocopyNode's bytes in order, until it answers false. The state `S`
-- is what the callback changes.
abbrev pub visit_rest : {S : Type 0} → Bool × S → (S → Bool × S) → Bool × S
visit_rest (false, s) k = (false, s)
visit_rest (true, s) k = k s

unfoldable mutual
  pub visit_node : {S : Type 0} → (List ℕ → S → Bool × S) → Node → S → Bool × S
  visit_node f (block bs) s = f bs s
  visit_node f (sub num len ns) s = visit_nodes f ns s

  pub visit_nodes : {S : Type 0} → (List ℕ → S → Bool × S) → Nodes → S → Bool × S
  visit_nodes f end s = (true, s)
  visit_nodes f (link n ns) s = visit_rest (visit_node f n s) (visit_nodes f ns)

unfoldable pub visit : {S : Type 0} → NocopyBuffer → (List ℕ → S → Bool × S) → S → Bool × S
unfolding visit_node
visit b f s = visit_nodes f b.nodes s
