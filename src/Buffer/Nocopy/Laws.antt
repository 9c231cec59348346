-- ===== src/Buffer/Nocopy/Laws.antt =====
-- The chain against the list of its blocks.
use xbase.Prelude.{
  ℕ, zero, suc, ◌+◌, ◌<◌, ◌≡◌, refl, sym, ap, ap₂, ◌∙◌, Option, none, some, List, [], ◌∷◌, ◌++◌,
  arith, length, length-append, append-nil, joined, flat_map-append,
}
use xbase.Buffer.Nocopy.{
  Node, block, sub, Nodes, end, link, NocopyBuffer, bytes_by_num, node_bytes, head_bytes,
  nodes_bytes, node_len, nodes_len, node_measured, nodes_measured, node_num,
}

-- The blocks of a chain, those of the chains in it among them.
unfoldable mutual
  pub node_blocks : Node → List (List ℕ)
  node_blocks (block bs) = bs ∷ []
  node_blocks (sub num len ns) = nodes_blocks ns

  pub nodes_blocks : Nodes → List (List ℕ)
  nodes_blocks end = []
  nodes_blocks (link n ns) = node_blocks n ++ nodes_blocks ns

abbrev pub blocks : NocopyBuffer → List (List ℕ)
blocks b = nodes_blocks b.nodes

abbrev pub nodes_num : Nodes → ℕ
nodes_num end = 0
nodes_num (link n ns) = node_num n + nodes_num ns

-- A stored length is the length of the blocks.
abbrev pub IsStored : Option ℕ → Nodes → Type 0
IsStored none ns = Unit
IsStored (some n) ns = n ≡ length (joined (nodes_blocks ns))

-- The counts and the stored lengths are right, and no chain in the chain is empty.
abbrev mutual
  pub NodeOk : Node → Type 0
  NodeOk (block bs) = Unit
  NodeOk (sub num len ns) = (num ≡ nodes_num ns) × (0 < num) × IsStored len ns × NodesOk ns

  pub NodesOk : Nodes → Type 0
  NodesOk end = Unit
  NodesOk (link n ns) = NodeOk n × NodesOk ns

pub record IsValid (b : NocopyBuffer) : Type 0 where
  pub counted : b.num ≡ nodes_num b.nodes
  pub stored : IsStored b.len b.nodes
  pub parts : NodesOk b.nodes

pub node_num_pos : (n : Node) → NodeOk n → 0 < node_num n
node_num_pos (block bs) h = omega arith
node_num_pos (sub num len ns) h = h.1

pub by_num :
    (num : ℕ) (ns : Nodes)
    → num ≡ nodes_num ns
    → NodesOk ns
    → bytes_by_num num (head_bytes ns) (nodes_bytes ns) ≡ nodes_bytes ns
unfolding node_bytes
by_num zero end e h = refl
by_num zero (link n ns) e h = absurd (omega (arith, node_num_pos n h.0))
by_num (suc num) end e h = absurd (omega arith)
by_num (suc zero) (link n end) e h = sym (append-nil (node_bytes n))
by_num (suc zero) (link n (link m ns)) e h =
    absurd (omega (arith, node_num_pos n h.0, node_num_pos m h.1.0))
by_num (suc (suc num)) (link n ns) e h = refl

mutual
  unfolding node_bytes node_blocks

  pub node_bytes-eq-joined : (n : Node) → NodeOk n → node_bytes n ≡ joined (node_blocks n)
  node_bytes-eq-joined (block bs) h = sym (append-nil bs)
  node_bytes-eq-joined (sub num len ns) h = by_num num ns h.0 h.3 ∙ nodes_bytes-eq-joined ns h.3

  pub nodes_bytes-eq-joined : (ns : Nodes) → NodesOk ns → nodes_bytes ns ≡ joined (nodes_blocks ns)
  nodes_bytes-eq-joined end h = refl
  nodes_bytes-eq-joined (link n ns) h =
      ap₂ ◌++◌ (node_bytes-eq-joined n h.0) (nodes_bytes-eq-joined ns h.1)
      ∙ sym (flat_map-append (λ bs. bs) (node_blocks n) (nodes_blocks ns))

length-joined :
    (xs ys : List (List ℕ)) → length (joined (xs ++ ys)) ≡ length (joined xs) + length (joined ys)
length-joined xs ys =
    ap length (flat_map-append (λ bs. bs) xs ys) ∙ length-append (joined xs) (joined ys)

mutual
  unfolding node_len node_blocks

  pub node_len_lem : (n : Node) → NodeOk n → node_len n ≡ length (joined (node_blocks n))
  node_len_lem (block bs) h = ap length (sym (append-nil bs))
  node_len_lem (sub num none ns) h = nodes_len_lem ns h.3
  node_len_lem (sub num (some n) ns) h = h.2

  pub nodes_len_lem : (ns : Nodes) → NodesOk ns → nodes_len ns ≡ length (joined (nodes_blocks ns))
  nodes_len_lem end h = refl
  nodes_len_lem (link n ns) h = omega (
    arith,
    length-joined (node_blocks n) (nodes_blocks ns),
    node_len_lem n h.0,
    nodes_len_lem ns h.1,
  )

mutual
  unfolding node_measured node_blocks

  node_blocks-measured : (n : Node) → node_blocks (node_measured n) ≡ node_blocks n
  node_blocks-measured (block bs) = refl
  node_blocks-measured (sub num none ns) = nodes_blocks-measured ns
  node_blocks-measured (sub num (some n) ns) = refl

  pub nodes_blocks-measured : (ns : Nodes) → nodes_blocks (nodes_measured ns) ≡ nodes_blocks ns
  nodes_blocks-measured end = refl
  nodes_blocks-measured (link n ns) = ap₂ ◌++◌ (node_blocks-measured n) (nodes_blocks-measured ns)

node_num-measured : (n : Node) → node_num (node_measured n) ≡ node_num n
unfolding node_measured
node_num-measured (block bs) = refl
node_num-measured (sub num none ns) = refl
node_num-measured (sub num (some n) ns) = refl

pub nodes_num-measured : (ns : Nodes) → nodes_num (nodes_measured ns) ≡ nodes_num ns
unfolding node_measured
nodes_num-measured end = refl
nodes_num-measured (link n ns) = ap₂ ◌+◌ (node_num-measured n) (nodes_num-measured ns)

mutual
  unfolding node_measured

  measured-NodeOk : (n : Node) → NodeOk n → NodeOk (node_measured n)
  measured-NodeOk (block bs) h = tt
  measured-NodeOk (sub num none ns) h = (
    h.0 ∙ sym (nodes_num-measured ns),
    h.1,
    nodes_len_lem ns h.3 ∙ ap (λ l. length (joined l)) (sym (nodes_blocks-measured ns)),
    measured-NodesOk ns h.3,
  )
  measured-NodeOk (sub num (some n) ns) h = h

  pub measured-NodesOk : (ns : Nodes) → NodesOk ns → NodesOk (nodes_measured ns)
  measured-NodesOk end h = tt
  measured-NodesOk (link n ns) h = (measured-NodeOk n h.0, measured-NodesOk ns h.1)
