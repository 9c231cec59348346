-- ===== src/Buffer/Nocopy/Contents.antt =====
-- What a client of NocopyBuffer may rely on: mounting, the length, the bytes and the visits.
use mathlib.Core.Path.{fun_ext}
use xbase.Prelude.{
  ℕ, ◌+◌, ◌≡◌, refl, sym, ap, ap₂, subst, ◌∙◌, Option, none, some, List, [], ◌∷◌, ◌++◌, Bool, true,
  false, arith, length, append-nil, append_assoc, joined,
}
use xbase.Buffer.Nocopy.{
  Node, block, sub, Nodes, end, link, NocopyBuffer, node_bytes, buffer_bytes, node_len, buffer_len,
  node_num, nodes_append, mount, Whence, head, tail, new_nocopy_buffer, empty_buffer, visit_rest,
  visit_node, visit_nodes, visit,
}
use xbase.Buffer.Nocopy.Laws.{
  node_blocks, nodes_blocks, blocks, nodes_num, NodeOk, NodesOk, IsStored, IsValid, by_num,
  node_bytes-eq-joined, nodes_bytes-eq-joined, node_len_lem, nodes_len_lem, nodes_blocks-measured,
  nodes_num-measured, measured-NodesOk,
}

-- A node's length is that of its bytes.
pub length-node_bytes : (n : Node) → NodeOk n → node_len n ≡ length (node_bytes n)
length-node_bytes n h = node_len_lem n h ∙ ap length (sym (node_bytes-eq-joined n h))

-- The bytes of a valid buffer are its blocks in order.
pub buffer_bytes-eq-joined : (b : NocopyBuffer) → IsValid b → buffer_bytes b ≡ joined (blocks b)
unfolding buffer_bytes
buffer_bytes-eq-joined b v =
    by_num b.num b.nodes v.counted v.parts ∙ nodes_bytes-eq-joined b.nodes v.parts

measured_lem :
    (b : NocopyBuffer) (l : Option ℕ)
    → b.len ≡ l
    → IsValid b
    → ((buffer_len b).0 ≡ length (joined (blocks b)))
      × (blocks (buffer_len b).1 ≡ blocks b)
      × IsValid (buffer_len b).1
unfolding buffer_len
measured_lem b none e v =
    rw (e, buffer_len)
      (
        nodes_len_lem b.nodes v.parts,
        nodes_blocks-measured b.nodes,
        record {
          counted = v.counted ∙ sym (nodes_num-measured b.nodes);
          stored =
              nodes_len_lem b.nodes v.parts
              ∙ ap (λ l. length (joined l)) (sym (nodes_blocks-measured b.nodes));
          parts = measured-NodesOk b.nodes v.parts;
        },
      )
measured_lem b (some n) e v =
    rw (e, buffer_len) (subst (λ l. IsStored l b.nodes) e v.stored, refl, v)

nodes_append-blocks :
    (ns : Nodes) (n : Node) → nodes_blocks (nodes_append ns n) ≡ nodes_blocks ns ++ node_blocks n
unfolding nodes_append node_blocks
nodes_append-blocks end n = append-nil (node_blocks n)
nodes_append-blocks (link m ns) n =
    ap (◌++◌ (node_blocks m)) (nodes_append-blocks ns n)
    ∙ sym (append_assoc (node_blocks m) (nodes_blocks ns) (node_blocks n))

nodes_append-num :
    (ns : Nodes) (n : Node) → nodes_num (nodes_append ns n) ≡ nodes_num ns + node_num n
unfolding nodes_append
nodes_append-num end n = omega arith
nodes_append-num (link m ns) n = omega (arith, nodes_append-num ns n)

nodes_append-NodesOk : (ns : Nodes) (n : Node) → NodesOk ns → NodeOk n → NodesOk (nodes_append ns n)
unfolding nodes_append
nodes_append-NodesOk end n h k = (k, tt)
nodes_append-NodesOk (link m ns) n h k = (h.0, nodes_append-NodesOk ns n h.1 k)

-- Where a mount puts the blocks of the node.
abbrev pub mounted : List (List ℕ) → List (List ℕ) → Whence → List (List ℕ)
mounted old new head = new ++ old
mounted old new tail = old ++ new

-- Mounting a well-formed node on a valid buffer puts the node's blocks at the end that is asked for, and
-- keeps the buffer valid.
pub mount_lem :
    (b : NocopyBuffer) (n : Node) (whence : Whence)
    → IsValid b
    → NodeOk n
    → (blocks (mount b n whence) ≡ mounted (blocks b) (node_blocks n) whence)
      × IsValid (mount b n whence)
unfolding mount node_blocks
mount_lem b n head v h =
    (refl, record { counted = omega (arith, v.counted); stored = tt; parts = (h, v.parts) })
mount_lem b n tail v h = (
  nodes_append-blocks b.nodes n,
  record {
    counted = omega (arith, v.counted, nodes_append-num b.nodes n);
    stored = tt;
    parts = nodes_append-NodesOk b.nodes n v.parts h;
  },
)

-- The callback of Visit over a plain list of blocks.
abbrev pub visit_list : {S : Type 0} → (List ℕ → S → Bool × S) → List (List ℕ) → S → Bool × S
visit_list f [] s = (true, s)
visit_list f (bs ∷ rest) s = visit_rest (f bs s) (visit_list f rest)

visit_rest-true : {S : Type 0} (r : Bool × S) → visit_rest r (λ s. (true, s)) ≡ r
visit_rest-true (true, s) = refl
visit_rest-true (false, s) = refl

visit_rest_assoc :
    {S : Type 0} (r : Bool × S) (j k : S → Bool × S)
    → visit_rest (visit_rest r j) k ≡ visit_rest r (λ s. visit_rest (j s) k)
visit_rest_assoc (true, s) j k = refl
visit_rest_assoc (false, s) j k = refl

visit_list-append :
    {S : Type 0} (f : List ℕ → S → Bool × S) (xs ys : List (List ℕ)) (s : S)
    → visit_list f (xs ++ ys) s ≡ visit_rest (visit_list f xs s) (visit_list f ys)
visit_list-append f [] ys s = refl
visit_list-append f (x ∷ xs) ys s =
    ap (visit_rest (f x s)) (fun_ext (visit_list-append f xs ys))
    ∙ sym (visit_rest_assoc (f x s) (visit_list f xs) (visit_list f ys))

mutual
  unfolding visit_node node_blocks

  visit_node-eq :
      {S : Type 0} (f : List ℕ → S → Bool × S) (n : Node) (s : S)
      → visit_node f n s ≡ visit_list f (node_blocks n) s
  visit_node-eq f (block bs) s = sym (visit_rest-true (f bs s))
  visit_node-eq f (sub num len ns) s = visit_nodes-eq f ns s

  visit_nodes-eq :
      {S : Type 0} (f : List ℕ → S → Bool × S) (ns : Nodes) (s : S)
      → visit_nodes f ns s ≡ visit_list f (nodes_blocks ns) s
  visit_nodes-eq f end s = refl
  visit_nodes-eq f (link n ns) s =
      ap₂ visit_rest (visit_node-eq f n s) (fun_ext (visit_nodes-eq f ns))
      ∙ sym (visit_list-append f (node_blocks n) (nodes_blocks ns) s)

-- Bytes gives a valid buffer's blocks in order, and Len their total length; Len leaves the buffer
-- valid, with the same blocks.
pub contents_lem :
    (b : NocopyBuffer)
    → IsValid b
    → (buffer_bytes b ≡ joined (blocks b))
      × ((buffer_len b).0 ≡ length (buffer_bytes b))
      × (blocks (buffer_len b).1 ≡ blocks b)
      × IsValid (buffer_len b).1
contents_lem b v =
    let (l, k, v') = measured_lem b b.len refl v in
    (buffer_bytes-eq-joined b v, l ∙ ap length (sym (buffer_bytes-eq-joined b v)), k, v')

-- Visit calls the callback on the blocks in order, until it answers false.
pub visit_lem :
    {S : Type 0} (b : NocopyBuffer) (f : List ℕ → S → Bool × S) (s : S)
    → visit b f s ≡ visit_list f (blocks b) s
unfolding visit
visit_lem b f s = visit_nodes-eq f b.nodes s

-- Behind an empty chain at the head, a block is left out of Bytes, while Len counts it.
pub hidden_block :
    (bs : List ℕ)
    → let b = new_nocopy_buffer (sub 0 none end ∷ block bs ∷ []) in
      (buffer_bytes b ≡ []) × ((buffer_len b).0 ≡ length bs)
unfolding new_nocopy_buffer buffer_bytes buffer_len
hidden_block bs = (refl, omega arith)

-- A buffer of a written block and a message holds the one, then the other.
pub framed_lem :
    (bs : List ℕ) (n : Node)
    → NodeOk n
    → let b = new_nocopy_buffer (block bs ∷ n ∷ []) in
      IsValid b × (buffer_bytes b ≡ bs ++ node_bytes n)
unfolding new_nocopy_buffer node_blocks
framed_lem bs n h =
    let one =
      mount_lem empty_buffer (block bs) tail (record { counted = refl; stored = tt; parts = tt })
        tt in
    let two = mount_lem (mount empty_buffer (block bs) tail) n tail one.1 h in
    (
      two.1,
      buffer_bytes-eq-joined _ two.1
          ∙ ap joined (two.0 ∙ ap (λ l. l ++ node_blocks n) one.0)
          ∙ ap (◌++◌ bs) (sym (node_bytes-eq-joined n h)),
    )

-- A buffer of one written block holds it.
pub single_lem :
    (bs : List ℕ) → let b = new_nocopy_buffer (block bs ∷ []) in IsValid b × (buffer_bytes b ≡ bs)
unfolding new_nocopy_buffer buffer_bytes
single_lem bs = (record { counted = refl; stored = tt; parts = (tt, tt) }, refl)
