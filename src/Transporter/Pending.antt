-- ===== src/Transporter/Pending.antt =====
-- internal/transporter/internal/client/pending.go: the calls that wait for a reply, in twenty parts by
-- their sequence number. A channel is coded by a number, the nil channel by 0.
pub mod Refinement
use xbase.Prelude.{
  ℕ, zero, suc, ◌+◌, ◌%◌, ◌≤◌, ◌<◌, ◌≡◌, ◌≢◌, ◌⊎◌, inl, inr, refl, sym, ap, subst, ◌∙◌, Bool, true,
  false, Option, none, some, List, [], ◌∷◌, arith, ◌==◌, if◌then◌else◌, length, get_elem?, set,
  get_elem?-set_self, get_elem?-set_ne, length-set, Bool-cases, Option-cases, Outcome, ok, panic,
  bind_outcome, map_outcome,
}
use xbase.Dict.{lookup, insert, delete, lookup-insert, lookup-delete}

-- A partition is its map of calls; its mutex makes each operation one step.
abbrev pub Partition : Type 0
Partition = List (ℕ × ℕ)

abbrev pub Pending : Type 0
Pending = List Partition

abbrev pub partition_count : ℕ
partition_count = 20

abbrev pub empty_partitions : ℕ → Pending
empty_partitions zero = []
empty_partitions (suc n) = [] ∷ empty_partitions n

unfoldable pub new_pending : Pending
new_pending = empty_partitions partition_count

-- `p.partitions[int(seq%uint64(len(p.partitions)))]`, and what is left in place of it.
abbrev pub indexed {ℓ} : {A : Type ℓ} → Option Partition → (Partition → A) → Outcome A
indexed none f = panic
indexed (some part) f = ok (f part)

-- The call of the entry, and the partition without it; `delete` only where there is one.
abbrev pub extracted : Partition → ℕ → Option ℕ → Option ℕ × Partition
extracted part seq none = (none, part)
extracted part seq (some call) = (some call, delete seq part)

unfoldable pub extract : Pending → ℕ → Outcome (Option ℕ × Pending)
extract p seq =
    let i = seq % length p in
    indexed (get_elem? p i)
      (λ part. let (call, left) = extracted part seq (lookup seq part) in (call, set p i left))

unfoldable pub store : Pending → ℕ → ℕ → Outcome Pending
store p seq call =
    let i = seq % length p in indexed (get_elem? p i) (λ part. set p i (insert seq call part))

unfoldable pub delete_call : Pending → ℕ → Outcome Pending
delete_call p seq =
    let i = seq % length p in indexed (get_elem? p i) (λ part. set p i (delete seq part))

-- The operations, and the replies that they give: what `extract` finds.
pub data Op : Type 0 where
  extract_op : ℕ → Op
  store_op : ℕ → ℕ → Op
  delete_op : ℕ → Op

abbrev pub run_op : Pending → Op → Outcome (Option ℕ × Pending)
run_op p (extract_op seq) = extract p seq
run_op p (store_op seq call) = map_outcome (λ q. (none, q)) (store p seq call)
run_op p (delete_op seq) = map_outcome (λ q. (none, q)) (delete_call p seq)

-- The same on one map from sequence numbers to calls.
abbrev pub one_op : List (ℕ × ℕ) → Op → Option ℕ × List (ℕ × ℕ)
one_op calls (extract_op seq) = (lookup seq calls, delete seq calls)
one_op calls (store_op seq call) = (none, insert seq call calls)
one_op calls (delete_op seq) = (none, delete seq calls)

unfoldable pub run : Pending → List Op → Outcome (List (Option ℕ))
run p [] = ok []
run p (op ∷ ops) =
    bind_outcome (run_op p op) (λ r. map_outcome (λ found. r.0 ∷ found) (run r.1 ops))

unfoldable pub run_one : List (ℕ × ℕ) → List Op → List (Option ℕ)
run_one calls [] = []
run_one calls (op ∷ ops) = let r = one_op calls op in r.0 ∷ run_one r.1 ops

-- The entry of a sequence number.
abbrev pub entry_of : Option Partition → ℕ → Option ℕ
entry_of none seq = none
entry_of (some part) seq = lookup seq part

abbrev pub entry : Pending → ℕ → Option ℕ
entry p seq = entry_of (get_elem? p (seq % length p)) seq

-- The partitions stand for the map: each entry of it is in the partition of its number.
pub record Stands (p : Pending) (calls : List (ℕ × ℕ)) : Type 0 where
  pub some_parts : 0 < length p
  pub same : (seq : ℕ) → entry p seq ≡ lookup seq calls
