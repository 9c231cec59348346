-- ===== src/Transporter/Pending/Refinement.antt =====
-- The twenty partitions of internal/transporter/internal/client/pending.go against one map.
use xbase.Prelude.{
  ℕ, zero, suc, ◌%◌, ◌<◌, ◌≡◌, inl, inr, refl, sym, ap, subst, ◌∙◌, true, false, Option, none, some,
  List, [], ◌∷◌, arith, ◌==◌, if◌then◌else◌, length, get_elem?, set, get_elem?-set_self,
  get_elem?-set_ne, length-set, Bool-cases, Option-cases, ok, bind_outcome, map_outcome,
}
use xbase.Dict.{lookup, insert, delete, lookup-insert, lookup-delete}
use xbase.Transporter.Pending.{
  Partition, Pending, empty_partitions, new_pending, indexed, extracted, extract, store,
  delete_call, Op, extract_op, store_op, delete_op, run_op, one_op, run, run_one, entry_of, entry,
  Stands,
}

mod_below : (n m : ℕ) → 0 < m → n % m < m
mod_below n m h = grind arith

inside : (p : Pending) (i : ℕ) → i < length p → (part : Partition) × (get_elem? p i ≡ some part)
inside [] i h = absurd (omega arith)
inside (part ∷ p) zero h = (part, refl)
inside (part ∷ p) (suc i) h = inside p i (omega arith)

-- The partition of a number, and what an operation that changes the entry of the number in it does.
module _ (p : Pending) (calls : List (ℕ × ℕ)) (stands : Stands p calls) (seq : ℕ) where
  home : (part : Partition) × (get_elem? p (seq % length p) ≡ some part)
  home = inside p (seq % length p) (mod_below seq (length p) stands.some_parts)

  module _ (part part' : Partition) (there : get_elem? p (seq % length p) ≡ some part)
      (v : Option ℕ)
      (changed : (k : ℕ) → lookup k part' ≡ (if seq == k then v else lookup k part)) where
    entry-set :
        (k : ℕ) → entry (set p (seq % length p) part') k ≡ (if seq == k then v else entry p k)
    entry-set k =
        ap (λ n. entry_of (get_elem? (set p (seq % length p) part') (k % n)) k)
          (length-set p (seq % length p) part')
        ∙ elim (Bool-cases (seq % length p == k % length p)) [
          | inl e ↦
              ap (λ i. entry_of (get_elem? (set p (seq % length p) part') i) k)
                (sym (ground (arith, e)))
              ∙ ap (λ o. entry_of o k)
                  (get_elem?-set_self p (seq % length p) part'
                    (mod_below seq (length p) stands.some_parts))
              ∙ changed k
              ∙ ap (λ o. if seq == k then v else entry_of o k)
                  (sym there ∙ ap (get_elem? p) (ground (arith, e)))
          | inr e ↦
              ap (λ o. entry_of o k) (get_elem?-set_ne p part' (ground (arith, e)))
              ∙ ap (λ b. if b then v else entry p k) (sym (other e))
        ]
      where
        other : (seq % length p == k % length p) ≡ false → (seq == k) ≡ false
        other e = elim (Bool-cases (seq == k)) [
          | inl q ↦ absurd (ground (arith, e, ap (λ n. n % length p) (same_number q)))
          | inr q ↦ q
        ]
          where
            same_number : (seq == k) ≡ true → seq ≡ k
            same_number q = ground (arith, q)

    set-Stands :
        (calls' : List (ℕ × ℕ))
        → ((k : ℕ) → lookup k calls' ≡ (if seq == k then v else lookup k calls))
        → Stands (set p (seq % length p) part') calls'
    set-Stands calls' h = record {
      some_parts = subst (λ n. 0 < n) (sym (length-set p (seq % length p) part')) stands.some_parts;
      same = λ k. entry-set k ∙ ap (λ o. if seq == k then v else o) (stands.same k) ∙ sym (h k);
    }

  -- An entry that is not there can be left out.
  left_out :
      (part : Partition)
      → lookup seq part ≡ none
      → (k : ℕ) → lookup k part ≡ (if seq == k then none else lookup k part)
  left_out part e k = elim (Bool-cases (seq == k)) [
    | inl q ↦
        ap (λ i. lookup i part) (sym (ground (arith, q)))
        ∙ e
        ∙ sym (ap (λ b. if b then none else lookup k part) q)
    | inr q ↦ sym (ap (λ b. if b then none else lookup k part) q)
  ]

  extract_lem :
      (q : Pending) × (extract p seq ≡ ok (lookup seq calls, q)) × Stands q (delete seq calls)
  unfolding extract
  extract_lem =
      let (part, there) = home in
      let i = seq % length p in
      let at = λ (o : Option Partition).
        indexed o (λ part.
          let (call, left) = extracted part seq (lookup seq part) in (call, set p i left)) in
      let taken =
        λ (o : Option ℕ). ok ((extracted part seq o).0, set p i (extracted part seq o).1) in
      let found : lookup seq part ≡ lookup seq calls =
        sym (ap (λ o. entry_of o seq) there) ∙ stands.same seq in
      elim (Option-cases (lookup seq part)) [
        | inl none_there ↦ (
          set p i part,
          ap at there
              ∙ ap taken none_there
              ∙ ap (λ o. ok (o, set p i part)) (sym none_there ∙ found),
          set-Stands part part there none (left_out part none_there) (delete seq calls)
              (λ k. lookup-delete seq k calls),
        )
        | inr (call, some_there) ↦ (
          set p i (delete seq part),
          ap at there
              ∙ ap taken some_there
              ∙ ap (λ o. ok (o, set p i (delete seq part))) (sym some_there ∙ found),
          set-Stands part (delete seq part) there none (λ k. lookup-delete seq k part)
              (delete seq calls) (λ k. lookup-delete seq k calls),
        )
      ]

  store_lem :
      (call : ℕ) → (q : Pending) × (store p seq call ≡ ok q) × Stands q (insert seq call calls)
  unfolding store
  store_lem call =
      let (part, there) = home in
      let i = seq % length p in
      (
        set p i (insert seq call part),
        ap (λ o. indexed o (λ part. set p i (insert seq call part))) there,
        set-Stands part (insert seq call part) there (some call)
            (λ k. lookup-insert seq k call part) (insert seq call calls)
            (λ k. lookup-insert seq k call calls),
      )

  delete_call_lem : (q : Pending) × (delete_call p seq ≡ ok q) × Stands q (delete seq calls)
  unfolding delete_call
  delete_call_lem =
      let (part, there) = home in
      let i = seq % length p in
      (
        set p i (delete seq part),
        ap (λ o. indexed o (λ part. set p i (delete seq part))) there,
        set-Stands part (delete seq part) there none (λ k. lookup-delete seq k part)
            (delete seq calls) (λ k. lookup-delete seq k calls),
      )

-- An operation does not run out of range, gives what it gives on the map, and keeps standing for it.
run_op_lem :
    (p : Pending) (calls : List (ℕ × ℕ)) (op : Op)
    → Stands p calls
    → (q : Pending) × (run_op p op ≡ ok ((one_op calls op).0, q)) × Stands q (one_op calls op).1
run_op_lem p calls (extract_op seq) s = extract_lem p calls s seq
run_op_lem p calls (store_op seq call) s =
    let (q, e, t) = store_lem p calls s seq call in (q, ap (map_outcome (λ q. (none, q))) e, t)
run_op_lem p calls (delete_op seq) s =
    let (q, e, t) = delete_call_lem p calls s seq in (q, ap (map_outcome (λ q. (none, q))) e, t)

run-run_one :
    (p : Pending) (calls : List (ℕ × ℕ)) (ops : List Op)
    → Stands p calls
    → run p ops ≡ ok (run_one calls ops)
unfolding run run_one
run-run_one p calls [] s = refl
run-run_one p calls (op ∷ ops) s =
    let (q, e, t) = run_op_lem p calls op s in
    ap (λ o. bind_outcome o (λ r. map_outcome (λ found. r.0 ∷ found) (run r.1 ops))) e
    ∙ ap (map_outcome (λ found. (one_op calls op).0 ∷ found))
        (run-run_one q (one_op calls op).1 ops t)

new_pending-Stands : Stands new_pending []
unfolding new_pending lookup
new_pending-Stands = record { some_parts = omega arith; same = λ seq. nothing (seq % 20) seq 20 }
  where
    nothing : (i seq n : ℕ) → entry_of (get_elem? (empty_partitions n) i) seq ≡ none
    nothing i seq zero = refl
    nothing zero seq (suc n) = refl
    nothing (suc i) seq (suc n) = nothing i seq n

-- From new partitions, any operations in any order run without an index out of range, and what each
-- `extract` finds is what one map from sequence numbers to calls gives.
pub new_pending-refines : (ops : List Op) → run new_pending ops ≡ ok (run_one [] ops)
new_pending-refines ops = run-run_one new_pending [] ops new_pending-Stands
